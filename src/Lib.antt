-- ===== src/Lib.antt =====
-- Verification of two groups of Python tools of SQL Server Analyze: those that read the control
-- groups of a Linux host, and those that decide which analyses of rules can be reused and
-- whether a budget allows new work.
--
-- The first group stands in three layers. Code/Tools/Linux_Cgroup_Native.py owns file
-- descriptors and reads files within a budget of bytes and time.
-- Code/Tools/Linux_Cgroup_Metadata.py and Code/Tools/Linux_Cgroup_Values.py turn the texts that
-- were read into dictionaries of results, without any input or output.
-- Code/Tools/Linux_Cgroup_Reader.py calls both and combines the results.
--
-- The second group stands in two files. .ai/foundation/rule_context_cache/rule_context_cache.py
-- captures the sources of a repository twice, makes a record with a hash for each source and
-- its dependencies, compares it with the record of the cache, and writes a record under a lock.
-- .ai/foundation/runtime/processing_efficiency.py keeps the analyses of a session by such keys,
-- and decides on budgets.
--
-- Common holds what every file uses: lists, options, Boolean tests and their lemmas. Text has
-- Python's operations on strings, a string being the list of its code points (split, strip,
-- startswith). Codes has the parse states and reason codes of both parsers.
--
-- Code/Tools/Linux_Cgroup_Values.py:
--     U64: _parse_u64 and the decimal form of a number.
--     Gcd: math.gcd, computed by Euclid's algorithm.
--     Values.Input: _input_problem. A surrogate code point is what the encoding refuses.
--     Values.Resource: parse_resource_value, for memory limits and cpu.max. The exception for
--     an unknown key is a result of its own.
--     Values.Cpuset: parse_cpuset_cpus_effective; the sort is by insertion, the list of merged
--     intervals is kept with the last one first.
--     Values.Counters: _parse_keyed_counters, parse_memory_events and parse_cpu_stat. The set
--     of keys seen is a list.
--     Values.CgroupType: parse_cgroup_type.
--
-- Code/Tools/Linux_Cgroup_Metadata.py:
--     Metadata.Input: _input_problem and _lines.
--     Metadata.Parsed: a result or a reason, with the chain of early returns.
--     Metadata.Membership: _parse_membership_record and parse_v2_membership.
--     Metadata.Escape: _decode_mount_path.
--     Metadata.Mountinfo: _parse_mountinfo_record and parse_cgroup2_mountinfo.
--
-- Code/Tools/Linux_Cgroup_Native.py:
--     Native.Errno: _errno_code.
--     Native.Budget: ReadBudget. Times are natural numbers, in ticks of the clock.
--     Native.Reading: read_bounded. The reader and the clocks are given for each round of the
--     loop.
--     Native.OwnedFd: the calls on OwnedFD, and what each does to the descriptor.
--
-- Code/Tools/Linux_Cgroup_Reader.py:
--     Reader.Tokens: _u64_token, and the searches and cuts in bytes.
--     Reader.Stat: _parse_process_stat.
--     Reader.Mounts: _path_components, _relative_mount_path and _select_cgroup2_mount, on the
--     result of Metadata.Mountinfo.
--     Reader.Issues: _add_issue and _state_for_failure.
--     Reader.Pidfd: _parse_pidfd_info and _cli_pid.
--
-- .ai/foundation/rule_context_cache/rule_context_cache.py:
--     RuleCache.Texts: sets and sorted lists of texts. A set is a list whose order is not
--     looked at.
--     RuleCache.Graph: _transitive_dependencies and _dependent_closure. The pending list has
--     the next item to pop in front.
--     RuleCache.Record: the record, its keys and what is hashed. A dict is a list of entries.
--     The hash is a parameter, on the values that _sha256_json is called with; the theorems ask
--     of it only that it gives digests.
--     RuleCache.Validate, RuleCache.Validate.Record: _validate_record_shape, on a record whose
--     fields have their types; a file that holds anything else is unreadable in the model,
--     where the code may also raise a TypeError.
--     RuleCache.Compare: compare_records and _plan_payload. The sets of changed paths are
--     selections of the current paths.
--     RuleCache.Capture: _finalize_record, _capture_once and capture_snapshot, for what a
--     discovery finds. The function that reads and fingerprints a file is a field of the
--     discovery.
--     RuleCache.Chain: _instruction_chain, for given answers of the file system.
--     RuleCache.Discovery: _discover_sources, with its queue and locals as a record. What a
--     reference names and what references a file has are given.
--     RuleCache.Fingerprint: _logical_content, _git_fingerprint and _fingerprint_source, for
--     given answers of Git.
--     RuleCache.Recording: _read_record, check_cache, the lock and record_cache. The turns of
--     the lock before it is had, the test of the destination by Git and the success of the
--     write are given.
--
-- .ai/foundation/runtime/processing_efficiency.py:
--     Efficiency.Session: SessionContext; the analyses are a list with the newest first.
--     Efficiency.Budget: budget_decision, for amounts that are integers, with the refusals of
--     _amount for negative ones and for those out of the range of a float; an exception is a
--     result.
--
-- Bounds and fuel: numbers are native natural numbers, and the limits of 64 and 31 bits are
-- tests, as in the source. The read loop has fuel for one round more than the limit of the file
-- has bytes, which is enough since each round that goes on reads a byte. The search for
-- dependencies has fuel for one step more than there are dependencies listed, since a source is
-- entered once; the closure over dependents has one pass more than there are sources, since
-- every pass but the last adds one. The search for sources has fuel for more turns than the
-- chain and the files that a reference can name have items. The division steps of the decimal
-- form and of the common divisor have fuel that exceeds their number.
--
-- Not modelled: the calls of Git and the search for references in Markdown, floating point
-- amounts, the release of the lock of a record (__exit__ removes its file), the collection of
-- the reader and its derived metrics, the system calls and their structures, the tests of an
-- argument's type, and the SQL, PowerShell and test code of the repository.
pub mod Codes
pub mod Common
pub mod Efficiency
pub mod Gcd
pub mod Metadata
pub mod Native
pub mod Reader
pub mod RuleCache
pub mod Text
pub mod U64
pub mod Values
