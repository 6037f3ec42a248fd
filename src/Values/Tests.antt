-- ===== src/Values/Tests.antt =====
-- The parsers of Code/Tools/Linux_Cgroup_Values.py on concrete files, and instances of the theorems.
use sql_server_analyze.Common.{
  ℕ, ◌<◌, ◌≡◌, ◌↔◌, ◌⊎◌, refl, true, false, [], ◌∷◌, some, arith, ⊎-rotate,
}
use sql_server_analyze.Codes.{ParseState, ReasonCode}
use sql_server_analyze.Text.{Text, codes, text_eq, is_outer_space, member, strip, split, split_runs}
use sql_server_analyze.U64.{u64_max, number, all_digits, int_from, parse_u64, to_decimal}
use sql_server_analyze.U64.Laws.{parse_u64-failed}
use sql_server_analyze.U64.RoundTrip.{parse_u64-to_decimal}
use sql_server_analyze.Values.Input.{input_problem, IsBounded}
use sql_server_analyze.Values.Resource.{
  ResourceResult, returns, value_error, memory_keys, unlimited_memory_keys, cpu_max, max_token,
  parse_resource_value, unlimited_result, cpu_ratio,
}
use sql_server_analyze.Values.Resource.Memory.{
  memory_value, SpellsNumber, memory_value_iff, memory_unlimited,
}
use sql_server_analyze.Values.Resource.Cpu.{IsLowestRatio, cpu_max_lowest}
use sql_server_analyze.Values.Resource.States.{IsCoherent, parse_resource_value-IsCoherent}
use sql_server_analyze.Gcd.{gcd}
use sql_server_analyze.Values.Cpuset.{parse_cpuset_cpus_effective}
use sql_server_analyze.Values.Cpuset.Parsing.{Names}
use sql_server_analyze.Values.Cpuset.Effective.{
  IsCpuList, IsCpuSetOf, cpuset_valid_iff, cpuset_IsCpuSetOf, cpuset_canonical,
}
use sql_server_analyze.Values.Counters.{
  parse_cpu_stat, parse_keyed_counters, cpu_stat_units, counter_of,
}
use sql_server_analyze.Values.Counters.Contract.{
  IsCounterFile, counters_result, parse_keyed_counters_iff,
}
use sql_server_analyze.Values.CgroupType.{
  LayoutState, parse_cgroup_type, IsDomain, cgroup_type_supported_iff,
}

abbrev quota_file : Text
quota_file = codes "150000 100000\n"

abbrev quota_result : ResourceResult
quota_result = cpu_ratio quota_file 150000 100000

quota_parsed : parse_resource_value cpu_max quota_file ≡ returns quota_result
unfolding parse_resource_value input_problem member strip split_runs parse_u64 to_decimal gcd
quota_parsed = refl

quota_reduced : quota_result.ratio_numerator ≡ some (codes "3")
unfolding to_decimal gcd
quota_reduced = refl

unknown_key : parse_resource_value (codes "io.max") (codes "1") ≡ value_error
unfolding parse_resource_value member
unknown_key = refl

abbrev cpus : Text
cpus = codes "0-3,8,2-5\n"

cpus_parsed :
    (parse_cpuset_cpus_effective cpus).intervals
    ≡ some ((codes "0", codes "5") ∷ (codes "8", codes "8") ∷ [])
unfolding parse_cpuset_cpus_effective input_problem strip split parse_u64 to_decimal
cpus_parsed = refl

cpus_valid : (parse_cpuset_cpus_effective cpus).parse_state ≡ ParseState.valid
unfolding parse_cpuset_cpus_effective input_problem strip split parse_u64
cpus_valid = refl

cpus_count : (parse_cpuset_cpus_effective cpus).cpu_count ≡ some (codes "7")
unfolding parse_cpuset_cpus_effective input_problem strip split parse_u64 to_decimal
cpus_count = refl

reversed_range : (parse_cpuset_cpus_effective (codes "5-2")).reason_code ≡ ReasonCode.invalid_range
unfolding parse_cpuset_cpus_effective input_problem strip split parse_u64
reversed_range = refl

duplicate_counter :
    (parse_cpu_stat (codes "nr_periods 1\nnr_periods 2")).reason_code ≡ ReasonCode.duplicate_key
unfolding parse_cpu_stat input_problem split strip split_runs member parse_u64
duplicate_counter = refl

-- Instances.
parse_u64-failed_example :
    ((ReasonCode.out_of_range ≡ ReasonCode.invalid_token)
      × (all_digits (codes "18446744073709551616") ≡ false))
    ⊎ ((ReasonCode.out_of_range ≡ ReasonCode.out_of_range)
        × (all_digits (codes "18446744073709551616") ≡ true)
        × (u64_max < int_from 0 (codes "18446744073709551616")))
parse_u64-failed_example =
    parse_u64-failed (codes "18446744073709551616") ReasonCode.out_of_range
      (unfold parse_u64 in refl)

parse_u64-to_decimal_example : parse_u64 (to_decimal 4096) ≡ number 4096
parse_u64-to_decimal_example = parse_u64-to_decimal 4096 (omega arith)

memory_value_iff_example :
    (parse_resource_value (codes "memory.max") (codes "4096\n")
      ≡ returns (memory_value (codes "memory.max") (codes "4096\n") 4096))
    ↔ SpellsNumber (codes "4096\n") 4096
memory_value_iff_example =
    memory_value_iff (codes "memory.max") (codes "4096\n") 4096 (unfold member in refl)

cpu_max_lowest_example : IsLowestRatio quota_file quota_result
cpu_max_lowest_example = cpu_max_lowest quota_file quota_result quota_parsed refl

parse_resource_value-IsCoherent_example : IsCoherent cpu_max quota_file quota_result
parse_resource_value-IsCoherent_example =
    parse_resource_value-IsCoherent cpu_max quota_file quota_result quota_parsed

cpuset_valid_iff_example :
    ((parse_cpuset_cpus_effective cpus).parse_state ≡ ParseState.valid) ↔ IsCpuList cpus
cpuset_valid_iff_example = cpuset_valid_iff cpus

cpuset_IsCpuSetOf_example : IsCpuSetOf cpus (parse_cpuset_cpus_effective cpus)
cpuset_IsCpuSetOf_example = cpuset_IsCpuSetOf cpus cpus_valid

pair_valid : (parse_cpuset_cpus_effective (codes "1,7")).parse_state ≡ ParseState.valid
unfolding parse_cpuset_cpus_effective input_problem strip split parse_u64
pair_valid = refl

swapped_valid : (parse_cpuset_cpus_effective (codes "7,1\n")).parse_state ≡ ParseState.valid
unfolding parse_cpuset_cpus_effective input_problem strip split parse_u64
swapped_valid = refl

same-Names : (x : ℕ) → Names (codes "1,7") x ↔ Names (codes "7,1\n") x
unfolding strip split
same-Names x = ((λ h. ⊎-rotate h), (λ h. ⊎-rotate h))

cpuset_canonical_example :
    ((parse_cpuset_cpus_effective (codes "1,7")).intervals
      ≡ (parse_cpuset_cpus_effective (codes "7,1\n")).intervals)
    × ((parse_cpuset_cpus_effective (codes "1,7")).cpu_count
        ≡ (parse_cpuset_cpus_effective (codes "7,1\n")).cpu_count)
cpuset_canonical_example =
    cpuset_canonical (codes "1,7") (codes "7,1\n") pair_valid swapped_valid same-Names

parse_keyed_counters_iff_example :
    (parse_keyed_counters (codes "cpu.stat") (codes "nr_periods 7\n") cpu_stat_units
      ≡ counters_result
          (codes "cpu.stat")
          (codes "nr_periods 7\n")
          (counter_of cpu_stat_units (codes "nr_periods") (codes "7") 7 ∷ []))
    ↔ IsCounterFile cpu_stat_units
        (codes "nr_periods 7\n")
        (counter_of cpu_stat_units (codes "nr_periods") (codes "7") 7 ∷ [])
parse_keyed_counters_iff_example =
    parse_keyed_counters_iff (codes "cpu.stat") (codes "nr_periods 7\n") cpu_stat_units
      (counter_of cpu_stat_units (codes "nr_periods") (codes "7") 7 ∷ [])

cgroup_type_supported_iff_example :
    ((parse_cgroup_type (codes "domain\n")).layout_state ≡ LayoutState.supported_domain)
    ↔ IsDomain (codes "domain\n")
cgroup_type_supported_iff_example = cgroup_type_supported_iff (codes "domain\n")

memory_max_known : member (codes "memory.max") memory_keys ≡ true
unfolding member
memory_max_known = refl

memory_unlimited_example :
    (parse_resource_value (codes "memory.max") (codes "max")
      ≡ returns (unlimited_result (codes "memory.max") (codes "max")))
    ↔ (IsBounded (codes "max")
        × (text_eq (strip is_outer_space (codes "max")) max_token ≡ true)
        × (member (codes "memory.max") unlimited_memory_keys ≡ true))
memory_unlimited_example = memory_unlimited (codes "memory.max") (codes "max") memory_max_known
