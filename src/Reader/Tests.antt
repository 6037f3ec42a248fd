-- ===== src/Reader/Tests.antt =====
-- The computing parts of the reader on concrete texts, and instances of the theorems.
use sql_server_analyze.Common.{
  ℕ, ◌≤◌, ◌<◌, ◌≡◌, ◌↔◌, refl, true, [], ◌∷◌, none, some, arith, get_elem?,
}
use sql_server_analyze.Codes.{ParseState, ReasonCode}
use sql_server_analyze.Text.{Text, codes, member, split, split_runs, lstrip, starts_with}
use sql_server_analyze.U64.{all_digits, int_from, normalized, to_decimal}
use sql_server_analyze.Metadata.Mountinfo.{Mount, MountinfoResult, SelectionState}
use sql_server_analyze.Reader.Tokens.{words, u64_token, pid_max}
use sql_server_analyze.Reader.Stat.{parse_process_stat}
use sql_server_analyze.Reader.Stat.RoundTrip.{stat_line, parse_process_stat-stat_line}
use sql_server_analyze.Reader.Mounts.{path_components, select_cgroup2_mount}
use sql_server_analyze.Reader.Mounts.Selection.{IsDeepestMount, select_cgroup2_mount-IsDeepestMount}
use sql_server_analyze.Reader.Issues.{Issue}
use sql_server_analyze.Reader.Pidfd.{
  parse_pidfd_info, split_lines, unicode_words, cli_pid, cli_pid_iff,
}

abbrev other_fields : Text
other_fields = codes " S 1 2 3 4 5 6 7 8 9 10 11 12 13 14 15 16 17 18 777 20"

start_field : get_elem? (words other_fields) 19 ≡ some (to_decimal 777)
unfolding words split_runs to_decimal
start_field = refl

parse_process_stat-stat_line_example :
    parse_process_stat (stat_line (to_decimal 42) (codes "a) (b") other_fields) 42
    ≡ some (to_decimal 42, to_decimal 777)
parse_process_stat-stat_line_example =
    parse_process_stat-stat_line 42 777 (codes "a) (b") other_fields (omega arith) (omega arith)
      refl start_field

found_in_status : parse_pidfd_info (codes "pos:\t0\nPid:\t42\n") 42 ≡ true
unfolding parse_pidfd_info split_lines unicode_words split_runs u64_token to_decimal normalized
    lstrip
found_in_status = refl

abbrev mount_at : ℕ → Text → Mount
mount_at id root = record {
  source_ordinal = id;
  mount_id = id;
  parent_id = 1;
  major = 0;
  minor = 26;
  root = root;
  mount_point = codes "/sys/fs/cgroup";
  mount_options = codes "rw" ∷ [];
  super_options = codes "rw" ∷ [];
  filesystem_type = codes "cgroup2";
}

abbrev two_mounts : MountinfoResult
two_mounts = record {
  parse_state = ParseState.valid;
  reason_code = ReasonCode.mountinfo_parsed;
  record_count = codes "2";
  mounts = some (mount_at 30 (codes "/") ∷ mount_at 31 (codes "/a") ∷ []);
  selection_state = SelectionState.not_selected;
  issue_line_ordinals = [];
}

deeper_selected : select_cgroup2_mount two_mounts (codes "/a/b") ≡ some (mount_at 31 (codes "/a"))
unfolding select_cgroup2_mount path_components starts_with split member
deeper_selected = refl

select_cgroup2_mount-IsDeepestMount_example :
    (select_cgroup2_mount two_mounts (codes "/a/b") ≡ some (mount_at 31 (codes "/a")))
    ↔ IsDeepestMount two_mounts (codes "/a/b") (mount_at 31 (codes "/a"))
select_cgroup2_mount-IsDeepestMount_example =
    select_cgroup2_mount-IsDeepestMount two_mounts (codes "/a/b") (mount_at 31 (codes "/a"))

abbrev exited : Issue
exited = record { scope = codes "CONTEXT"; reason_code = codes "PID_EXITED"; source_ordinal = none }

cli_pid_iff_example : (cli_pid (codes "0042") ≡ some 42) ↔ (
    (all_digits (codes "0042") ≡ true)
    × (int_from 0 (codes "0042") ≡ 42)
    × (0 < 42)
    × (42 ≤ pid_max))
cli_pid_iff_example = cli_pid_iff (codes "0042") 42
