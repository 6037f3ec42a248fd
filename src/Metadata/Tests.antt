-- ===== src/Metadata/Tests.antt =====
-- The metadata parsers on concrete files, and instances of the theorems.
use sql_server_analyze.Common.{ℕ, ◌≡◌, ◌↔◌, refl, false, List, [], ◌∷◌, none, some}
use sql_server_analyze.Codes.{ParseState, ReasonCode}
use sql_server_analyze.Text.{Text, codes, starts_with, ends_with, split, split_runs, strip, member}
use sql_server_analyze.U64.{parse_u64}
use sql_server_analyze.Metadata.Input.{IsBounded, input_problem, input_problem-none_iff, lines}
use sql_server_analyze.Metadata.Parsed.{ok}
use sql_server_analyze.Metadata.Membership.{
  MembershipRecord, parse_v2_membership, parse_membership_record, cut_at,
}
use sql_server_analyze.Metadata.Membership.Records.{IsRecordOf, parse_membership_record-IsRecordOf}
use sql_server_analyze.Metadata.Membership.Contract.{
  IsV2Only, membership_valid_iff, IsSafeMembership, membership_IsSafe,
}
use sql_server_analyze.Metadata.Escape.{
  decode_mount_path, escape_path, decode_mount_path-escape_path,
}
use sql_server_analyze.Metadata.Mountinfo.{Mount, parse_cgroup2_mountinfo, parse_mountinfo_record}
use sql_server_analyze.Metadata.Mountinfo.Contract.{
  IsMountinfo, IsCgroup2Listing, mountinfo_IsCgroup2Listing, parse_cgroup2_mountinfo-valid_iff,
}
use sql_server_analyze.Metadata.Mountinfo.Records.{
  IsWellFormed, parse_mountinfo_record-IsWellFormed,
}

abbrev membership : Text
membership = codes "0::/system.slice/sql.service\n"

membership_valid : (parse_v2_membership membership).parse_state ≡ ParseState.valid
unfolding parse_v2_membership input_problem lines split cut_at parse_u64 starts_with ends_with
    member
membership_valid = refl

membership_path :
    (parse_v2_membership membership).membership_path ≡ some (codes "/system.slice/sql.service")
unfolding parse_v2_membership input_problem lines split cut_at parse_u64 starts_with ends_with
    member
membership_path = refl

hybrid : (parse_v2_membership (codes "4:memory:/a\n0::/a\n")).reason_code ≡ ReasonCode.hybrid_layout
unfolding parse_v2_membership input_problem lines split cut_at parse_u64 starts_with ends_with
    member
hybrid = refl

deleted : (parse_v2_membership (codes "0::/a (deleted)")).parse_state ≡ ParseState.deleted_record
unfolding parse_v2_membership input_problem lines split cut_at parse_u64 starts_with ends_with
    member
deleted = refl

escaping_path : (parse_v2_membership (codes "0::/a/../b")).reason_code ≡ ReasonCode.invalid_path
unfolding parse_v2_membership input_problem lines split cut_at parse_u64 starts_with ends_with
    member
escaping_path = refl

abbrev mount_line : Text
mount_line = codes "31 24 0:27 / /sys/fs/cg\\040roup rw,nosuid shared:9 - cgroup2 cgroup2 rw"

abbrev the_mount : Mount
the_mount = record {
  source_ordinal = 1;
  mount_id = 31;
  parent_id = 24;
  major = 0;
  minor = 27;
  root = codes "/";
  mount_point = codes "/sys/fs/cg roup";
  mount_options = codes "rw" ∷ codes "nosuid" ∷ [];
  super_options = codes "rw" ∷ [];
  filesystem_type = codes "cgroup2";
}

mount_read : parse_mountinfo_record mount_line 1 ≡ ok the_mount
unfolding parse_mountinfo_record split split_runs strip parse_u64 starts_with ends_with
    decode_mount_path
mount_read = refl

mount_valid : (parse_cgroup2_mountinfo mount_line).parse_state ≡ ParseState.valid
unfolding parse_cgroup2_mountinfo input_problem lines split split_runs strip parse_u64 starts_with
    ends_with decode_mount_path
mount_valid = refl

duplicate_id :
    (parse_cgroup2_mountinfo
      (codes "3 1 0:1 / /a rw - x y z\n3 1 0:1 / /b rw - x y z\n")).reason_code
    ≡ ReasonCode.duplicate_mount_id
unfolding parse_cgroup2_mountinfo input_problem lines split split_runs strip parse_u64 starts_with
    ends_with decode_mount_path
duplicate_id = refl

-- Instances.
input_problem-none_iff_example : (input_problem membership ≡ none) ↔ IsBounded membership
input_problem-none_iff_example = input_problem-none_iff membership

abbrev record_line : Text
record_line = codes "0::/a"

record_read :
    parse_membership_record record_line
    ≡ ok (record { hierarchy_id = 0; controllers = []; path = codes "/a"; deleted = false })
unfolding parse_membership_record split cut_at parse_u64 starts_with ends_with member
record_read = refl

parse_membership_record-IsRecordOf_example :
    IsRecordOf record_line
      (record { hierarchy_id = 0; controllers = []; path = codes "/a"; deleted = false })
parse_membership_record-IsRecordOf_example =
    parse_membership_record-IsRecordOf record_line
      (record { hierarchy_id = 0; controllers = []; path = codes "/a"; deleted = false })
      record_read

membership_valid_iff_example :
    ((parse_v2_membership membership).parse_state ≡ ParseState.valid)
    ↔ ((o : ℕ) × (r : MembershipRecord) × IsV2Only membership o r)
membership_valid_iff_example = membership_valid_iff membership

membership_IsSafe_example : IsSafeMembership membership (parse_v2_membership membership)
membership_IsSafe_example = membership_IsSafe membership membership_valid

decode_mount_path-escape_path_example :
    decode_mount_path (escape_path (codes "/a b\\c")) ≡ some (codes "/a b\\c")
decode_mount_path-escape_path_example = decode_mount_path-escape_path (codes "/a b\\c")

mountinfo_IsCgroup2Listing_example :
    IsCgroup2Listing mount_line (parse_cgroup2_mountinfo mount_line)
mountinfo_IsCgroup2Listing_example = mountinfo_IsCgroup2Listing mount_line mount_valid

parse_cgroup2_mountinfo-valid_iff_example :
    ((parse_cgroup2_mountinfo mount_line).parse_state ≡ ParseState.valid)
    ↔ ((ms : List Mount) × IsMountinfo mount_line ms)
parse_cgroup2_mountinfo-valid_iff_example = parse_cgroup2_mountinfo-valid_iff mount_line

parse_mountinfo_record-IsWellFormed_example : IsWellFormed the_mount
parse_mountinfo_record-IsWellFormed_example =
    parse_mountinfo_record-IsWellFormed mount_line 1 the_mount mount_read
