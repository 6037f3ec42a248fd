-- ===== src/Metadata/Mountinfo.antt =====
-- `parse_cgroup2_mountinfo` of Code/Tools/Linux_Cgroup_Metadata.py: the records of mountinfo.
pub mod Distinct
pub mod Records
pub mod Contract
use sql_server_analyze.Common.{
  ℕ, zero, suc, ◌+◌, ◌-◌, ◌*◌, ◌/◌, ◌%◌, ◌^◌, ◌≤◌, ◌<◌, min, max, String, ◌≡◌, ◌≢◌, ◌↔◌, ◌⊎◌, inl,
  inr, refl, sym, ap, ◌∙◌, subst, ◌&&◌, ◌||◌, not, Bool, true, false, List, [], ◌∷◌, ◌++◌, map,
  reverse, append-nil, append_assoc, Option, none, some, arith, ◌==◌, ltb, leb, if◌then◌else◌,
  Bool-cases, &&_left, &&_right, ==→eq, ==_refl, pos→nonzero, nonzero→pos, ltb→lt, lt→ltb, leb→le,
  le→leb, length, length-append, get_elem?, take, drop, is_empty, any, all, select, All, Some,
  All-append, Some-append, Some-reverse, All-reverse, ⊎-map, ⊎-map_left, ⊎-comm, ⊎-assoc, ⊎-unassoc,
  ⊎-rotate,
}
use sql_server_analyze.Codes.{ParseState, ReasonCode}
use sql_server_analyze.Text.{
  Text, codes, text_eq, contains, split, split_runs, strip, starts_with, ends_with,
}
use sql_server_analyze.U64.{U64Result, number, failed, all_digits, parse_u64, to_decimal}
use sql_server_analyze.Metadata.Input.{input_problem, lines}
use sql_server_analyze.Metadata.Parsed.{Parsed, ok, reject, ◌>>=◌, ◌>>◌, guard, from_u64}
use sql_server_analyze.Metadata.Escape.{decode_mount_path}

-- The dictionary of one mount. The ids and the ordinal are numbers here, where the source keeps
-- their decimal numerals.
pub record Mount : Type 0 where
  pub source_ordinal : ℕ
  pub mount_id : ℕ
  pub parent_id : ℕ
  pub major : ℕ
  pub minor : ℕ
  pub root : Text
  pub mount_point : Text
  pub mount_options : List Text
  pub super_options : List Text
  pub filesystem_type : Text

-- `[ \t]`
abbrev pub is_blank_char : ℕ → Bool
is_blank_char c = (c == 32) || (c == 9)

abbrev pub dash : Text
dash = codes "-"

abbrev in_front : Text → Option (List Text × List Text) → Option (List Text × List Text)
in_front f none = none
in_front f (some (a, b)) = some (f ∷ a, b)

-- The fields before the first lone dash, and those behind it.
pub cut_at_dash : List Text → Option (List Text × List Text)
cut_at_dash [] = none
cut_at_dash (f ∷ fs) =
    let rest = in_front f (cut_at_dash fs) in if text_eq f dash then some ([], fs) else rest

-- `first or second` of two error reasons, and the two numbers when there is none.
abbrev pub both : U64Result → U64Result → Parsed (ℕ × ℕ)
both (failed r) second = reject r
both (number a) (failed r) = reject r
both (number a) (number b) = ok (a, b)

-- `re.fullmatch("([0-9]+):([0-9]+)", field)` and its two groups.
abbrev pub device_parts : List Text → Parsed (Text × Text)
device_parts (a ∷ b ∷ []) =
    if all_digits a && all_digits b then ok (a, b) else reject ReasonCode.invalid_id
device_parts _ = reject ReasonCode.invalid_id

-- `text.count(":")`
pub colons : Text → ℕ
colons [] = 0
colons (c ∷ s) = (if c == b':' then 1 else 0) + colons s

abbrev pub bad_optional : Text → Bool
bad_optional s = starts_with (codes ":") s || ends_with (codes ":") s || ltb 1 (colons s)

abbrev pub decoded : Option Text → Parsed Text
decoded none = reject ReasonCode.invalid_escape
decoded (some p) = ok p

-- The checks behind the split into fields: six fixed fields, the optional ones, and the three
-- behind the dash.
pub build_mount :
    ℕ → Text → Text → Text → Text → Text → Text → List Text → Text → Text → Parsed Mount
unfolding colons
build_mount ordinal id_text parent_text device root_text point_text options optional fs_type super =
    do
      (mount_id, parent_id) ← both (parse_u64 id_text) (parse_u64 parent_text)
      guard (not ((mount_id == 0) || (parent_id == 0))) ReasonCode.invalid_id
      (major_text, minor_text) ← device_parts (split b':' device)
      (major, minor) ← both (parse_u64 major_text) (parse_u64 minor_text)
      guard (not (any bad_optional optional)) ReasonCode.malformed_record
      root ← decoded (decode_mount_path root_text)
      mount_point ← decoded (decode_mount_path point_text)
      guard (not (contains 0 root || contains 0 mount_point)) ReasonCode.invalid_path
      guard (starts_with (codes "/") root && starts_with (codes "/") mount_point)
          ReasonCode.invalid_path
      guard (not (any is_empty (split b',' options ++ split b',' super)))
          ReasonCode.malformed_record
      ok (record {
        source_ordinal = ordinal;
        mount_id = mount_id;
        parent_id = parent_id;
        major = major;
        minor = minor;
        root = root;
        mount_point = mount_point;
        mount_options = split b',' options;
        super_options = split b',' super;
        filesystem_type = fs_type;
      })

abbrev pub behind_dash :
    ℕ → Text → Text → Text → Text → Text → Text → Option (List Text × List Text) → Parsed Mount
behind_dash n a b c d e f (some (optional, fs_type ∷ source ∷ super ∷ [])) =
    build_mount n a b c d e f optional fs_type super
behind_dash n a b c d e f _ = reject ReasonCode.malformed_record

-- `fields.index("-", 6)`: the dash is looked for behind the first six fields.
abbrev pub from_fields : ℕ → List Text → Parsed Mount
from_fields n (a ∷ b ∷ c ∷ d ∷ e ∷ f ∷ rest) = behind_dash n a b c d e f (cut_at_dash rest)
from_fields n _ = reject ReasonCode.malformed_record

abbrev pub first_empty : List Text → Bool
first_empty [] = true
first_empty (f ∷ fs) = is_empty f

-- `_parse_mountinfo_record`
unfoldable pub parse_mountinfo_record : Text → ℕ → Parsed Mount
unfolding cut_at_dash build_mount
parse_mountinfo_record line ordinal = do
  guard (not (contains 0 line)) ReasonCode.invalid_token
  let fields = split_runs is_blank_char (strip is_blank_char line)
  guard (not (first_empty fields)) ReasonCode.malformed_record
  from_fields ordinal fields

-- What the loop over the lines has kept.
pub record Loop : Type 0 where
  pub records : List Mount
  pub malformed : List (ℕ × ReasonCode)

abbrev pub keep : ℕ → Parsed Mount → Loop → Loop
keep ordinal (ok m) rest = record { records = m ∷ rest.records; malformed = rest.malformed }
keep ordinal (reject reason) rest = record {
  records = rest.records;
  malformed = (ordinal, reason) ∷ rest.malformed;
}

pub read_mounts : List (ℕ × Text) → Loop
read_mounts [] = record { records = []; malformed = [] }
read_mounts ((ordinal, line) ∷ ls) =
    keep ordinal (parse_mountinfo_record line ordinal) (read_mounts ls)

-- `by_id`: each mount id with the ordinals of its lines, in the order of insertion.
abbrev pub Groups : Type 0
Groups = List (ℕ × List ℕ)

-- `by_id.setdefault(mount_id, []).append(ordinal)`
pub add_ordinal : Groups → ℕ → ℕ → Groups
add_ordinal [] id ordinal = (id, ordinal ∷ []) ∷ []
add_ordinal ((k, os) ∷ gs) id ordinal =
    let rest = add_ordinal gs id ordinal in
    if k == id then (k, os ++ ordinal ∷ []) ∷ gs else (k, os) ∷ rest

pub group : Groups → List Mount → Groups
unfolding add_ordinal
group by_id [] = by_id
group by_id (m ∷ ms) = group (add_ordinal by_id m.mount_id m.source_ordinal) ms

-- `duplicate_lines`
pub duplicate_lines : Groups → List Text
duplicate_lines [] = []
duplicate_lines ((k, os) ∷ gs) =
    (if ltb 1 (length os) then map to_decimal os else []) ++ duplicate_lines gs

pub data SelectionState : Type 0 where
  not_selected empty_cgroup2_selection : SelectionState

-- The result; `path_binding_state` is `UNVERIFIED` in every result and has no field.
pub record MountinfoResult : Type 0 where
  pub parse_state : ParseState
  pub reason_code : ReasonCode
  pub record_count : Text
  pub mounts : Option (List Mount)
  pub selection_state : SelectionState
  pub issue_line_ordinals : List Text

-- `_mountinfo_result` with its defaults.
abbrev pub result : ParseState → ReasonCode → Text → MountinfoResult
result state reason count = record {
  parse_state = state;
  reason_code = reason;
  record_count = count;
  mounts = none;
  selection_state = SelectionState.not_selected;
  issue_line_ordinals = [];
}

abbrev pub is_cgroup2 : Mount → Bool
is_cgroup2 m = text_eq m.filesystem_type (codes "cgroup2")

abbrev pub mounts_result : Text → List Mount → MountinfoResult
mounts_result count [] = record (result ParseState.valid ReasonCode.no_cgroup2_mounts count) {
  mounts = some [];
  selection_state = SelectionState.empty_cgroup2_selection;
}
mounts_result count (m ∷ ms) = record (result ParseState.valid ReasonCode.mountinfo_parsed count) {
  mounts = some (m ∷ ms);
}

abbrev pub without_duplicates : Text → List Mount → List Text → MountinfoResult
without_duplicates count records (o ∷ os) =
    record (result ParseState.invalid_value ReasonCode.duplicate_mount_id count) {
      issue_line_ordinals = o ∷ os;
    }
without_duplicates count records [] = mounts_result count (select is_cgroup2 records)

abbrev pub malformed_ordinals : List (ℕ × ReasonCode) → List Text
malformed_ordinals [] = []
malformed_ordinals ((ordinal, reason) ∷ ms) = to_decimal ordinal ∷ malformed_ordinals ms

abbrev pub conclude : List Mount → List (ℕ × ReasonCode) → MountinfoResult
conclude records ((ordinal, reason) ∷ malformed) =
    record (result ParseState.invalid_value reason
      (to_decimal (length records + length ((ordinal, reason) ∷ malformed)))) {
        issue_line_ordinals = malformed_ordinals ((ordinal, reason) ∷ malformed);
      }
conclude records [] =
    without_duplicates (to_decimal (length records)) records (duplicate_lines (group [] records))

abbrev pub checked : Text → Option (ParseState × ReasonCode) → MountinfoResult
checked raw (some (state, reason)) = result state reason (codes "0")
checked raw none = let l = read_mounts (lines raw) in conclude l.records l.malformed

unfoldable pub parse_cgroup2_mountinfo : Text → MountinfoResult
unfolding read_mounts parse_mountinfo_record group duplicate_lines
parse_cgroup2_mountinfo raw = checked raw (input_problem raw)
