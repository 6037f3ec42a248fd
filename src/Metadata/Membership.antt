-- ===== src/Metadata/Membership.antt =====
-- `parse_v2_membership` of Code/Tools/Linux_Cgroup_Metadata.py: the records of /proc/<pid>/cgroup.
pub mod Records
pub mod Contract
use sql_server_analyze.Common.{
  ℕ, zero, suc, ◌+◌, ◌-◌, ◌*◌, ◌/◌, ◌%◌, ◌^◌, ◌≤◌, ◌<◌, min, max, String, ◌≡◌, ◌≢◌, ◌↔◌, ◌⊎◌, inl,
  inr, refl, sym, ap, ◌∙◌, subst, ◌&&◌, ◌||◌, not, Bool, true, false, List, [], ◌∷◌, ◌++◌, map,
  reverse, append-nil, append_assoc, Option, none, some, arith, ◌==◌, ltb, leb, if◌then◌else◌,
  Bool-cases, &&_left, &&_right, ==→eq, ==_refl, pos→nonzero, nonzero→pos, ltb→lt, lt→ltb, leb→le,
  le→leb, length, length-append, get_elem?, take, drop, is_empty, any, all, select, All, Some,
  All-append, Some-append, Some-reverse, All-reverse, ⊎-map, ⊎-map_left, ⊎-comm, ⊎-assoc, ⊎-unassoc,
  ⊎-rotate,
}
use sql_server_analyze.Codes.{ParseState, ReasonCode}
use sql_server_analyze.Text.{Text, codes, contains, split, starts_with, ends_with, is_word, member}
use sql_server_analyze.U64.{parse_u64, to_decimal}
use sql_server_analyze.Metadata.Input.{input_problem, lines}
use sql_server_analyze.Metadata.Parsed.{Parsed, ok, reject, ◌>>=◌, ◌>>◌, guard, from_u64}

-- `layout_state`
pub data LayoutState : Type 0 where
  unverified hybrid v1_only v2_missing cgroup_v2 : LayoutState

pub record MembershipResult : Type 0 where
  pub parse_state : ParseState
  pub reason_code : ReasonCode
  pub record_count : Text
  pub record_ordinal : Option Text
  pub hierarchy_id : Option Text
  pub membership_path : Option Text
  pub layout_state : LayoutState
  pub issue_line_ordinals : List Text

-- `_membership_result` with its defaults.
abbrev pub result : ParseState → ReasonCode → Text → MembershipResult
result state reason count = record {
  parse_state = state;
  reason_code = reason;
  record_count = count;
  record_ordinal = none;
  hierarchy_id = none;
  membership_path = none;
  layout_state = LayoutState.unverified;
  issue_line_ordinals = [];
}

abbrev pub in_front : ℕ → Option (Text × Text) → Option (Text × Text)
in_front c none = none
in_front c (some (a, b)) = some (c ∷ a, b)

-- `text.find(sep)`: the text before the first `sep` and the text behind it.
unfoldable pub cut_at : ℕ → Text → Option (Text × Text)
cut_at sep [] = none
cut_at sep (c ∷ s) = let rest = in_front c (cut_at sep s) in if c == sep then some ([], s) else rest

abbrev pub parsed_cut : Option (Text × Text) → Parsed (Text × Text)
parsed_cut none = reject ReasonCode.malformed_record
parsed_cut (some p) = ok p

abbrev pub cut_or_malformed : ℕ → Text → Parsed (Text × Text)
cut_or_malformed sep s = parsed_cut (cut_at sep s)

-- `[A-Za-z0-9_.-]`
abbrev pub is_name_char : ℕ → Bool
is_name_char c = is_word c || (c == b'.') || (c == b'-')

-- `_NAMED_HIERARCHY.fullmatch(controller)`
abbrev pub is_named_hierarchy : Text → Bool
is_named_hierarchy s =
    starts_with (codes "name=") s && not (is_empty (drop 5 s)) && all is_name_char (drop 5 s)

-- `_CONTROLLERS.fullmatch(controller)`, or a named hierarchy.
pub is_controller : Text → Bool
is_controller s = (not (is_empty s) && all is_word s) || is_named_hierarchy s

abbrev pub dot_components : List Text
dot_components = codes "." ∷ codes ".." ∷ []

pub has_dot_component : Text → Bool
has_dot_component path = any (λ part. member part dot_components) (split b'/' path)

pub record MembershipRecord : Type 0 where
  pub hierarchy_id : ℕ
  pub controllers : List Text
  pub path : Text
  pub deleted : Bool

abbrev pub controllers_of : Text → List Text
controllers_of s = if is_empty s then [] else split b',' s

-- The checks on the three parts of a line, behind the cuts at its first two colons.
pub build_record : Text → Text → Text → Parsed MembershipRecord
unfolding is_controller has_dot_component
build_record hierarchy_text controllers_text path = do
  hierarchy ← from_u64 (parse_u64 hierarchy_text)
  guard (all is_controller (controllers_of controllers_text)) ReasonCode.malformed_record
  guard (not (is_empty (controllers_of controllers_text)) || (hierarchy == 0))
      ReasonCode.malformed_record
  guard (starts_with (codes "/") path) ReasonCode.invalid_path
  guard (not (has_dot_component path)) ReasonCode.invalid_path
  ok (record {
    hierarchy_id = hierarchy;
    controllers = controllers_of controllers_text;
    path = path;
    deleted = ends_with (codes " (deleted)") path;
  })

-- `_parse_membership_record`
unfoldable pub parse_membership_record : Text → Parsed MembershipRecord
unfolding build_record
parse_membership_record line = do
  guard (not (contains 0 line)) ReasonCode.invalid_token
  (hierarchy_text, behind) ← cut_or_malformed b':' line
  guard (not (is_empty hierarchy_text)) ReasonCode.malformed_record
  (controllers_text, path) ← cut_or_malformed b':' behind
  build_record hierarchy_text controllers_text path

-- What the loop over the lines has kept: records and malformed lines, each with its ordinal.
pub record Loop : Type 0 where
  pub records : List (ℕ × MembershipRecord)
  pub malformed : List (ℕ × ReasonCode)

abbrev pub keep : ℕ → Parsed MembershipRecord → Loop → Loop
keep ordinal (ok r) rest = record {
  records = (ordinal, r) ∷ rest.records;
  malformed = rest.malformed;
}
keep ordinal (reject reason) rest = record {
  records = rest.records;
  malformed = (ordinal, reason) ∷ rest.malformed;
}

-- The loop, from the lines that are left; blank lines are passed over.
pub read_lines : List (ℕ × Text) → Loop
read_lines [] = record { records = []; malformed = [] }
read_lines ((ordinal, line) ∷ ls) =
    let rest = read_lines ls in
    if is_empty line then rest else keep ordinal (parse_membership_record line) rest

-- A record of the unified hierarchy: id 0 and no controllers.
abbrev pub is_v2 : ℕ × MembershipRecord → Bool
is_v2 (ordinal, r) = (r.hierarchy_id == 0) && is_empty r.controllers

abbrev pub ordinals_of {ℓ} : {A : Type ℓ} → List (ℕ × A) → List Text
ordinals_of [] = []
ordinals_of ((ordinal, a) ∷ rest) = to_decimal ordinal ∷ ordinals_of rest

-- The one record of the unified hierarchy.
abbrev pub v2_result : Text → ℕ × MembershipRecord → MembershipResult
v2_result count (ordinal, r) =
    if r.deleted
    then record (result ParseState.deleted_record ReasonCode.membership_deleted count) {
      record_ordinal = some (to_decimal ordinal);
      hierarchy_id = some (to_decimal r.hierarchy_id);
      layout_state = LayoutState.cgroup_v2;
    }
    else record (result ParseState.valid ReasonCode.v2_membership_parsed count) {
      record_ordinal = some (to_decimal ordinal);
      hierarchy_id = some (to_decimal r.hierarchy_id);
      membership_path = some r.path;
      layout_state = LayoutState.cgroup_v2;
    }

-- The tests on `v2_records` and `legacy_records`, in the order of the source.
abbrev pub classify :
    Text → List (ℕ × MembershipRecord) → List (ℕ × MembershipRecord) → MembershipResult
classify count (a ∷ b ∷ v2) legacy =
    record (result ParseState.invalid_value ReasonCode.duplicate_v2_record count) {
      issue_line_ordinals = ordinals_of (a ∷ b ∷ v2);
    }
classify count (a ∷ []) (l ∷ legacy) =
    record (result ParseState.unsupported_layout ReasonCode.hybrid_layout count) {
      layout_state = LayoutState.hybrid;
    }
classify count [] (l ∷ legacy) =
    record (result ParseState.unsupported_layout ReasonCode.v1_only count) {
      layout_state = LayoutState.v1_only;
    }
classify count [] [] =
    record (result ParseState.missing_membership ReasonCode.v2_membership_missing count) {
      layout_state = LayoutState.v2_missing;
    }
classify count (a ∷ []) [] = v2_result count a

abbrev pub conclude : List (ℕ × MembershipRecord) → List (ℕ × ReasonCode) → MembershipResult
conclude records ((ordinal, reason) ∷ malformed) =
    record (result ParseState.invalid_value reason
      (to_decimal (length records + length ((ordinal, reason) ∷ malformed)))) {
        issue_line_ordinals = ordinals_of ((ordinal, reason) ∷ malformed);
      }
conclude records [] =
    classify (to_decimal (length records)) (select is_v2 records)
      (select (λ r. not (is_v2 r)) records)

abbrev pub checked : Text → Option (ParseState × ReasonCode) → MembershipResult
checked raw (some (state, reason)) = result state reason (codes "0")
checked raw none = let l = read_lines (lines raw) in conclude l.records l.malformed

unfoldable pub parse_v2_membership : Text → MembershipResult
unfolding read_lines parse_membership_record
parse_v2_membership raw = checked raw (input_problem raw)
