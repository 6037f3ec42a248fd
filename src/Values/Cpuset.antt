-- ===== src/Values/Cpuset.antt =====
-- `parse_cpuset_cpus_effective` of Code/Tools/Linux_Cgroup_Values.py: a list of CPU numbers and
-- ranges, sorted and compacted without expanding the ranges.
pub mod Sorting
pub mod Merging
pub mod Counting
pub mod Canonical
pub mod Items
pub mod Parsing
pub mod Effective
use sql_server_analyze.Common.{
  ℕ, zero, suc, ◌+◌, ◌-◌, ◌*◌, ◌/◌, ◌%◌, ◌^◌, ◌≤◌, ◌<◌, min, max, String, ◌≡◌, ◌≢◌, ◌↔◌, ◌⊎◌, inl,
  inr, refl, sym, ap, ◌∙◌, subst, ◌&&◌, ◌||◌, not, Bool, true, false, List, [], ◌∷◌, ◌++◌, map,
  reverse, append-nil, append_assoc, Option, none, some, arith, ◌==◌, ltb, leb, if◌then◌else◌,
  Bool-cases, &&_left, &&_right, ==→eq, ==_refl, pos→nonzero, nonzero→pos, ltb→lt, lt→ltb, leb→le,
  le→leb, length, length-append, get_elem?, take, drop, is_empty, any, all, select, All, Some,
  All-append, Some-append, Some-reverse, All-reverse, ⊎-map, ⊎-map_left, ⊎-comm, ⊎-assoc, ⊎-unassoc,
  ⊎-rotate,
}
use sql_server_analyze.Codes.{ParseState, ReasonCode}
use sql_server_analyze.Text.{Text, contains, strip, split, is_outer_space}
use sql_server_analyze.U64.{U64Result, number, failed, all_digits, parse_u64, to_decimal}
use sql_server_analyze.Values.Input.{input_problem}

-- `_U31_MAX`
abbrev pub u31_max : ℕ
u31_max = 2147483647

-- `(start, end)`, both ends included.
abbrev pub Interval : Type 0
Interval = ℕ × ℕ

pub record CpusetResult : Type 0 where
  pub raw_value : Text
  pub parse_state : ParseState
  pub reason_code : ReasonCode
  pub intervals : Option (List (Text × Text))
  pub cpu_count : Option Text

-- `_cpuset_error`
abbrev pub cpuset_error : Text → ParseState → ReasonCode → CpusetResult
cpuset_error raw state reason = record {
  raw_value = raw;
  parse_state = state;
  reason_code = reason;
  intervals = none;
  cpu_count = none;
}

-- `_ASCII_ID_OR_RANGE.fullmatch(item)` and its two groups: digits, or digits, a dash and digits.
abbrev pub match_parts : List Text → Option (Text × Option Text)
match_parts (first ∷ []) = if all_digits first then some (first, none) else none
match_parts (first ∷ second ∷ []) =
    if all_digits first && all_digits second then some (first, some second) else none
match_parts _ = none

pub match_range : Text → Option (Text × Option Text)
match_range item = match_parts (split b'-' item)

-- One round of the loop over the items gives an interval, or returns an error.
pub data ItemResult : Type 0 where
  interval : Interval → ItemResult
  refused : ReasonCode → ItemResult

pub check_range : ℕ → ℕ → ItemResult
check_range first second =
    if ltb u31_max first || ltb u31_max second
    then refused ReasonCode.out_of_range
    else if ltb second first
    then refused ReasonCode.invalid_range
    else interval (first, second)

abbrev item_numbers : U64Result → U64Result → ItemResult
item_numbers (failed reason) second = refused reason
item_numbers (number first) (failed reason) = refused reason
item_numbers (number first) (number second) = check_range first second

abbrev item_groups : Option (Text × Option Text) → ItemResult
item_groups none = refused ReasonCode.invalid_format
item_groups (some (first, none)) = item_numbers (parse_u64 first) (parse_u64 first)
item_groups (some (first, some second)) = item_numbers (parse_u64 first) (parse_u64 second)

pub parse_item : Text → ItemResult
unfolding check_range
parse_item item = item_groups (match_range item)

-- The intervals that the loop collects, or the reason of its first error.
pub data ItemsResult : Type 0 where
  collected : List Interval → ItemsResult
  stopped : ReasonCode → ItemsResult

abbrev add_item : ItemResult → ItemsResult → ItemsResult
add_item (refused reason) rest = stopped reason
add_item (interval i) (stopped reason) = stopped reason
add_item (interval i) (collected is) = collected (i ∷ is)

pub parse_items : List Text → ItemsResult
parse_items [] = collected []
parse_items (item ∷ items) = add_item (parse_item item) (parse_items items)

-- The order of `(start, end)` tuples.
pub interval_le : Interval → Interval → Bool
interval_le (a, b) (c, d) = ltb a c || ((a == c) && leb b d)

pub insert_interval : Interval → List Interval → List Interval
insert_interval i [] = i ∷ []
insert_interval i (j ∷ js) =
    let rest = insert_interval i js in if interval_le i j then i ∷ j ∷ js else j ∷ rest

-- `intervals.sort()`
pub sort : List Interval → List Interval
unfolding insert_interval interval_le
sort [] = []
sort (i ∷ is) = insert_interval i (sort is)

-- One round of the merging loop; the list holds `merged` with its last interval first.
pub merge_step : List Interval → Interval → List Interval
merge_step [] i = i ∷ []
merge_step ((previous_start, previous_end) ∷ merged) (start, end) =
    if leb start (previous_end + 1)
    then (previous_start, max previous_end end) ∷ merged
    else (start, end) ∷ (previous_start, previous_end) ∷ merged

pub merge_loop : List Interval → List Interval → List Interval
unfolding merge_step
merge_loop merged [] = merged
merge_loop merged (i ∷ is) = merge_loop (merge_step merged i) is

pub merge : List Interval → List Interval
unfolding merge_loop
merge is = reverse (merge_loop [] is)

-- `sum(end - start + 1 for start, end in merged)`
pub cpu_count_of : List Interval → ℕ
cpu_count_of [] = 0
cpu_count_of ((start, end) ∷ is) = (end - start + 1) + cpu_count_of is

abbrev pub text_interval : Interval → Text × Text
text_interval (start, end) = (to_decimal start, to_decimal end)

abbrev pub valid_result : Text → List Interval → CpusetResult
valid_result raw merged = record {
  raw_value = raw;
  parse_state = ParseState.valid;
  reason_code = ReasonCode.finite_value;
  intervals = some (map text_interval merged);
  cpu_count = some (to_decimal (cpu_count_of merged));
}

abbrev pub finish : Text → ItemsResult → CpusetResult
finish raw (stopped reason) = cpuset_error raw ParseState.invalid_value reason
finish raw (collected is) = valid_result raw (merge (sort is))

abbrev pub empty_result : Text → CpusetResult
empty_result raw = record {
  raw_value = raw;
  parse_state = ParseState.empty_observation;
  reason_code = ReasonCode.empty_observation;
  intervals = some [];
  cpu_count = none;
}

abbrev pub items_of : Text → List Text
items_of raw = split b',' (strip is_outer_space raw)

abbrev pub checked : Text → Option (ParseState × ReasonCode) → CpusetResult
checked raw (some (state, reason)) = cpuset_error raw state reason
checked raw none =
    if contains 0 raw
    then cpuset_error raw ParseState.invalid_value ReasonCode.invalid_token
    else if is_empty (strip is_outer_space raw)
    then empty_result raw
    else finish raw (parse_items (items_of raw))

unfoldable pub parse_cpuset_cpus_effective : Text → CpusetResult
unfolding parse_items parse_item match_range sort merge cpu_count_of
parse_cpuset_cpus_effective raw = checked raw (input_problem raw)
