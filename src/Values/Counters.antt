-- ===== src/Values/Counters.antt =====
-- `_parse_keyed_counters` of Code/Tools/Linux_Cgroup_Values.py, with its two callers
-- `parse_memory_events` and `parse_cpu_stat`.
pub mod Entries
pub mod Contract
use sql_server_analyze.Common.{
  ℕ, zero, suc, ◌+◌, ◌-◌, ◌*◌, ◌/◌, ◌%◌, ◌^◌, ◌≤◌, ◌<◌, min, max, String, ◌≡◌, ◌≢◌, ◌↔◌, ◌⊎◌, inl,
  inr, refl, sym, ap, ◌∙◌, subst, ◌&&◌, ◌||◌, not, Bool, true, false, List, [], ◌∷◌, ◌++◌, map,
  reverse, append-nil, append_assoc, Option, none, some, arith, ◌==◌, ltb, leb, if◌then◌else◌,
  Bool-cases, &&_left, &&_right, ==→eq, ==_refl, pos→nonzero, nonzero→pos, ltb→lt, lt→ltb, leb→le,
  le→leb, length, length-append, get_elem?, take, drop, is_empty, any, all, select, All, Some,
  All-append, Some-append, Some-reverse, All-reverse, ⊎-map, ⊎-map_left, ⊎-comm, ⊎-assoc, ⊎-unassoc,
  ⊎-rotate,
}
use sql_server_analyze.Codes.{ParseState, ReasonCode}
use sql_server_analyze.Text.{
  Text, codes, text_eq, contains, member, strip, split, split_runs, is_outer_space, is_word,
}
use sql_server_analyze.U64.{U64Result, number, failed, parse_u64, to_decimal}
use sql_server_analyze.Values.Input.{input_problem}

pub data KeyState : Type 0 where
  mapped unmapped_key : KeyState

-- The dictionary of one counter.
pub record Counter : Type 0 where
  pub key : Text
  pub value : Text
  pub raw_value : Text
  pub key_state : KeyState
  pub unit : Option Text

-- `event_scope` stands in the results of `memory.events` alone.
pub data EventScope : Type 0 where
  absent unverified : EventScope

pub record CountersResult : Type 0 where
  pub source_key : Text
  pub raw_value : Text
  pub parse_state : ParseState
  pub reason_code : ReasonCode
  pub counters : Option (List Counter)
  pub event_scope : EventScope

abbrev pub memory_events : Text
memory_events = codes "memory.events"

abbrev pub scope_of : Text → EventScope
scope_of key = if text_eq key memory_events then EventScope.unverified else EventScope.absent

-- `known_units.get(key)`
abbrev pub Units : Type 0
Units = List (Text × Text)

pub unit_of : Units → Text → Option Text
unit_of [] key = none
unit_of ((k, u) ∷ units) key = if text_eq k key then some u else unit_of units key

abbrev pub key_state_of : Option Text → KeyState
key_state_of none = KeyState.unmapped_key
key_state_of (some u) = KeyState.mapped

abbrev pub counter_of : Units → Text → Text → ℕ → Counter
counter_of units key numeric n = record {
  key = key;
  value = to_decimal n;
  raw_value = numeric;
  key_state = key_state_of (unit_of units key);
  unit = unit_of units key;
}

-- What one round of the loop does with its line.
pub data LineResult : Type 0 where
  skipped : LineResult
  counted : Counter → LineResult
  refused : ReasonCode → LineResult

-- `line.strip(" \t\r")`
abbrev pub is_line_space : ℕ → Bool
is_line_space c = (c == 32) || (c == 9) || (c == 13)

-- `_ASCII_COUNTER_KEY.fullmatch(key)`
abbrev pub is_counter_key : Text → Bool
is_counter_key key = not (is_empty key) && all is_word key

abbrev pub line_value : Units → Text → Text → U64Result → LineResult
line_value units key numeric (failed reason) = refused reason
line_value units key numeric (number n) = counted (counter_of units key numeric n)

abbrev pub line_tokens : Units → List Text → List Text → LineResult
line_tokens units seen (key ∷ numeric ∷ []) =
    if not (is_counter_key key)
    then refused ReasonCode.invalid_token
    else if member key seen
    then refused ReasonCode.duplicate_key
    else line_value units key numeric (parse_u64 numeric)
line_tokens units seen _ = refused ReasonCode.invalid_format

pub parse_line : Units → List Text → Text → LineResult
parse_line units seen line =
    if is_empty (strip is_line_space line)
    then skipped
    else line_tokens units seen (split_runs is_outer_space (strip is_line_space line))

-- The counters of the remaining lines, or the reason of the first error.
pub data LoopResult : Type 0 where
  collected : List Counter → LoopResult
  stopped : ReasonCode → LoopResult

abbrev pub add_counter : Counter → LoopResult → LoopResult
add_counter c (collected cs) = collected (c ∷ cs)
add_counter c (stopped reason) = stopped reason

pub parse_lines : Units → List Text → List Text → LoopResult
unfolding parse_line
parse_lines units seen [] = collected []
parse_lines units seen (line ∷ lines) = elim (parse_line units seen line) [
  | skipped ↦ parse_lines units seen lines
  | counted c ↦ add_counter c (parse_lines units (c.key ∷ seen) lines)
  | refused reason ↦ stopped reason
]

abbrev pub without_counters : Text → Text → ParseState → ReasonCode → CountersResult
without_counters key raw state reason = record {
  source_key = key;
  raw_value = raw;
  parse_state = state;
  reason_code = reason;
  counters = none;
  event_scope = scope_of key;
}

abbrev pub finish : Text → Text → LoopResult → CountersResult
finish key raw (stopped reason) = without_counters key raw ParseState.invalid_value reason
finish key raw (collected cs) =
    record (without_counters key raw ParseState.valid ReasonCode.counters_parsed) {
      counters = some cs;
    }

abbrev pub checked : Text → Text → Units → Option (ParseState × ReasonCode) → CountersResult
checked key raw units (some (state, reason)) = without_counters key raw state reason
checked key raw units none =
    if contains 0 raw
    then without_counters key raw ParseState.invalid_value ReasonCode.invalid_token
    else finish key raw (parse_lines units [] (split 10 raw))

pub parse_keyed_counters : Text → Text → Units → CountersResult
unfolding parse_lines unit_of
parse_keyed_counters key raw units = checked key raw units (input_problem raw)

-- `{key: "events" for key in _MEMORY_EVENT_KEYS}`
abbrev pub memory_event_units : Units
memory_event_units =
    map (λ key. (key, codes "events"))
      (codes "low"
        ∷ codes "high"
        ∷ codes "max"
        ∷ codes "oom"
        ∷ codes "oom_kill"
        ∷ codes "oom_group_kill"
        ∷ codes "sock_throttled"
        ∷ [])

-- `_CPU_STAT_UNITS`
abbrev pub cpu_stat_units : Units
cpu_stat_units =
    (codes "usage_usec", codes "microseconds")
    ∷ (codes "user_usec", codes "microseconds")
    ∷ (codes "system_usec", codes "microseconds")
    ∷ (codes "throttled_usec", codes "microseconds")
    ∷ (codes "burst_usec", codes "microseconds")
    ∷ (codes "nr_periods", codes "count")
    ∷ (codes "nr_throttled", codes "count")
    ∷ (codes "nr_bursts", codes "count")
    ∷ []

unfoldable pub parse_memory_events : Text → CountersResult
unfolding parse_keyed_counters
parse_memory_events raw = parse_keyed_counters memory_events raw memory_event_units

unfoldable pub parse_cpu_stat : Text → CountersResult
unfolding parse_keyed_counters
parse_cpu_stat raw = parse_keyed_counters (codes "cpu.stat") raw cpu_stat_units
