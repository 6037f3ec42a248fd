-- ===== src/Reader/Stat.antt =====
-- `_parse_process_stat` of Code/Tools/Linux_Cgroup_Reader.py; bytes are numbers.
pub mod RoundTrip
use sql_server_analyze.Common.{
  ℕ, zero, suc, ◌+◌, ◌-◌, ◌*◌, ◌/◌, ◌%◌, ◌^◌, ◌≤◌, ◌<◌, min, max, String, ◌≡◌, ◌≢◌, ◌↔◌, ◌⊎◌, inl,
  inr, refl, sym, ap, ◌∙◌, subst, ◌&&◌, ◌||◌, not, Bool, true, false, List, [], ◌∷◌, ◌++◌, map,
  reverse, append-nil, append_assoc, Option, none, some, arith, ◌==◌, ltb, leb, if◌then◌else◌,
  Bool-cases, &&_left, &&_right, ==→eq, ==_refl, pos→nonzero, nonzero→pos, ltb→lt, lt→ltb, leb→le,
  le→leb, length, length-append, get_elem?, take, drop, is_empty, any, all, select, All, Some,
  All-append, Some-append, Some-reverse, All-reverse, ⊎-map, ⊎-map_left, ⊎-comm, ⊎-assoc, ⊎-unassoc,
  ⊎-rotate,
}
use sql_server_analyze.Text.{Text, text_eq}
use sql_server_analyze.U64.{u64_max, to_decimal}
use sql_server_analyze.Reader.Tokens.{pid_max, u64_token, find, rfind, find_from, words}

-- The process id and the start time.
abbrev pub Stat : Type 0
Stat = Text × Text

-- `_u64_token(fields[19])`
abbrev pub start_of : Option Text → Option Text
start_of none = none
start_of (some field) = u64_token field u64_max

-- The tests on the two numbers.
abbrev pub matched : Text → Option Text → ℕ → Option Stat
matched pid none target = none
matched pid (some start) target =
    if text_eq pid (to_decimal target) then some (pid, start) else none

abbrev pub from_fields : Option Text → List Text → ℕ → Option Stat
from_fields none fields target = none
from_fields (some pid) fields target =
    if ltb (length fields) 20 then none else matched pid (start_of (get_elem? fields 19)) target

-- `raw.find(b"(", first_space + 1 if first_space >= 0 else 0)`
pub open_paren : Option ℕ → Text → Option ℕ
open_paren none raw = find b'(' raw
open_paren (some first_space) raw = find_from b'(' (suc first_space) raw

-- The tests on the three places, and what stands before and behind them.
pub at_places : Text → ℕ → Option ℕ → Option ℕ → Option ℕ → Option Stat
unfolding u64_token words
at_places raw target (some first_space) (some opened) (some close) =
    if (first_space == 0) || leb opened first_space || leb close opened
    then none
    else from_fields (u64_token (take first_space raw) pid_max) (words (drop (suc close) raw))
        target
at_places raw target _ _ _ = none

unfoldable pub parse_process_stat : Text → ℕ → Option Stat
unfolding at_places open_paren find rfind
parse_process_stat raw target =
    at_places raw target (find 32 raw) (open_paren (find 32 raw) raw) (rfind b')' raw)
