-- ===== src/Values/Input.antt =====
-- `_input_problem` of Code/Tools/Linux_Cgroup_Values.py: the bound on the size of a text, checked
-- before any parser looks at it.
use sql_server_analyze.Common.{
  ℕ, ◌+◌, ◌*◌, ◌≤◌, ◌≡◌, ◌≢◌, ◌&&◌, Bool, false, [], ◌∷◌, Option, none, some, arith, ltb, leb,
  if◌then◌else◌, any,
}
use sql_server_analyze.Codes.{ParseState, ReasonCode}
use sql_server_analyze.Text.{Text}

-- `_MAX_INPUT_BYTES`
abbrev pub max_input_bytes : ℕ
max_input_bytes = 64 * 1024

-- A code point that UTF-8 cannot encode.
abbrev pub is_surrogate : ℕ → Bool
is_surrogate c = leb 0xD800 c && leb c 0xDFFF

-- The bytes of one code point in UTF-8.
unfoldable pub utf8_width : ℕ → ℕ
utf8_width c = if leb c 0x7F then 1 else if leb c 0x7FF then 2 else if leb c 0xFFFF then 3 else 4

-- `len(raw_value.encode("utf-8"))`
unfoldable pub utf8_size : Text → ℕ
unfolding utf8_width
utf8_size [] = 0
utf8_size (c ∷ s) = utf8_width c + utf8_size s

unfoldable pub input_problem : Text → Option (ParseState × ReasonCode)
unfolding utf8_size
input_problem s =
    if any is_surrogate s
    then some (ParseState.invalid_value, ReasonCode.non_utf8_text)
    else if ltb max_input_bytes (utf8_size s)
    then some (ParseState.limit_reached, ReasonCode.input_too_large)
    else none

-- The texts that pass the check.
pub record IsBounded (s : Text) : Type 0 where
  pub encodable : any is_surrogate s ≡ false
  pub short : utf8_size s ≤ max_input_bytes

pub input_problem-none : (s : Text) → IsBounded s → input_problem s ≡ none
unfolding input_problem
input_problem-none s b = ground arith

pub input_problem-IsBounded : (s : Text) → input_problem s ≡ none → IsBounded s
unfolding input_problem
input_problem-IsBounded s h = ground arith

-- What a problem reports is never the state of a parsed value.
pub input_problem-ne-valid :
    (s : Text) (p : ParseState) (r : ReasonCode)
    → input_problem s ≡ some (p, r)
    → p ≢ ParseState.valid
unfolding input_problem
input_problem-ne-valid s p r h = ground arith
