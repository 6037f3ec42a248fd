-- ===== src/Metadata/Input.antt =====
-- `_input_problem` and `_lines` of Code/Tools/Linux_Cgroup_Metadata.py.
use sql_server_analyze.Common.{
  ℕ, ◌+◌, ◌*◌, ◌≤◌, ◌≡◌, ◌≢◌, ◌↔◌, refl, false, List, [], ◌∷◌, Option, none, some, arith, ltb,
  if◌then◌else◌, is_empty, any,
}
use sql_server_analyze.Codes.{ParseState, ReasonCode}
use sql_server_analyze.Text.{Text, split}
use sql_server_analyze.Values.Input.{is_surrogate, utf8_width, utf8_size}

-- `_MAX_INPUT_BYTES`
abbrev pub max_input_bytes : ℕ
max_input_bytes = 512 * 1024

-- The loop over the characters, with the bytes so far.
scan_input : Text → ℕ → Option (ParseState × ReasonCode)
scan_input [] size = none
scan_input (c ∷ s) size =
    if is_surrogate c
    then some (ParseState.invalid_value, ReasonCode.non_utf8_text)
    else if ltb max_input_bytes (size + utf8_width c)
    then some (ParseState.limit_reached, ReasonCode.input_too_large)
    else scan_input s (size + utf8_width c)

unfoldable pub input_problem : Text → Option (ParseState × ReasonCode)
unfolding scan_input utf8_width
input_problem s = scan_input s 0

-- The texts that pass.
pub record IsBounded (s : Text) : Type 0 where
  pub encodable : any is_surrogate s ≡ false
  pub short : utf8_size s ≤ max_input_bytes

scan_input-none :
    (s : Text) (size : ℕ)
    → any is_surrogate s ≡ false
    → size + utf8_size s ≤ max_input_bytes
    → scan_input s size ≡ none
unfolding scan_input utf8_size
scan_input-none [] size a h = refl
scan_input-none (c ∷ s) size a h = ground (arith, scan_input-none s (size + utf8_width c))

scan_input_bounded :
    (s : Text) (size : ℕ)
    → size ≤ max_input_bytes
    → scan_input s size ≡ none
    → (any is_surrogate s ≡ false) × (size + utf8_size s ≤ max_input_bytes)
unfolding scan_input utf8_size
scan_input_bounded [] size h e = (refl, omega arith)
scan_input_bounded (c ∷ s) size h e = ground (arith, scan_input_bounded s (size + utf8_width c))

-- The running check passes exactly the texts that can be encoded and whose encoding is short.
pub input_problem-none_iff : (s : Text) → (input_problem s ≡ none) ↔ IsBounded s
unfolding input_problem
input_problem-none_iff s = (pass, λ b. scan_input-none s 0 b.encodable (omega (arith, b.short)))
  where
    pass : scan_input s 0 ≡ none → IsBounded s
    pass e =
        let (a, b) = scan_input_bounded s 0 (omega arith) e in
        record { encodable = a; short = omega arith }

scan_input-ne-valid :
    (s : Text) (size : ℕ) (p : ParseState) (r : ReasonCode)
    → scan_input s size ≡ some (p, r)
    → p ≢ ParseState.valid
unfolding scan_input
scan_input-ne-valid [] size p r e = cc
scan_input-ne-valid (c ∷ s) size p r e =
    ground (arith, scan_input-ne-valid s (size + utf8_width c) p r)

pub input_problem-ne-valid :
    (s : Text) (p : ParseState) (r : ReasonCode)
    → input_problem s ≡ some (p, r)
    → p ≢ ParseState.valid
unfolding input_problem
input_problem-ne-valid s = scan_input-ne-valid s 0

-- `if lines[-1] == "": lines.pop()`
pub pop_empty : List Text → List Text
pop_empty [] = []
pop_empty (p ∷ []) = if is_empty p then [] else p ∷ []
pop_empty (p ∷ q ∷ ps) = p ∷ pop_empty (q ∷ ps)

-- `enumerate(lines, start=n)`
pub enumerate : ℕ → List Text → List (ℕ × Text)
enumerate n [] = []
enumerate n (l ∷ ls) = (n, l) ∷ enumerate (n + 1) ls

-- `_lines`
unfoldable pub lines : Text → List (ℕ × Text)
unfolding pop_empty enumerate
lines s = if is_empty s then [] else enumerate 1 (pop_empty (split 10 s))
