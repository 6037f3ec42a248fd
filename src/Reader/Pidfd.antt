-- ===== src/Reader/Pidfd.antt =====
-- `_parse_pidfd_info` and `_cli_pid` of Code/Tools/Linux_Cgroup_Reader.py.
use sql_server_analyze.Common.{
  ℕ, ◌≤◌, ◌<◌, ◌≡◌, ◌↔◌, inl, inr, ◌&&◌, ◌||◌, not, Bool, true, false, List, [], ◌∷◌, ◌++◌, reverse,
  Option, none, some, arith, ◌==◌, ltb, leb, if◌then◌else◌, Bool-cases, &&_right, ltb→lt, length,
  is_empty, any, all, select,
}
use sql_server_analyze.Text.{Text, codes, text_eq, is_digit, split_runs}
use sql_server_analyze.U64.{all_digits, int_from, normalized, to_decimal}
use sql_server_analyze.U64.Laws.{int_from-normalized, pow-le-normalized}
use sql_server_analyze.Reader.Tokens.{pid_max, u64_token}

-- The line breaks of `str.splitlines()`, and the white space of `str.split()`.
abbrev pub is_line_break : ℕ → Bool
is_line_break c =
    (leb 10 c && leb c 13) || (leb 28 c && leb c 30) || (c == 133) || (c == 8232) || (c == 8233)

abbrev pub is_unicode_space : ℕ → Bool
is_unicode_space c =
    (leb 9 c && leb c 13)
    || (leb 28 c && leb c 32)
    || (c == 133)
    || (c == 160)
    || (c == 5760)
    || (leb 8192 c && leb c 8202)
    || (c == 8232)
    || (c == 8233)
    || (c == 8239)
    || (c == 8287)
    || (c == 12288)

-- `raw.splitlines()`, with the characters of the open line; a line feed behind a carriage return is
-- part of the same break.
pub lines_from : Bool → Text → Text → List Text
lines_from after_return [] [] = []
lines_from after_return (c ∷ line) [] = reverse (c ∷ line) ∷ []
lines_from after_return line (c ∷ s) =
    let skipped = lines_from false line s in
    let broken = lines_from (c == 13) [] s in
    let kept = lines_from false (c ∷ line) s in
    if after_return && (c == 10)
    then skipped
    else if is_line_break c
    then reverse line ∷ broken
    else kept

unfoldable pub split_lines : Text → List Text
unfolding lines_from
split_lines s = lines_from false [] s

-- `line.split()`
unfoldable pub unicode_words : Text → List Text
unfolding split_runs
unicode_words s = select (λ w. not (is_empty w)) (split_runs is_unicode_space s)

-- What a line adds to `found`; `none` is the early return.
abbrev pub pid_token : List Text → Option (List Text)
pid_token [] = some []
pid_token (first ∷ tokens) =
    if text_eq first (codes "Pid:")
    then (if length (first ∷ tokens) == 2 then some tokens else none)
    else some []

abbrev pub joined : Option (List Text) → Option (List Text) → Option (List Text)
joined none found = none
joined (some tokens) none = none
joined (some tokens) (some found) = some (tokens ++ found)

pub pid_tokens : List Text → Option (List Text)
pid_tokens [] = some []
pid_tokens (line ∷ lines) = joined (pid_token (unicode_words line)) (pid_tokens lines)

-- `_u64_token(encoded, maximum=_PID_MAX) == str(target_pid)`, where the token is ASCII.
abbrev pub is_target : Option Text → ℕ → Bool
is_target none target = false
is_target (some t) target = text_eq t (to_decimal target)

abbrev pub one_pid : Option (List Text) → ℕ → Bool
one_pid (some (token ∷ [])) target =
    if any (λ c. ltb 127 c) token then false else is_target (u64_token token pid_max) target
one_pid _ target = false

unfoldable pub parse_pidfd_info : Text → ℕ → Bool
unfolding pid_tokens split_lines u64_token unicode_words
parse_pidfd_info raw target = one_pid (pid_tokens (split_lines raw)) target

-- `_cli_pid`; `none` is `INVALID_ARGUMENT`.
unfoldable pub cli_pid : Text → Option ℕ
cli_pid value =
    if not (all_digits value)
    then none
    else if ltb 10 (length (normalized value))
    then none
    else if (int_from 0 (normalized value) == 0) || ltb pid_max (int_from 0 (normalized value))
    then none
    else some (int_from 0 (normalized value))

-- The argument is accepted exactly when it is digits that spell a process id: a positive number of
-- at most 31 bits.
pub cli_pid_iff :
    (value : Text) (n : ℕ)
    → (cli_pid value ≡ some n)
      ↔ ((all_digits value ≡ true) × (int_from 0 value ≡ n) × (0 < n) × (n ≤ pid_max))
unfolding cli_pid
cli_pid_iff value n = (sound, complete)
  where
    sound :
        cli_pid value ≡ some n
        → (all_digits value ≡ true) × (int_from 0 value ≡ n) × (0 < n) × (n ≤ pid_max)
    sound e = ground (arith, int_from-normalized value)

    complete :
        (all_digits value ≡ true) × (int_from 0 value ≡ n) × (0 < n) × (n ≤ pid_max)
        → cli_pid value ≡ some n
    complete (d, v, p, h) = elim (Bool-cases (ltb 10 (length (normalized value)))) [
      | inl t ↦
          let long =
            pow-le-normalized value 10 (&&_right (not (is_empty value)) (all is_digit value) d)
              (omega arith) (ltb→lt _ _ t) in
          absurd (omega (arith, long, int_from-normalized value))
      | inr t ↦ ground (arith, int_from-normalized value)
    ]
