-- ===== src/Reader/Stat/RoundTrip.antt =====
-- The process id and the start time are read behind any process name.
use sql_server_analyze.Common.{
  ℕ, zero, suc, ◌+◌, ◌≤◌, ◌<◌, ◌≡◌, refl, ap, ◌∙◌, not, true, false, List, [], ◌∷◌, ◌++◌,
  append_assoc, Option, some, arith, ◌==◌, ltb, leb, &&_right, length, length-append, get_elem?,
  take, drop, is_empty, all,
}
use sql_server_analyze.Text.{Text, text_eq_refl, contains, is_digit}
use sql_server_analyze.U64.{u64_max, to_decimal}
use sql_server_analyze.U64.RoundTrip.{to_decimal-all_digits}
use sql_server_analyze.Reader.Tokens.{
  pid_max, u64_token-to_decimal, find, rfind, find_from, find-append, rfind-append, take-length,
  drop-length, words,
}
use sql_server_analyze.Reader.Stat.{Stat, from_fields, open_paren, at_places, parse_process_stat}

digits-contains : (s : Text) → all is_digit s ≡ true → contains 32 s ≡ false
digits-contains [] h = refl
digits-contains (c ∷ s) h = ground (arith, digits-contains s)

-- The line as the kernel writes it: the id, the name in parentheses, and the other fields.
unfoldable pub stat_line : Text → Text → Text → Text
stat_line pid comm rest = pid ++ 32 ∷ b'(' ∷ (comm ++ b')' ∷ rest)

elem-length : {A : Type 0} (xs : List A) (i : ℕ) (x : A) → get_elem? xs i ≡ some x → i < length xs
elem-length [] i x h = cc
elem-length (y ∷ xs) zero x h = omega arith
elem-length (y ∷ xs) (suc i) x h = omega (arith, elem-length xs i x h)

from_fields-read :
    (pid start : ℕ) (fields : List Text)
    → start ≤ u64_max
    → get_elem? fields 19 ≡ some (to_decimal start)
    → from_fields (some (to_decimal pid)) fields pid ≡ some (to_decimal pid, to_decimal start)
from_fields-read pid start fields h e =
    let long = elem-length fields 19 (to_decimal start) e in
    let enough : ltb (length fields) 20 ≡ false = ground arith in
    rw
      (enough, e, u64_token-to_decimal start u64_max h (omega arith), text_eq_refl (to_decimal pid))
      refl

assembled :
    (pid comm rest : Text)
    → (pid ++ 32 ∷ b'(' ∷ comm) ++ b')' ∷ rest ≡ pid ++ 32 ∷ b'(' ∷ (comm ++ b')' ∷ rest)
assembled pid comm rest = append_assoc pid (32 ∷ b'(' ∷ comm) (b')' ∷ rest)

places :
    (pid comm rest : Text)
    → contains 32 pid ≡ false
    → contains b')' rest ≡ false
    → (find 32 (stat_line pid comm rest) ≡ some (length pid))
      × (open_paren (some (length pid)) (stat_line pid comm rest) ≡ some (suc (length pid)))
      × (rfind b')' (stat_line pid comm rest) ≡ some (length pid + suc (suc (length comm))))
unfolding stat_line open_paren find_from
places pid comm rest h r = (
  find-append 32 pid _ h,
  rw (drop-length pid 32 (b'(' ∷ (comm ++ b')' ∷ rest))) (ap some (omega arith)),
  rw (← assembled pid comm rest) (
      rfind-append b')' (pid ++ 32 ∷ b'(' ∷ comm) rest r
      ∙ ap some (length-append pid (32 ∷ b'(' ∷ comm))),
)

behind_name :
    (pid comm rest : Text)
    → drop (suc (length pid + suc (suc (length comm)))) (stat_line pid comm rest) ≡ rest
unfolding stat_line
behind_name pid comm rest =
    rw (← assembled pid comm rest, ← length-append pid (32 ∷ b'(' ∷ comm))
      (drop-length (pid ++ 32 ∷ b'(' ∷ comm) b')' rest)

before_name : (pid comm rest : Text) → take (length pid) (stat_line pid comm rest) ≡ pid
unfolding stat_line
before_name pid comm rest = take-length pid _

length-positive : (pid : Text) → is_empty pid ≡ false → (length pid == 0) ≡ false
length-positive [] h = cc
length-positive (c ∷ s) h = ground arith

at_places-read :
    (pid : ℕ) (comm rest : Text) {result : Option Stat}
    → pid ≤ pid_max
    → is_empty (to_decimal pid) ≡ false
    → from_fields (some (to_decimal pid)) (words rest) pid ≡ result
    → at_places
        (stat_line (to_decimal pid) comm rest)
        pid
        (some (length (to_decimal pid)))
        (some (suc (length (to_decimal pid))))
        (some (length (to_decimal pid) + suc (suc (length comm))))
      ≡ result
unfolding at_places
at_places-read pid comm rest hp h e =
    let behind : leb (suc (length (to_decimal pid))) (length (to_decimal pid)) ≡ false =
      ground arith in
    let wider : leb (length (to_decimal pid) + suc (suc (length comm)))
          (suc (length (to_decimal pid)))
        ≡ false =
      ground arith in
    rw
      (
        length-positive (to_decimal pid) h,
        behind,
        wider,
        before_name (to_decimal pid) comm rest,
        behind_name (to_decimal pid) comm rest,
        u64_token-to_decimal pid pid_max hp (omega arith),
      )
      e

-- Whatever the name of the process is, parentheses and blanks included, the id and the start time
-- are those of the line, where no parenthesis closes behind the name.
pub parse_process_stat-stat_line :
    (pid start : ℕ) (comm rest : Text)
    → pid ≤ pid_max
    → start ≤ u64_max
    → contains b')' rest ≡ false
    → get_elem? (words rest) 19 ≡ some (to_decimal start)
    → parse_process_stat (stat_line (to_decimal pid) comm rest) pid
      ≡ some (to_decimal pid, to_decimal start)
unfolding parse_process_stat
parse_process_stat-stat_line pid start comm rest hp hs r e =
    let digits = to_decimal-all_digits pid in
    let (f, o, c) =
      places (to_decimal pid) comm rest
        (digits-contains (to_decimal pid) (&&_right (not (is_empty (to_decimal pid))) _ digits))
        r in
    let start_token = from_fields-read pid start (words rest) hs e in
    let nonempty : is_empty (to_decimal pid) ≡ false = ground arith in
    rw (f, o, c) (at_places-read pid comm rest hp nonempty start_token)
