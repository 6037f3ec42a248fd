-- ===== src/U64.antt =====
-- Decimal numerals: `str(number)`, and `_parse_u64` of Code/Tools/Linux_Cgroup_Values.py, which
-- Code/Tools/Linux_Cgroup_Metadata.py repeats.
pub mod Laws
pub mod RoundTrip
use sql_server_analyze.Common.{
  ℕ, zero, suc, ◌+◌, ◌-◌, ◌*◌, ◌/◌, ◌%◌, ◌^◌, ◌≤◌, ◌<◌, min, max, String, ◌≡◌, ◌≢◌, ◌↔◌, ◌⊎◌, inl,
  inr, refl, sym, ap, ◌∙◌, subst, ◌&&◌, ◌||◌, not, Bool, true, false, List, [], ◌∷◌, ◌++◌, map,
  reverse, append-nil, append_assoc, Option, none, some, arith, ◌==◌, ltb, leb, if◌then◌else◌,
  Bool-cases, &&_left, &&_right, ==→eq, ==_refl, ltb→lt, lt→ltb, leb→le, le→leb, length,
  length-append, get_elem?, take, drop, is_empty, any, all, select, All, Some, All-append,
  Some-append, Some-reverse, All-reverse, ⊎-map, ⊎-map_left, ⊎-comm, ⊎-assoc, ⊎-unassoc, ⊎-rotate,
}
use sql_server_analyze.Codes.{ReasonCode}
use sql_server_analyze.Text.{Text, codes, lstrip, is_digit}

-- `_U64_MAX`
abbrev pub u64_max : ℕ
u64_max = 18446744073709551615

-- `(value, None)` or `(None, reason)`.
pub data U64Result : Type 0 where
  number : ℕ → U64Result
  failed : ReasonCode → U64Result

-- `_ASCII_DIGITS.fullmatch(text)`: one or more digits.
abbrev pub all_digits : Text → Bool
all_digits s = not (is_empty s) && all is_digit s

-- `int(text)` of a text of digits, behind the number already read.
abbrev pub int_from : ℕ → Text → ℕ
int_from n [] = n
int_from n (c ∷ s) = int_from (n * 10 + (c - b'0')) s

-- `numeric_text.lstrip("0") or "0"`
abbrev pub is_zero_digit : ℕ → Bool
is_zero_digit c = c == b'0'

unfoldable pub normalized : Text → Text
normalized s = let rest = lstrip is_zero_digit s in if is_empty rest then b'0' ∷ [] else rest

unfoldable pub parse_u64 : Text → U64Result
unfolding normalized lstrip
parse_u64 s =
    if not (all_digits s)
    then failed ReasonCode.invalid_token
    else if ltb 20 (length (normalized s))
    then failed ReasonCode.out_of_range
    else if ltb u64_max (int_from 0 (normalized s))
    then failed ReasonCode.out_of_range
    else number (int_from 0 (normalized s))

-- `str(n)`; each round writes the last digit behind those of `n / 10`.
digits_of : ℕ → ℕ → Text
digits_of zero n = []
digits_of (suc fuel) n =
    let rest = digits_of fuel (n / 10) in
    if ltb n 10 then (b'0' + n) ∷ [] else rest ++ (b'0' + n % 10) ∷ []

unfoldable pub to_decimal : ℕ → Text
unfolding digits_of
to_decimal n = digits_of (suc n) n
