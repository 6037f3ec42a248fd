-- ===== src/U64/RoundTrip.antt =====
-- `str(number)` is read back by `_parse_u64`.
use sql_server_analyze.Common.{
  ℕ, zero, suc, ◌+◌, ◌-◌, ◌*◌, ◌/◌, ◌%◌, ◌≤◌, ◌<◌, ◌≡◌, inl, inr, refl, sym, ap, ◌∙◌, ◌&&◌, Bool,
  true, false, List, [], ◌∷◌, ◌++◌, arith, ltb, Bool-cases, is_empty, all,
}
use sql_server_analyze.Text.{Text, is_digit}
use sql_server_analyze.U64.{u64_max, number, all_digits, int_from, parse_u64, digits_of, to_decimal}
use sql_server_analyze.U64.Laws.{parse_u64_accepts}

pub all-append {ℓ} :
    {A : Type ℓ} (p : A → Bool) (xs ys : List A) → all p (xs ++ ys) ≡ (all p xs && all p ys)
all-append p [] ys = refl
all-append p (x ∷ xs) ys = ground (arith, all-append p xs ys)

int_from-append : (s t : Text) (n : ℕ) → int_from n (s ++ t) ≡ int_from (int_from n s) t
int_from-append [] t n = refl
int_from-append (c ∷ s) t n = int_from-append s t (n * 10 + (c - b'0'))

is_empty-append {ℓ} : {A : Type ℓ} (xs : List A) (y : A) → is_empty (xs ++ y ∷ []) ≡ false
is_empty-append [] y = refl
is_empty-append (x ∷ xs) y = refl

digits_of-all_digits : (fuel n : ℕ) → n < fuel → all_digits (digits_of fuel n) ≡ true
unfolding digits_of
digits_of-all_digits zero n h = elim h [ ]
digits_of-all_digits (suc fuel) n h = elim (Bool-cases (ltb n 10)) [
  | inl e ↦ rw e (ground arith)
  | inr e ↦
      rw
        (
          e,
          is_empty-append (digits_of fuel (n / 10)) (b'0' + n % 10),
          all-append is_digit (digits_of fuel (n / 10)) ((b'0' + n % 10) ∷ []),
        )
        (ground (arith, digits_of-all_digits fuel (n / 10)))
]

digits_of-value : (fuel n : ℕ) → n < fuel → int_from 0 (digits_of fuel n) ≡ n
unfolding digits_of
digits_of-value zero n h = elim h [ ]
digits_of-value (suc fuel) n h = elim (Bool-cases (ltb n 10)) [
  | inl e ↦ rw e (omega arith)
  | inr e ↦
      rw (e, int_from-append (digits_of fuel (n / 10)) ((b'0' + n % 10) ∷ []) 0)
        (ground (arith, digits_of-value fuel (n / 10)))
]

-- A decimal numeral is one or more digits.
pub to_decimal-all_digits : (n : ℕ) → all_digits (to_decimal n) ≡ true
unfolding to_decimal
to_decimal-all_digits n = digits_of-all_digits (suc n) n (omega arith)

-- The digits of a numeral spell the number.
pub int_from-to_decimal : (n : ℕ) → int_from 0 (to_decimal n) ≡ n
unfolding to_decimal
int_from-to_decimal n = digits_of-value (suc n) n (omega arith)

-- Two numbers with one decimal numeral are equal.
pub to_decimal-injective : (m n : ℕ) → to_decimal m ≡ to_decimal n → m ≡ n
to_decimal-injective m n e = sym (int_from-to_decimal m) ∙ ap (int_from 0) e ∙ int_from-to_decimal n

-- Every u64 is read back from its decimal numeral.
pub parse_u64-to_decimal : (n : ℕ) → n ≤ u64_max → parse_u64 (to_decimal n) ≡ number n
parse_u64-to_decimal n h =
    parse_u64_accepts (to_decimal n) (to_decimal-all_digits n)
      (omega (arith, int_from-to_decimal n))
    ∙ ap number (int_from-to_decimal n)
