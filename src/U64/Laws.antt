-- ===== src/U64/Laws.antt =====
-- What `_parse_u64` accepts, and what it returns.
use sql_server_analyze.Common.{
  ℕ, zero, suc, ◌+◌, ◌-◌, ◌*◌, ◌^◌, ◌≤◌, ◌<◌, ◌≡◌, ◌⊎◌, inl, inr, refl, ap, not, true, false, [],
  ◌∷◌, arith, ◌==◌, ltb, Bool-cases, &&_right, ltb→lt, length, is_empty, all,
}
use native.Mathlib.Nat.{pow-suc}
use sql_server_analyze.Codes.{ReasonCode}
use sql_server_analyze.Text.{Text, lstrip, is_digit}
use sql_server_analyze.U64.{
  u64_max, number, failed, all_digits, int_from, is_zero_digit, normalized, parse_u64,
}

pub le-int_from : (s : Text) (n : ℕ) → n ≤ int_from n s
le-int_from [] n = omega arith
le-int_from (c ∷ s) n = omega (arith, le-int_from s (n * 10 + (c - b'0')))

-- Leading zeros do not count.
int_from-lstrip : (s : Text) → int_from 0 (lstrip is_zero_digit s) ≡ int_from 0 s
unfolding lstrip
int_from-lstrip [] = refl
int_from-lstrip (c ∷ s) = ground (arith, int_from-lstrip s)

pub int_from-normalized : (s : Text) → int_from 0 (normalized s) ≡ int_from 0 s
unfolding normalized
int_from-normalized s = ground (arith, int_from-lstrip s)

-- A number with `k` digits behind it is multiplied by ten at least `k` times.
mul-pow-le-int_from : (s : Text) (n b k : ℕ) → b ≤ n → k ≤ length s → b * 10 ^ k ≤ int_from n s
mul-pow-le-int_from s n b zero h le = omega (arith, le-int_from s n)
mul-pow-le-int_from [] n b (suc k) h le = elim le [ ]
mul-pow-le-int_from (c ∷ s) n b (suc k) h le = rw pow-suc (
    omega
      (arith, mul-pow-le-int_from s (n * 10 + (c - b'0')) (b * 10) k (omega arith) (omega arith)))

-- What is left of the digits when the zeros are gone begins with another digit.
lstrip-head :
    (s : Text)
    → all is_digit s ≡ true
    → (lstrip is_zero_digit s ≡ [])
      ⊎ ((c : ℕ) × (t : Text) × (lstrip is_zero_digit s ≡ c ∷ t) × (b'1' ≤ c))
unfolding lstrip
lstrip-head [] d = inl refl
lstrip-head (c ∷ s) d = elim (Bool-cases (c == b'0')) [
  | inl e ↦ rw e (lstrip-head s (&&_right (is_digit c) (all is_digit s) d))
  | inr e ↦ rw e (inr (c, s, refl, ground arith))
]

long_stripped :
    (t : Text) (c : ℕ) (u : Text) (k : ℕ)
    → t ≡ c ∷ u
    → b'1' ≤ c
    → k < length t
    → 10 ^ k ≤ int_from 0 t
long_stripped t c u k e h l =
    let e' : length t ≡ suc (length u) = ap length e in
    rw e
      (omega (arith, mul-pow-le-int_from u (0 * 10 + (c - b'0')) 1 k (omega arith) (omega arith)))

-- After the zeros are gone, a text of more than `k` digits spells at least the power of ten.
pub pow-le-normalized :
    (s : Text) (k : ℕ)
    → all is_digit s ≡ true
    → 0 < k
    → k < length (normalized s)
    → 10 ^ k ≤ int_from 0 (normalized s)
unfolding normalized
pow-le-normalized s k d p h = elim (lstrip-head s d) [
  | inl e ↦ absurd (ground arith)
  | inr (c, t, e, lo) ↦
      let shape : normalized s ≡ c ∷ t = ground arith in
      long_stripped (normalized s) c t k shape lo h
]

-- More than twenty digits are out of the range of a u64.
long_normalized :
    (s : Text)
    → all is_digit s ≡ true
    → 20 < length (normalized s)
    → u64_max < int_from 0 (normalized s)
long_normalized s d h = omega (arith, pow-le-normalized s 20 d (omega arith) h)

-- A text of one or more digits whose value is at most `u64_max` is parsed to that value.
pub parse_u64_accepts :
    (s : Text) → all_digits s ≡ true → int_from 0 s ≤ u64_max → parse_u64 s ≡ number (int_from 0 s)
unfolding parse_u64
parse_u64_accepts s d h = elim (Bool-cases (ltb 20 (length (normalized s)))) [
  | inl e ↦
      let long =
        long_normalized s (&&_right (not (is_empty s)) (all is_digit s) d) (ltb→lt _ _ e) in
      absurd (omega (arith, long, int_from-normalized s))
  | inr e ↦ ground (arith, int_from-normalized s)
]

pub parse_u64_rejects :
    (s : Text)
    → all_digits s ≡ true
    → u64_max < int_from 0 s
    → parse_u64 s ≡ failed ReasonCode.out_of_range
unfolding parse_u64
parse_u64_rejects s d h = ground (arith, int_from-normalized s)

pub parse_u64_sound :
    (s : Text) (n : ℕ)
    → parse_u64 s ≡ number n
    → (all_digits s ≡ true) × (n ≡ int_from 0 s) × (n ≤ u64_max)
unfolding parse_u64
parse_u64_sound s n h = ground (arith, int_from-normalized s)

parse_u64_range :
    (s : Text) (r : ReasonCode)
    → all_digits s ≡ true
    → parse_u64 s ≡ failed r
    → (r ≡ ReasonCode.out_of_range) × (u64_max < int_from 0 s)
parse_u64_range s r e h = elim (Bool-cases (ltb u64_max (int_from 0 s))) [
  | inl o ↦ (
    cc (parse_u64_rejects s e (ltb→lt u64_max (int_from 0 s) o)),
    ltb→lt u64_max (int_from 0 s) o,
  )
  | inr f ↦ cc (parse_u64_accepts s e (ground arith))
]

parse_u64_token :
    (s : Text) (r : ReasonCode)
    → all_digits s ≡ false
    → parse_u64 s ≡ failed r
    → r ≡ ReasonCode.invalid_token
unfolding parse_u64
parse_u64_token s r e h = ground arith

-- A text that is refused is either no digits, and refused as a bad token, or digits with a value
-- above `u64_max`, and refused as out of range.
pub parse_u64-failed :
    (s : Text) (r : ReasonCode)
    → parse_u64 s ≡ failed r
    → ((r ≡ ReasonCode.invalid_token) × (all_digits s ≡ false))
      ⊎ ((r ≡ ReasonCode.out_of_range) × (all_digits s ≡ true) × (u64_max < int_from 0 s))
parse_u64-failed s r h = elim (Bool-cases (all_digits s)) [
  | inr e ↦ inl (parse_u64_token s r e h, e)
  | inl e ↦ let (reason, big) = parse_u64_range s r e h in inr (reason, e, big)
]
