-- ===== src/Values/Resource/Memory.antt =====
-- The memory keys of `parse_resource_value`: which texts are a number, and which are unlimited.
use sql_server_analyze.Common.{
  ℕ, ◌≤◌, ◌≡◌, ◌≢◌, ◌↔◌, inl, inr, refl, sym, ap, ◌∙◌, ◌&&◌, true, false, Option, none, some, arith,
  Bool-cases, &&_left, &&_right,
}
use sql_server_analyze.Codes.{ParseState, ReasonCode}
use sql_server_analyze.Text.{Text, text_eq, text_eq→eq, member, strip, is_outer_space}
use sql_server_analyze.U64.{
  u64_max, U64Result, number, failed, all_digits, int_from, parse_u64, to_decimal,
}
use sql_server_analyze.U64.Laws.{parse_u64_sound, parse_u64_accepts}
use sql_server_analyze.U64.RoundTrip.{to_decimal-injective}
use sql_server_analyze.Values.Input.{
  input_problem, IsBounded, input_problem-none, input_problem-IsBounded, input_problem-ne-valid,
}
use sql_server_analyze.Values.Resource.{
  ResourceResult, returns, memory_keys, unlimited_memory_keys, max_token, unlimited_result,
  finite_result, memory_number, parse_memory, checked, parse_resource_value,
}

abbrev pub memory_value : Text → Text → ℕ → ResourceResult
memory_value key raw n = record (finite_result key raw) { value = some (to_decimal n) }

digits-not-max : (t : Text) → all_digits t ≡ true → text_eq t max_token ≡ false
digits-not-max t d = elim (Bool-cases (text_eq t max_token)) [
  | inr e ↦ e
  | inl e ↦ cc (ap all_digits (text_eq→eq t max_token e))
]

parse_memory_accepts :
    (key raw t : Text)
    → all_digits t ≡ true
    → int_from 0 t ≤ u64_max
    → parse_memory key raw t ≡ memory_value key raw (int_from 0 t)
parse_memory_accepts key raw t d h =
    unfold parse_memory in rw (digits-not-max t d, parse_u64_accepts t d h) refl

memory_number_sound :
    (key raw : Text) (v : U64Result) (n : ℕ)
    → memory_number key raw v ≡ memory_value key raw n
    → v ≡ number n
memory_number_sound key raw (number m) n e =
    ap number (to_decimal-injective m n (cc (ap (λ (r : ResourceResult). r.value) e)))
memory_number_sound key raw (failed r) n e = cc

parse_memory_sound :
    (key raw t : Text) (n : ℕ)
    → parse_memory key raw t ≡ memory_value key raw n
    → parse_u64 t ≡ number n
unfolding parse_memory
parse_memory_sound key raw t n e =
    elim (Bool-cases (text_eq t max_token && member key unlimited_memory_keys)) [
      | inl u ↦ cc (ap (λ (r : ResourceResult). r.value_kind) (rw u at e))
      | inr u ↦ memory_number_sound key raw (parse_u64 t) n (rw u at e)
    ]

number-not-unlimited :
    (key raw : Text) (v : U64Result) → memory_number key raw v ≢ unlimited_result key raw
number-not-unlimited key raw (number m) e = cc
number-not-unlimited key raw (failed r) e = cc

parse_memory_unlimited :
    (key raw t : Text)
    → parse_memory key raw t ≡ unlimited_result key raw
    → (text_eq t max_token ≡ true) × (member key unlimited_memory_keys ≡ true)
unfolding parse_memory
parse_memory_unlimited key raw t e =
    let is_max = text_eq t max_token in
    let can = member key unlimited_memory_keys in
    elim (Bool-cases (is_max && can)) [
      | inl u ↦ (&&_left is_max can u, &&_right is_max can u)
      | inr u ↦ absurd (number-not-unlimited key raw (parse_u64 t) (rw u at e))
    ]

module _ (key raw : Text) (known : member key memory_keys ≡ true) where
  pub parse_resource_value-memory :
      parse_resource_value key raw ≡ returns (checked key raw (input_problem raw))
  unfolding parse_resource_value
  parse_resource_value-memory = rw known

  checked-memory :
      IsBounded raw
      → checked key raw (input_problem raw) ≡ parse_memory key raw (strip is_outer_space raw)
  checked-memory b = rw (input_problem-none raw b, known)

-- The texts that stand for the number `n` under a memory key: short, and when the outer white
-- space is gone one or more digits that spell `n`, which is a u64.
pub record SpellsNumber (raw : Text) (n : ℕ) : Type 0 where
  pub bounded : IsBounded raw
  pub digits : all_digits (strip is_outer_space raw) ≡ true
  pub spelled : int_from 0 (strip is_outer_space raw) ≡ n
  pub fits : n ≤ u64_max

pub returns-injective {ℓ} : {A : Type ℓ} {a b : A} → returns a ≡ returns b → a ≡ b
returns-injective e = cc

-- A result in state `VALID` comes from a text that passed the check of its size.
pub checked-IsBounded :
    (key raw : Text) (x : ResourceResult)
    → checked key raw (input_problem raw) ≡ x
    → x.parse_state ≡ ParseState.valid
    → IsBounded raw
checked-IsBounded key raw x e v = input_problem-IsBounded raw (go (input_problem raw) refl e)
  where
    go :
        (q : Option (ParseState × ReasonCode))
        → input_problem raw ≡ q
        → checked key raw q ≡ x
        → input_problem raw ≡ none
    go none h f = h
    go (some (p, r)) h f =
        absurd (input_problem-ne-valid raw p r h (ap (λ (y : ResourceResult). y.parse_state) f ∙ v))

-- For a known memory key, the result is the finite value `n`, written in decimal, exactly when
-- the text can be encoded and is short (its encoding has at most 64 KiB), what is left of it
-- without the outer white space is one or more digits that spell `n`, and `n` is at most the
-- largest u64.
pub memory_value_iff :
    (key raw : Text) (n : ℕ)
    → member key memory_keys ≡ true
    → (parse_resource_value key raw ≡ returns (memory_value key raw n)) ↔ SpellsNumber raw n
memory_value_iff key raw n known = (sound, complete)
  where
    complete : SpellsNumber raw n → parse_resource_value key raw ≡ returns (memory_value key raw n)
    complete s =
        parse_resource_value-memory key raw known
        ∙ ap returns (
            checked-memory key raw known s.bounded
            ∙ parse_memory_accepts key raw (strip is_outer_space raw) s.digits
                (omega (arith, s.spelled))
            ∙ ap (memory_value key raw) s.spelled)

    sound : parse_resource_value key raw ≡ returns (memory_value key raw n) → SpellsNumber raw n
    sound e =
        let e' = returns-injective (sym (parse_resource_value-memory key raw known) ∙ e) in
        let b = checked-IsBounded key raw (memory_value key raw n) e' refl in
        let u =
          parse_memory_sound key raw (strip is_outer_space raw) n
            (sym (checked-memory key raw known b) ∙ e') in
        let (d, v, f) = parse_u64_sound (strip is_outer_space raw) n u in
        record { bounded = b; digits = d; spelled = sym v; fits = f }

-- A memory key yields "unlimited" only on the word `max`, and only where the key has no number.
pub memory_unlimited :
    (key raw : Text)
    → member key memory_keys ≡ true
    → (parse_resource_value key raw ≡ returns (unlimited_result key raw)) ↔ (
        IsBounded raw
        × (text_eq (strip is_outer_space raw) max_token ≡ true)
        × (member key unlimited_memory_keys ≡ true))
memory_unlimited key raw known = (sound, complete)
  where
    text : Text
    text = strip is_outer_space raw

    sound :
        parse_resource_value key raw ≡ returns (unlimited_result key raw)
        → IsBounded raw
          × (text_eq text max_token ≡ true)
          × (member key unlimited_memory_keys ≡ true)
    sound e =
        let e' = returns-injective (sym (parse_resource_value-memory key raw known) ∙ e) in
        let b = checked-IsBounded key raw (unlimited_result key raw) e' refl in
        let (m, u) =
          parse_memory_unlimited key raw text (sym (checked-memory key raw known b) ∙ e') in
        (b, m, u)

    complete :
        IsBounded raw × (text_eq text max_token ≡ true) × (member key unlimited_memory_keys ≡ true)
        → parse_resource_value key raw ≡ returns (unlimited_result key raw)
    complete (b, m, u) =
        parse_resource_value-memory key raw known
        ∙ ap returns (checked-memory key raw known b ∙ (unfold parse_memory in rw (m, u)))
