-- ===== src/Values/Resource/States.antt =====
-- The states of `parse_resource_value`: which exception, and how the fields hang together.
use sql_server_analyze.Common.{
  ℕ, ◌≡◌, ◌≢◌, ◌↔◌, ◌⊎◌, inl, inr, refl, sym, subst, ◌&&◌, not, Bool, true, false, List, [], ◌∷◌,
  Option, none, some, arith, ◌==◌, Bool-cases,
}
use sql_server_analyze.Codes.{ParseState, ReasonCode}
use sql_server_analyze.Text.{Text, text_eq, text_eq→eq, member, strip, is_outer_space}
use sql_server_analyze.U64.{U64Result, number, failed, parse_u64}
use sql_server_analyze.U64.Laws.{parse_u64-failed}
use sql_server_analyze.Values.Input.{input_problem}
use sql_server_analyze.Values.Resource.{
  ValueKind, ResourceResult, returns, value_error, memory_keys, unlimited_memory_keys, cpu_max,
  max_token, result, invalid, memory_number, parse_memory, cpu_quota, cpu_period, tokens_of,
  cpu_tokens, parse_cpu, checked, parse_resource_value,
}
use sql_server_analyze.Values.Input.{input_problem-ne-valid}
use sql_server_analyze.Values.Resource.Memory.{returns-injective}

abbrev is_there : Option Text → Bool
is_there none = false
is_there (some t) = true

abbrev is_finite : ValueKind → Bool
is_finite ValueKind.nothing = false
is_finite ValueKind.unlimited = false
is_finite ValueKind.finite = true

abbrev has_kind : ValueKind → Bool
has_kind ValueKind.nothing = false
has_kind ValueKind.unlimited = true
has_kind ValueKind.finite = true

-- The fields of a result agree: it is valid exactly when it has a kind, the reason tells the kind, and
-- the fields that are there are those of the kind and the key. A finite result of `cpu.max` has quota,
-- period and ratio, one of a memory key has the value; an unlimited one of `cpu.max` has the period.
pub record IsCoherent (key raw : Text) (r : ResourceResult) : Type 0 where
  pub same_key : r.source_key ≡ key
  pub same_raw : r.raw_value ≡ raw
  pub valid_kind : (r.parse_state ≡ ParseState.valid) ↔ (r.value_kind ≢ ValueKind.nothing)
  pub unlimited_reason :
      (r.value_kind ≡ ValueKind.unlimited) ↔ (r.reason_code ≡ ReasonCode.unlimited)
  pub finite_reason : (r.value_kind ≡ ValueKind.finite) ↔ (r.reason_code ≡ ReasonCode.finite_value)
  pub has_value : is_there r.value ≡ (is_finite r.value_kind && not (text_eq key cpu_max))
  pub has_quota : is_there r.quota_us ≡ (is_finite r.value_kind && text_eq key cpu_max)
  pub has_period : is_there r.period_us ≡ (has_kind r.value_kind && text_eq key cpu_max)
  pub has_numerator : is_there r.ratio_numerator ≡ (is_finite r.value_kind && text_eq key cpu_max)
  pub has_denominator :
      is_there r.ratio_denominator ≡ (is_finite r.value_kind && text_eq key cpu_max)

-- An unknown key raises, and no known key does.
pub parse_resource_value-raises :
    (key raw : Text)
    → (parse_resource_value key raw ≡ value_error)
      ↔ ((member key memory_keys ≡ false) × (text_eq key cpu_max ≡ false))
unfolding parse_resource_value
parse_resource_value-raises key raw = elim (Bool-cases (member key memory_keys)) [
  | inl m ↦ rw m ((λ e. cc), (λ (a, _). cc))
  | inr m ↦ elim (Bool-cases (text_eq key cpu_max)) [
    | inl c ↦ rw (m, c) ((λ e. cc), (λ (_, a). cc))
    | inr c ↦ rw (m, c) ((λ e. (refl, refl)), (λ e. refl))
  ]
]

IsCoherent-result :
    (key raw : Text) (s : ParseState) (r : ReasonCode)
    → s ≢ ParseState.valid
    → r ≢ ReasonCode.unlimited
    → r ≢ ReasonCode.finite_value
    → IsCoherent key raw (result key raw s r)
IsCoherent-result key raw s r a b c = record {
  same_key = refl;
  same_raw = refl;
  valid_kind = (λ e. absurd (a e), λ h. absurd (h refl));
  unlimited_reason = (λ e. cc, λ e. absurd (b e));
  finite_reason = (λ e. cc, λ e. absurd (c e));
  has_value = refl;
  has_quota = refl;
  has_period = refl;
  has_numerator = refl;
  has_denominator = refl;
}

u64_reason :
    (t : Text) (r : ReasonCode)
    → parse_u64 t ≡ failed r
    → (r ≢ ReasonCode.unlimited) × (r ≢ ReasonCode.finite_value)
u64_reason t r e = ground (arith, parse_u64-failed t r e)

problem_reason :
    (s : Text) (p : ParseState) (r : ReasonCode)
    → input_problem s ≡ some (p, r)
    → (r ≢ ReasonCode.unlimited) × (r ≢ ReasonCode.finite_value)
unfolding input_problem
problem_reason s p r e = ground arith

invalid-IsCoherent :
    (key raw t : Text) (r : ReasonCode)
    → parse_u64 t ≡ failed r
    → IsCoherent key raw (invalid key raw r)
invalid-IsCoherent key raw t r e =
    let (a, b) = u64_reason t r e in
    IsCoherent-result key raw ParseState.invalid_value r (λ h. cc) a b

invalid_fixed :
    (key raw : Text) (r : ReasonCode)
    → r ≢ ReasonCode.unlimited
    → r ≢ ReasonCode.finite_value
    → IsCoherent key raw (invalid key raw r)
invalid_fixed key raw r = IsCoherent-result key raw ParseState.invalid_value r (λ h. cc)

-- A memory key is not `cpu.max`.
memory_keys-ne-cpu_max : (key : Text) → member key memory_keys ≡ true → text_eq key cpu_max ≡ false
unfolding member
memory_keys-ne-cpu_max key m = elim (Bool-cases (text_eq key cpu_max)) [
  | inl c ↦ cc (subst (λ k. member k memory_keys ≡ true) (text_eq→eq key cpu_max c) m)
  | inr c ↦ c
]

memory_number-IsCoherent :
    (key raw t : Text) (v : U64Result)
    → text_eq key cpu_max ≡ false
    → parse_u64 t ≡ v
    → IsCoherent key raw (memory_number key raw v)
memory_number-IsCoherent key raw t (number n) k e = ground arith
memory_number-IsCoherent key raw t (failed r) k e = invalid-IsCoherent key raw t r e

parse_memory-IsCoherent :
    (key raw t : Text) → text_eq key cpu_max ≡ false → IsCoherent key raw (parse_memory key raw t)
unfolding parse_memory
parse_memory-IsCoherent key raw t k =
    elim (Bool-cases (text_eq t max_token && member key unlimited_memory_keys)) [
      | inl u ↦ rw u (ground arith)
      | inr u ↦ rw u (memory_number-IsCoherent key raw t (parse_u64 t) k refl)
    ]

cpu_quota-IsCoherent :
    (raw t : Text) (p : ℕ) (v : U64Result)
    → parse_u64 t ≡ v
    → IsCoherent cpu_max raw (cpu_quota raw p v)
cpu_quota-IsCoherent raw t p (failed r) e = invalid-IsCoherent cpu_max raw t r e
cpu_quota-IsCoherent raw t p (number q) e = elim (Bool-cases (q == 0)) [
  | inl z ↦ rw z (invalid_fixed cpu_max raw ReasonCode.out_of_range (λ h. cc) (λ h. cc))
  | inr z ↦ rw z (ground arith)
]

cpu_period-IsCoherent :
    (raw qt t : Text) (v : U64Result)
    → parse_u64 t ≡ v
    → IsCoherent cpu_max raw (cpu_period raw qt v)
cpu_period-IsCoherent raw qt t (failed r) e = invalid-IsCoherent cpu_max raw t r e
cpu_period-IsCoherent raw qt t (number p) e = elim (Bool-cases (p == 0)) [
  | inl z ↦ rw z (invalid_fixed cpu_max raw ReasonCode.out_of_range (λ h. cc) (λ h. cc))
  | inr z ↦ elim (Bool-cases (text_eq qt max_token)) [
    | inl m ↦ rw (z, m) (ground arith)
    | inr m ↦ rw (z, m) (cpu_quota-IsCoherent raw qt p (parse_u64 qt) refl)
  ]
]

bad_format : (raw : Text) → IsCoherent cpu_max raw (invalid cpu_max raw ReasonCode.invalid_format)
bad_format raw = invalid_fixed cpu_max raw ReasonCode.invalid_format (λ h. cc) (λ h. cc)

cpu_tokens-IsCoherent : (raw : Text) (ts : List Text) → IsCoherent cpu_max raw (cpu_tokens raw ts)
cpu_tokens-IsCoherent raw [] = bad_format raw
cpu_tokens-IsCoherent raw (a ∷ []) = bad_format raw
cpu_tokens-IsCoherent raw (a ∷ b ∷ []) = cpu_period-IsCoherent raw a b (parse_u64 b) refl
cpu_tokens-IsCoherent raw (a ∷ b ∷ c ∷ ts) = bad_format raw

checked-IsCoherent :
    (key raw : Text) (q : Option (ParseState × ReasonCode))
    → (member key memory_keys ≡ true) ⊎ (key ≡ cpu_max)
    → input_problem raw ≡ q
    → IsCoherent key raw (checked key raw q)
checked-IsCoherent key raw (some (p, r)) k e =
    let (a, b) = problem_reason raw p r e in
    IsCoherent-result key raw p r (input_problem-ne-valid raw p r e) a b
checked-IsCoherent key raw none (inl m) e =
    rw m (parse_memory-IsCoherent key raw (strip is_outer_space raw) (memory_keys-ne-cpu_max key m))
checked-IsCoherent key raw none (inr c) e =
    subst (λ k. IsCoherent k raw (checked k raw none)) (sym c)
      (unfold member parse_cpu in cpu_tokens-IsCoherent raw (tokens_of (strip is_outer_space raw)))

known_key :
    (key raw : Text) (r : ResourceResult)
    → parse_resource_value key raw ≡ returns r
    → ((member key memory_keys ≡ true) ⊎ (key ≡ cpu_max))
      × (checked key raw (input_problem raw) ≡ r)
unfolding parse_resource_value
known_key key raw r e = elim (Bool-cases (member key memory_keys)) [
  | inl m ↦ (inl m, returns-injective (rw m at e))
  | inr m ↦ elim (Bool-cases (text_eq key cpu_max)) [
    | inl c ↦ (inr (text_eq→eq key cpu_max c), returns-injective (rw (m, c) at e))
    | inr c ↦ cc (rw (m, c) at e)
  ]
]

-- Every result of `parse_resource_value` that is returned keeps the key and the text; it is valid
-- exactly when it has a kind, the reason tells the kind, and the fields that are there are those
-- of the kind and the key: the value for a finite result of a memory key, quota, period and ratio
-- for a finite one of `cpu.max`, the period for an unlimited one of `cpu.max`, and none else.
pub parse_resource_value-IsCoherent :
    (key raw : Text) (r : ResourceResult)
    → parse_resource_value key raw ≡ returns r
    → IsCoherent key raw r
parse_resource_value-IsCoherent key raw r e =
    let (k, same) = known_key key raw r e in
    subst (IsCoherent key raw) same (checked-IsCoherent key raw (input_problem raw) k refl)
