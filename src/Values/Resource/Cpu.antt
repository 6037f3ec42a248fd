-- ===== src/Values/Resource/Cpu.antt =====
-- `cpu.max` in `parse_resource_value`: quota and period, and the fraction in lowest terms.
use sql_server_analyze.Common.{
  ℕ, ◌*◌, ◌/◌, ◌≤◌, ◌<◌, ◌≡◌, inl, inr, refl, sym, ap, ◌∙◌, true, false, List, [], ◌∷◌, Option,
  none, some, arith, ◌==◌, Bool-cases, pos→nonzero, nonzero→pos,
}
use sql_server_analyze.Codes.{ParseState, ReasonCode}
use sql_server_analyze.Text.{Text, text_eq, text_eq→eq, member, strip, is_outer_space}
use sql_server_analyze.U64.{
  u64_max, U64Result, number, failed, all_digits, int_from, parse_u64, to_decimal,
}
use sql_server_analyze.U64.Laws.{parse_u64_sound, parse_u64_accepts}
use sql_server_analyze.Values.Input.{
  input_problem, IsBounded, input_problem-none, input_problem-IsBounded,
}
use sql_server_analyze.Values.Resource.{
  ValueKind, ResourceResult, returns, cpu_max, max_token, cpu_ratio, cpu_quota, cpu_period,
  tokens_of, cpu_tokens, parse_cpu, checked, parse_resource_value,
}
use sql_server_analyze.Values.Resource.Memory.{returns-injective}
use sql_server_analyze.Gcd.{gcd}
use sql_server_analyze.Gcd.Laws.{Divides, gcd-ratio, gcd-coprime}

-- A token that is a positive u64 `n`.
pub record IsPositive (token : Text) (n : ℕ) : Type 0 where
  pub digits : all_digits token ≡ true
  pub spelled : int_from 0 token ≡ n
  pub positive : 0 < n
  pub fits : n ≤ u64_max

-- A bounded text of two tokens, each a positive u64.
pub record SpellsQuota (raw : Text) (quota period : ℕ) : Type 0 where
  pub bounded : IsBounded raw
  pub quota_token : Text
  pub period_token : Text
  pub two_tokens : tokens_of (strip is_outer_space raw) ≡ quota_token ∷ period_token ∷ []
  pub quota_spelled : IsPositive quota_token quota
  pub period_spelled : IsPositive period_token period

IsPositive-parse : (t : Text) (n : ℕ) → IsPositive t n → parse_u64 t ≡ number n
IsPositive-parse t n h =
    parse_u64_accepts t h.digits (omega (arith, h.spelled)) ∙ ap number h.spelled

parse-IsPositive : (t : Text) (n : ℕ) → parse_u64 t ≡ number n → 0 < n → IsPositive t n
parse-IsPositive t n e h =
    let (d, v, f) = parse_u64_sound t n e in
    record { digits = d; spelled = sym v; positive = h; fits = f }

positive-not-max : (t : Text) (n : ℕ) → IsPositive t n → text_eq t max_token ≡ false
positive-not-max t n h = elim (Bool-cases (text_eq t max_token)) [
  | inr e ↦ e
  | inl e ↦ cc (ap all_digits (text_eq→eq t max_token e), h.digits)
]

-- The dictionary for the quota `q` over the period `p`.
pub cpu_max_accepts :
    (raw : Text) (q p : ℕ)
    → SpellsQuota raw q p
    → parse_resource_value cpu_max raw ≡ returns (cpu_ratio raw q p)
unfolding parse_resource_value
cpu_max_accepts raw q p s =
    unfold member in
    rw (
      input_problem-none raw s.bounded,
      s.two_tokens,
      IsPositive-parse s.period_token p s.period_spelled,
      positive-not-max s.quota_token q s.quota_spelled,
      IsPositive-parse s.quota_token q s.quota_spelled,
      pos→nonzero p s.period_spelled.positive,
      pos→nonzero q s.quota_spelled.positive,
    )

-- `r` is the dictionary of a finite quota, and tells where its numbers stand in the text.
pub record IsRatioOf (raw : Text) (r : ResourceResult) : Type 0 where
  pub quota : ℕ
  pub period : ℕ
  pub spelled : SpellsQuota raw quota period
  pub written : r ≡ cpu_ratio raw quota period

kind : ResourceResult → ValueKind
kind r = r.value_kind

module _ (raw : Text) where
  -- The quota and the period behind a finite result, by the two tokens.
  FromTokens : Text → Text → ResourceResult → Type 0
  FromTokens qt pt r =
      (q : ℕ) × (p : ℕ) × IsPositive qt q × IsPositive pt p × (r ≡ cpu_ratio raw q p)

  quota_finite :
      (qt : Text) (p : ℕ) (v : U64Result)
      → parse_u64 qt ≡ v
      → kind (cpu_quota raw p v) ≡ ValueKind.finite
      → (q : ℕ) × IsPositive qt q × (cpu_quota raw p v ≡ cpu_ratio raw q p)
  unfolding kind
  quota_finite qt p (failed r) e f = cc
  quota_finite qt p (number q) e f = elim (Bool-cases (q == 0)) [
    | inl z ↦ cc (rw z at f)
    | inr z ↦ (q, parse-IsPositive qt q e (nonzero→pos q z), rw z refl)
  ]

  period_finite :
      (qt pt : Text) (v : U64Result)
      → parse_u64 pt ≡ v
      → kind (cpu_period raw qt v) ≡ ValueKind.finite
      → FromTokens qt pt (cpu_period raw qt v)
  unfolding kind FromTokens
  period_finite qt pt (failed r) e f = cc
  period_finite qt pt (number p) e f = elim (Bool-cases (p == 0)) [
    | inl z ↦ cc (rw z at f)
    | inr z ↦ elim (Bool-cases (text_eq qt max_token)) [
      | inl m ↦ cc (rw (z, m) at f)
      | inr m ↦
          let (q, hq, eq) = quota_finite qt p (parse_u64 qt) refl (rw (z, m) at f) in
          rw (z, m) (q, p, hq, parse-IsPositive pt p e (nonzero→pos p z), eq)
    ]
  ]

  tokens_finite :
      (ts : List Text)
      → kind (cpu_tokens raw ts) ≡ ValueKind.finite
      → (qt : Text) × (pt : Text) × (ts ≡ qt ∷ pt ∷ []) × FromTokens qt pt (cpu_tokens raw ts)
  tokens_finite [] f = unfold kind in cc
  tokens_finite (a ∷ []) f = unfold kind in cc
  tokens_finite (a ∷ b ∷ []) f = (a, b, refl, period_finite a b (parse_u64 b) refl f)
  tokens_finite (a ∷ b ∷ c ∷ ts) f = unfold kind in cc

checked-cpu :
    (raw : Text)
    → parse_resource_value cpu_max raw ≡ returns (checked cpu_max raw (input_problem raw))
unfolding parse_resource_value
checked-cpu raw = unfold member in refl

checked_finite :
    (raw : Text) (q : Option (ParseState × ReasonCode))
    → kind (checked cpu_max raw q) ≡ ValueKind.finite
    → (q ≡ none) × (checked cpu_max raw q ≡ cpu_tokens raw (tokens_of (strip is_outer_space raw)))
unfolding kind parse_cpu
checked_finite raw none f = unfold member in (refl, refl)
checked_finite raw (some (p, r)) f = cc

-- A finite result of `cpu.max` comes from two tokens that spell a positive quota and a positive
-- period, and holds these.
pub cpu_max_finite :
    (raw : Text) (r : ResourceResult)
    → parse_resource_value cpu_max raw ≡ returns r
    → r.value_kind ≡ ValueKind.finite
    → IsRatioOf raw r
unfolding kind FromTokens
cpu_max_finite raw r e f =
    let same = returns-injective (sym (checked-cpu raw) ∙ e) in
    let (open_, body) = checked_finite raw (input_problem raw) (ap kind same ∙ f) in
    let whole = sym body ∙ same in
    let (qt, pt, two, rest) =
      tokens_finite raw (tokens_of (strip is_outer_space raw)) (ap kind whole ∙ f) in
    let (q, p, hq, hp, written) = rest in
    record {
      quota = q;
      period = p;
      spelled = record {
        bounded = input_problem-IsBounded raw open_;
        quota_token = qt;
        period_token = pt;
        two_tokens = two;
        quota_spelled = hq;
        period_spelled = hp;
      };
      written = sym whole ∙ written;
    }

-- The ratio of a finite result: a fraction in lowest terms with the value of quota over period.
pub record IsLowestRatio (raw : Text) (r : ResourceResult) : Type 0 where
  pub quota : ℕ
  pub period : ℕ
  pub numerator : ℕ
  pub denominator : ℕ
  pub spelled : SpellsQuota raw quota period
  pub quota_field : r.quota_us ≡ some (to_decimal quota)
  pub period_field : r.period_us ≡ some (to_decimal period)
  pub numerator_field : r.ratio_numerator ≡ some (to_decimal numerator)
  pub denominator_field : r.ratio_denominator ≡ some (to_decimal denominator)
  pub same_value : numerator * period ≡ denominator * quota
  pub lowest : (d : ℕ) → Divides d numerator → Divides d denominator → d ≡ 1

-- A finite result of `cpu.max` holds the quota and the period that the text spells, and beside
-- them the fraction quota / period in lowest terms.
pub cpu_max_lowest :
    (raw : Text) (r : ResourceResult)
    → parse_resource_value cpu_max raw ≡ returns r
    → r.value_kind ≡ ValueKind.finite
    → IsLowestRatio raw r
cpu_max_lowest raw r e f =
    let x = cpu_max_finite raw r e f in
    let q = x.quota in
    let p = x.period in
    let pos = x.spelled.quota_spelled.positive in
    record {
      quota = q;
      period = p;
      numerator = q / gcd q p;
      denominator = p / gcd q p;
      spelled = x.spelled;
      quota_field = ap (λ (y : ResourceResult). y.quota_us) x.written;
      period_field = ap (λ (y : ResourceResult). y.period_us) x.written;
      numerator_field = ap (λ (y : ResourceResult). y.ratio_numerator) x.written;
      denominator_field = ap (λ (y : ResourceResult). y.ratio_denominator) x.written;
      same_value = gcd-ratio q p pos;
      lowest = λ d dn dd. gcd-coprime q p d pos dn dd;
    }
