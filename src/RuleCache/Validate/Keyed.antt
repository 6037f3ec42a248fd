-- ===== src/RuleCache/Validate/Keyed.antt =====
-- What a reader of the cache may rely on: a valid record has the keys of its contents.
use sql_server_analyze.Common.{
  ℕ, suc, ◌≡◌, ◌⊎◌, inl, inr, refl, ◌&&◌, not, Bool, true, false, List, [], ◌∷◌, Option, none, some,
  arith, Bool-cases, &&_left, &&_right, is_empty, all,
}
use sql_server_analyze.Text.{Text, text_eq, text_eq→eq, member}
use sql_server_analyze.RuleCache.Record.{
  Source, Sources, Body, CacheRecord, Hashed, lookup, paths_of, expected_key,
}
use sql_server_analyze.RuleCache.Record.Fingerprints.{IsOrdered, IsKeyed}
use sql_server_analyze.RuleCache.Validate.{
  repository_is_valid, scope_is_valid, is_record_path, source_is_valid, is_digest,
  scope_id_is_valid, record_digest_is_valid,
}
use sql_server_analyze.RuleCache.Validate.Record.{
  header_reason, body_reason, instruction_sources, global_paths_are_valid, every_source,
  precedence_is, precedences_are_valid, chain_is_valid, Header, keys_are_valid, contents_are_valid,
  record_is_valid, validate_record_shape,
}

every_source-lookup :
    (test : Text → Source → Bool) (path : Text) (s : Source) (sources : Sources)
    → every_source test sources ≡ true
    → lookup path sources ≡ some s
    → test path s ≡ true
unfolding lookup
every_source-lookup test path s [] h e = cc
every_source-lookup test path s ((k, x) ∷ sources) h e = elim (Bool-cases (text_eq k path)) [
  | inl t ↦
      let same : k ≡ path = text_eq→eq k path t in
      let found : x ≡ s = some-eq x s (rw t at e) in
      let here = &&_left (test k x) (every_source test sources) h in cc
  | inr t ↦
      every_source-lookup test path s sources (&&_right (test k x) (every_source test sources) h)
        (rw t at e)
]
  where
    some-eq : (x s : Source) → some x ≡ some s → x ≡ s
    some-eq x s e = cc

precedence_is-some :
    (n : ℕ) (a : Option Source)
    → precedence_is n a ≡ true
    → (s : Source) × (a ≡ some s) × (s.precedence ≡ some n)
precedence_is-some n none h = cc
precedence_is-some n (some s) h = elim (present_cases s.precedence) [
  | inl e ↦ cc (rw e at h)
  | inr (p, e) ↦ let q : p ≡ n = ground (arith, rw e at h) in (s, refl, rw (e, q) refl)
]
  where
    present_cases : (a : Option ℕ) → (a ≡ none) ⊎ ((p : ℕ) × (a ≡ some p))
    present_cases none = inl refl
    present_cases (some p) = inr (p, refl)

precedences-IsOrdered :
    (n : ℕ) (chain : List Text) (sources : Sources)
    → precedences_are_valid n chain sources ≡ true
    → IsOrdered n chain sources
unfolding precedences_are_valid
precedences-IsOrdered n [] sources h = tt
precedences-IsOrdered n (path ∷ chain) sources h = (
  precedence_is-some n (lookup path sources) (
      &&_left (precedence_is n (lookup path sources)) (precedences_are_valid (suc n) chain sources)
        h),
  precedences-IsOrdered (suc n) chain sources (
      &&_right (precedence_is n (lookup path sources)) (precedences_are_valid (suc n) chain sources)
        h),
)

-- The four parts of a conjunction.
and4 :
    (a b c d : Bool) → (a && b && c && d) ≡ true → (a ≡ true) × (b ≡ true) × (c ≡ true) × (d ≡ true)
and4 a b c d h = ground arith

last_of : (a b c : Bool) → (a && b && c) ≡ true → c ≡ true
last_of a b c h = ground arith

last_of5 : (a b c d e : Bool) → (a && b && c && d && e) ≡ true → e ≡ true
last_of5 a b c d e h = ground arith

record_parts :
    (sha256_json : Hashed → Text) (r : CacheRecord)
    → record_is_valid sha256_json r ≡ true
    → (chain_is_valid r.body ≡ true) × (keys_are_valid sha256_json r.body ≡ true)
unfolding record_is_valid contents_are_valid
record_parts sha256_json r h =
    let (contents, _, keys, _) =
      and4 (contents_are_valid sha256_json r.body) (scope_id_is_valid sha256_json r.body.scope)
        (keys_are_valid sha256_json r.body) (record_digest_is_valid sha256_json r) h in
    (
      last_of5 (repository_is_valid sha256_json r.body.repository) (scope_is_valid r.body.scope)
          (not (is_empty r.body.sources) && all (is_record_path true) (paths_of r.body.sources))
          (every_source (source_is_valid r.body.sources) r.body.sources) (chain_is_valid r.body)
          contents,
      keys,
    )

chain-IsOrdered :
    (b : Body) → chain_is_valid b ≡ true → IsOrdered 0 b.scope.instruction_chain b.sources
unfolding chain_is_valid
chain-IsOrdered b h = precedences-IsOrdered 0 b.scope.instruction_chain b.sources (
    last_of
      (all (λ p. member p b.scope.instruction_chain) (instruction_sources b.sources)
        && all (λ p. member p (instruction_sources b.sources)) b.scope.instruction_chain)
      (global_paths_are_valid b.scope) (precedences_are_valid 0 b.scope.instruction_chain b.sources)
      h)

keys-lookup :
    (sha256_json : Hashed → Text) (b : Body)
    → keys_are_valid sha256_json b ≡ true
    → (path : Text) (s : Source) → lookup path b.sources ≡ some s
    → s.analysis_key ≡ expected_key sha256_json b path s
unfolding keys_are_valid
keys-lookup sha256_json b h path s e =
    text_eq→eq s.analysis_key (expected_key sha256_json b path s) (
      &&_right (is_digest s.analysis_key)
        (text_eq s.analysis_key (expected_key sha256_json b path s))
        (every_source-lookup
          (λ path s.
            is_digest s.analysis_key && text_eq s.analysis_key (expected_key sha256_json b path s))
          path s b.sources h e))

-- A valid record has the keys of its contents, and its chain in order.
pub record_is_valid-IsKeyed :
    (sha256_json : Hashed → Text) (r : CacheRecord)
    → record_is_valid sha256_json r ≡ true
    → IsKeyed sha256_json r.body
record_is_valid-IsKeyed sha256_json r h =
    let (chain, keys) = record_parts sha256_json r h in
    record { ordered = chain-IsOrdered r.body chain; keyed = keys-lookup sha256_json r.body keys }

no_reason : (a : Option Text) (valid : Bool) → body_reason a valid ≡ none → valid ≡ true
no_reason none true h = refl
no_reason none false h = cc
no_reason (some r) valid h = cc

pub validated :
    (sha256_json : Hashed → Text) (h : Header) (r : CacheRecord)
    → validate_record_shape sha256_json h r ≡ none
    → record_is_valid sha256_json r ≡ true
unfolding validate_record_shape
validated sha256_json h r e = no_reason (header_reason h) (record_is_valid sha256_json r) e
