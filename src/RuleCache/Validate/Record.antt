-- ===== src/RuleCache/Validate/Record.antt =====
-- `_validate_record_shape`: the tests across the entries, the keys, the digest and the header.
use sql_server_analyze.Common.{
  ℕ, suc, ◌&&◌, ◌||◌, not, Bool, true, false, List, [], ◌∷◌, Option, none, some, ◌==◌, ltb,
  if◌then◌else◌, length, is_empty, all, select,
}
use sql_server_analyze.Text.{Text, codes, text_eq, member, starts_with}
use sql_server_analyze.RuleCache.Record.{
  Source, Sources, Scope, Body, CacheRecord, Hashed, lookup, paths_of, expected_key,
}
use sql_server_analyze.RuleCache.Validate.{
  global_prefix, is_digest, is_record_path, record_digest_is_valid, repository_is_valid,
  scope_id_is_valid, scope_is_valid, source_is_valid, is_instruction, option_is,
}

abbrev pub every_source : (Text → Source → Bool) → Sources → Bool
every_source test [] = true
every_source test ((path, s) ∷ sources) = test path s && every_source test sources

-- `instruction_sources`
abbrev pub instruction_sources : Sources → List Text
instruction_sources [] = []
instruction_sources ((path, s) ∷ sources) =
    let rest = instruction_sources sources in if is_instruction s then path ∷ rest else rest

abbrev pub same_head : List Text → List Text → Bool
same_head (s ∷ ss) (t ∷ ts) = text_eq s t
same_head _ _ = false

-- `global_paths`: one at most, in scope, and in front.
unfoldable pub global_paths_are_valid : Scope → Bool
unfolding starts_with
global_paths_are_valid s =
    let global_paths = select (starts_with global_prefix) s.instruction_chain in
    not (ltb 1 (length global_paths))
    && not (not (is_empty global_paths) && not s.discovery.global_scope_included)
    && not (not (is_empty global_paths) && not (same_head s.instruction_chain global_paths))

abbrev pub precedence_is : ℕ → Option Source → Bool
precedence_is n none = false
precedence_is n (some s) =
    elim s.precedence [ none ↦ false | some p ↦ p == n ]
    && (option_is s.instruction_scope (codes "global")
        || option_is s.instruction_scope (codes "repository"))

-- `for precedence, path in enumerate(instruction_chain)`
unfoldable pub precedences_are_valid : ℕ → List Text → Sources → Bool
unfolding lookup
precedences_are_valid n [] sources = true
precedences_are_valid n (path ∷ chain) sources =
    precedence_is n (lookup path sources) && precedences_are_valid (suc n) chain sources

-- `instruction_sources != set(instruction_chain)`, and the tests on the chain behind it.
unfoldable pub chain_is_valid : Body → Bool
unfolding member global_paths_are_valid precedences_are_valid
chain_is_valid b =
    let instructions = instruction_sources b.sources in
    let chain = b.scope.instruction_chain in
    (all (λ p. member p chain) instructions && all (λ p. member p instructions) chain)
    && global_paths_are_valid b.scope
    && precedences_are_valid 0 chain b.sources

-- The fields of a record in front of its body.
pub record Header : Type 0 where
  pub schema_version : ℕ
  pub contract : Text
  pub generator_name : Text
  pub generator_version : Text
  pub normalization_policy : Text

-- The tests on the header, in order.
abbrev pub header_reason : Header → Option Text
header_reason h =
    if not (h.schema_version == 1)
    then some (codes "CACHE_SCHEMA_CHANGED")
    else if not (text_eq h.contract (codes "foundation-rule-context-cache/v1"))
    then some (codes "CACHE_CONTRACT_CHANGED")
    else if not (
        text_eq h.generator_name (codes "foundation-rule-context-cache")
        && text_eq h.generator_version (codes "1.0.0"))
    then some (codes "CACHE_GENERATOR_CHANGED")
    else if not (text_eq h.normalization_policy (codes "foundation-utf8-crlf-lf/v1"))
    then some (codes "CACHE_NORMALIZATION_POLICY_CHANGED")
    else none

-- The reason of the header, else that of the body.
abbrev pub body_reason : Option Text → Bool → Option Text
body_reason (some reason) valid = some reason
body_reason none valid = if valid then none else some (codes "CACHE_RECORD_CORRUPT")

module _ (sha256_json : Hashed → Text) where
  -- `source["analysis_key"] != expected_analysis_key`, over all sources.
  unfoldable pub keys_are_valid : Body → Bool
  unfolding expected_key is_digest
  keys_are_valid b =
      every_source
        (λ path s.
          is_digest s.analysis_key && text_eq s.analysis_key (expected_key sha256_json b path s))
        b.sources

  -- What does not depend on a hash of the record.
  unfoldable pub contents_are_valid : Body → Bool
  unfolding repository_is_valid scope_is_valid is_record_path source_is_valid chain_is_valid
  contents_are_valid b =
      repository_is_valid sha256_json b.repository
      && scope_is_valid b.scope
      && (not (is_empty b.sources) && all (is_record_path true) (paths_of b.sources))
      && every_source (source_is_valid b.sources) b.sources
      && chain_is_valid b

  unfoldable pub record_is_valid : CacheRecord → Bool
  unfolding contents_are_valid scope_id_is_valid keys_are_valid record_digest_is_valid
  record_is_valid r =
      contents_are_valid r.body
      && scope_id_is_valid sha256_json r.body.scope
      && keys_are_valid r.body
      && record_digest_is_valid sha256_json r

  -- `_validate_record_shape`: none for a valid record, else the reason.
  unfoldable pub validate_record_shape : Header → CacheRecord → Option Text
  unfolding record_is_valid
  validate_record_shape h r = body_reason (header_reason h) (record_is_valid r)
