-- ===== src/RuleCache/Compare.antt =====
-- `compare_records`: what a check of the cache tells to read again.
pub mod Lookups
pub mod Cases
pub mod Partition
pub mod Reuse
pub mod Same
use sql_server_analyze.Common.{
  ℕ, zero, suc, ◌+◌, ◌-◌, ◌*◌, ◌/◌, ◌%◌, ◌^◌, ◌≤◌, ◌<◌, min, max, String, ◌≡◌, ◌≢◌, ◌↔◌, ◌⊎◌, inl,
  inr, refl, sym, ap, ◌∙◌, subst, ◌&&◌, ◌||◌, not, Bool, true, false, List, [], ◌∷◌, ◌++◌, map,
  reverse, append-nil, append_assoc, Option, none, some, arith, ◌==◌, ltb, leb, if◌then◌else◌,
  Bool-cases, &&_left, &&_right, ==→eq, ==_refl, pos→nonzero, nonzero→pos, ltb→lt, lt→ltb, leb→le,
  le→leb, length, length-append, get_elem?, take, drop, is_empty, any, all, select, All, Some,
  All-append, Some-append, Some-reverse, All-reverse, ⊎-map, ⊎-map_left, ⊎-comm, ⊎-assoc, ⊎-unassoc,
  ⊎-rotate,
}
use sql_server_analyze.Text.{Text, codes, text_eq, option_text_eq, member}
use sql_server_analyze.RuleCache.Texts.{sorted_set, texts_eq}
use sql_server_analyze.RuleCache.Graph.{Graph, dependent_closure}
use sql_server_analyze.RuleCache.Record.{
  GitFingerprint, Source, Sources, Repository, Discovery, Scope, Body, CacheRecord, Hashed, lookup,
  paths_of, graph_of, cache_record_key,
}

pub data Status : Type 0 where
  cache_hit partial_invalidation cache_miss : Status

-- The payload; the fields copied from the record are read from it.
pub record Plan : Type 0 where
  pub status : Status
  pub reason_codes : List Text
  pub record_key : Text
  pub planned : Body
  pub reanalyze : List Text
  pub reuse : List Text
  pub analysis_keys : List (Text × Text)
  pub fingerprint_source_count : ℕ
  pub analysis_full_read_count : ℕ

-- `SnapshotResult`
pub record Snapshot : Type 0 where
  pub captured : CacheRecord
  pub complete : Bool
  pub reason_codes : List Text

abbrev pub bool_eq : Bool → Bool → Bool
bool_eq true b = b
bool_eq false b = not b

abbrev pub git_eq : GitFingerprint → GitFingerprint → Bool
git_eq a b =
    option_text_eq a.head_blob_id b.head_blob_id
    && option_text_eq a.index_blob_id b.index_blob_id
    && texts_eq a.working_tree_state b.working_tree_state

abbrev pub discovery_eq : Discovery → Discovery → Bool
discovery_eq a b =
    bool_eq a.global_scope_included b.global_scope_included
    && texts_eq a.fallback_filenames b.fallback_filenames
    && (a.project_doc_max_bytes == b.project_doc_max_bytes)
    && option_text_eq a.discovery_config_tag_sha256 b.discovery_config_tag_sha256

-- `if test: reasons.append(reason)`
abbrev pub reason_if : Bool → Text → List Text
reason_if true reason = reason ∷ []
reason_if false reason = []

-- The identity, the scope and the chain.
pub identity_reasons : Body → Body → List Text
identity_reasons previous current =
    let p = previous.repository in
    let c = current.repository in
    reason_if (not (text_eq p.repository_id c.repository_id)) (codes "REPOSITORY_CHANGED")
    ++ (reason_if (not (text_eq p.canonical_root_digest c.canonical_root_digest))
          (codes "CANONICAL_ROOT_CHANGED")
        ++ (reason_if (not (text_eq p.worktree_id c.worktree_id)) (codes "WORKTREE_CHANGED")
            ++ (reason_if (not (text_eq p.git_common_dir_digest c.git_common_dir_digest))
                  (codes "WORKTREE_CHANGED")
                ++ (reason_if (not (text_eq previous.scope.cwd current.scope.cwd))
                      (codes "WORKING_DIRECTORY_CHANGED")
                    ++ (reason_if
                          (not (discovery_eq previous.scope.discovery current.scope.discovery))
                          (codes "DISCOVERY_CONFIGURATION_CHANGED")
                        ++ reason_if
                            (not (
                              texts_eq previous.scope.instruction_chain
                                current.scope.instruction_chain))
                            (codes "INSTRUCTION_CHAIN_CHANGED"))))))

-- A test on the two entries of a path; where one is missing, the path is in `added` or `removed`.
abbrev pub differs : (Source → Source → Bool) → Option Source → Option Source → Bool
differs test (some old) (some new) = test old new
differs test _ _ = false

abbrev pub dependency_test : Source → Source → Bool
dependency_test old new =
    not (text_eq old.source_kind new.source_kind)
    || not (texts_eq old.dependencies new.dependencies)

abbrev pub content_test : Source → Source → Bool
content_test old new =
    not (text_eq old.semantic_sha256 new.semantic_sha256)
    || not (text_eq old.normalization new.normalization)

abbrev pub normalized_text : Text
normalized_text = codes "UTF8_CRLF_LF_NORMALIZED"

-- `raw_eol_only`
abbrev pub eol_only : Source → Source → Bool
eol_only old new =
    not (text_eq old.raw_sha256 new.raw_sha256)
    && text_eq old.semantic_sha256 new.semantic_sha256
    && text_eq old.normalization normalized_text
    && text_eq new.normalization normalized_text

abbrev pub git_test : Source → Source → Bool
git_test old new = not (git_eq old.git new.git) && not (eol_only old new)

abbrev pub equivalent_test : Source → Source → Bool
equivalent_test old new = not (content_test old new) && not (text_eq old.raw_sha256 new.raw_sha256)

-- `{path for path in new_paths if test}`
abbrev pub changed_paths : (Source → Source → Bool) → Sources → Sources → List Text
changed_paths test old new =
    select (λ path. differs test (lookup path old) (lookup path new)) (paths_of new)

-- `a - b` on sets.
abbrev pub without : List Text → List Text → List Text
without a b = select (λ t. not (member t b)) a

-- `a & b` on sets.
abbrev pub common : List Text → List Text → List Text
common a b = select (λ t. member t b) a

abbrev pub keys_of : Sources → List (Text × Text)
keys_of [] = []
keys_of ((path, s) ∷ sources) = (path, s.analysis_key) ∷ keys_of sources

-- `{sources[path]["semantic_sha256"] for path in paths}`
abbrev pub hashes_of : List Text → Sources → List Text
hashes_of [] sources = []
hashes_of (path ∷ paths) sources = elim (lookup path sources) [
  | some s ↦ s.semantic_sha256 ∷ hashes_of paths sources
  | none ↦ hashes_of paths sources
]

-- `read_reason or "CACHE_RECORD_NOT_FOUND"`, and the reason added where no record was found.
pub missing_reasons : Option Text → List Text
missing_reasons none = codes "CACHE_RECORD_NOT_FOUND" ∷ codes "SCOPE_UNKNOWN" ∷ []
missing_reasons (some reason) =
    reason ∷ reason_if (text_eq reason (codes "CACHE_RECORD_NOT_FOUND")) (codes "SCOPE_UNKNOWN")

module _ (sha256_json : Hashed → Text) (current : Body) where
  -- `_plan_payload`
  pub plan_payload : Status → List Text → List Text → List Text → Plan
  plan_payload status reasons reanalyze reuse = record {
    status = status;
    reason_codes = sorted_set reasons;
    record_key = cache_record_key sha256_json current;
    planned = current;
    reanalyze = reanalyze;
    reuse = reuse;
    analysis_keys = keys_of current.sources;
    fingerprint_source_count = length current.sources;
    analysis_full_read_count = length reanalyze;
  }

  -- `sorted(current_sources)`
  abbrev pub all_current : List Text
  all_current = sorted_set (paths_of current.sources)

  pub full_miss : List Text → Plan
  unfolding plan_payload
  full_miss reasons = plan_payload Status.cache_miss reasons all_current []

  -- The plan when some sources were invalidated.
  pub invalidation : (content git changed : List Text) → Option (List Text) → Plan
  unfolding full_miss
  invalidation content git changed none = full_miss []
  invalidation content git changed (some invalidated) =
      plan_payload Status.partial_invalidation
        (reason_if (not (is_empty content)) (codes "RULE_CONTENT_CHANGED")
          ++ (reason_if (not (is_empty git)) (codes "RULE_GIT_STATE_CHANGED")
              ++ reason_if (not (is_empty (without invalidated changed)))
                  (codes "TRANSITIVE_DEPENDENT_INVALIDATED")))
        (sorted_set invalidated) (sorted_set (without (paths_of current.sources) invalidated))

  -- Behind the tests on the instructions.
  pub compare_contents : Body → Plan
  unfolding invalidation
  compare_contents previous =
      let content = changed_paths content_test previous.sources current.sources in
      let git = changed_paths git_test previous.sources current.sources in
      if is_empty (content ++ git)
      then plan_payload Status.cache_hit
          (codes "CACHE_RECORD_VALID"
            ∷ reason_if
                (not (is_empty (changed_paths equivalent_test previous.sources current.sources)))
                (codes "EOL_REPRESENTATION_EQUIVALENT"))
          [] all_current
      else invalidation content git (content ++ git)
          (dependent_closure (content ++ git) (graph_of current.sources))

  -- The sets of paths are the same.
  pub compare_same_paths : Body → Plan
  unfolding compare_contents
  compare_same_paths previous =
      let content = changed_paths content_test previous.sources current.sources in
      let git = changed_paths git_test previous.sources current.sources in
      if not (is_empty (changed_paths dependency_test previous.sources current.sources))
      then full_miss (codes "DEPENDENCY_GRAPH_CHANGED" ∷ [])
      else if not (is_empty (common (content ++ git) current.scope.instruction_chain))
      then full_miss (
          codes "INSTRUCTION_CONTENT_OR_GIT_STATE_CHANGED"
          ∷ codes "INSTRUCTION_CHAIN_FULL_INVALIDATION"
          ∷ [])
      else compare_contents previous

  pub compare_sources : Body → Plan
  unfolding compare_same_paths
  compare_sources previous =
      let added = without (paths_of current.sources) (paths_of previous.sources) in
      let removed = without (paths_of previous.sources) (paths_of current.sources) in
      if is_empty added && is_empty removed
      then compare_same_paths previous
      else full_miss (
          codes "SOURCE_SET_CHANGED"
          ∷ (reason_if (not (is_empty added)) (codes "SOURCE_ADDED")
              ++ (reason_if (not (is_empty removed)) (codes "SOURCE_REMOVED")
                  ++ (reason_if
                        (not (
                          is_empty (
                            changed_paths
                              (λ old new. not (texts_eq old.dependencies new.dependencies))
                              previous.sources current.sources)))
                        (codes "DEPENDENCY_GRAPH_CHANGED")
                      ++ reason_if
                          (not (
                            is_empty (
                              common (hashes_of removed previous.sources)
                                (hashes_of added current.sources))))
                          (codes "SOURCE_RENAMED_OR_MOVED")))))

  pub compare_previous : Body → Plan
  unfolding compare_sources identity_reasons
  compare_previous previous =
      if is_empty (identity_reasons previous current)
      then compare_sources previous
      else full_miss (identity_reasons previous current)

abbrev pub compare_read : (Hashed → Text) → Body → Option Body → Option Text → Plan
compare_read sha256_json current none reason =
    full_miss sha256_json current (missing_reasons reason)
compare_read sha256_json current (some previous) reason =
    compare_previous sha256_json current previous

unfoldable pub compare_records : (Hashed → Text) → Option Body → Snapshot → Option Text → Plan
unfolding compare_previous full_miss
compare_records sha256_json previous current reason =
    if current.complete
    then compare_read sha256_json current.captured.body previous reason
    else full_miss sha256_json current.captured.body current.reason_codes
