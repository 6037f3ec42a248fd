-- ===== src/RuleCache/Record.antt =====
-- The records of the cache, their keys, and what is hashed.
pub mod Lookup
pub mod Closure
pub mod Fingerprints
use sql_server_analyze.Common.{
  ℕ, zero, suc, ◌+◌, ◌-◌, ◌*◌, ◌/◌, ◌%◌, ◌^◌, ◌≤◌, ◌<◌, min, max, String, ◌≡◌, ◌≢◌, ◌↔◌, ◌⊎◌, inl,
  inr, refl, sym, ap, ◌∙◌, subst, ◌&&◌, ◌||◌, not, Bool, true, false, List, [], ◌∷◌, ◌++◌, map,
  reverse, append-nil, append_assoc, Option, none, some, arith, ◌==◌, ltb, leb, if◌then◌else◌,
  Bool-cases, &&_left, &&_right, ==→eq, ==_refl, pos→nonzero, nonzero→pos, ltb→lt, lt→ltb, leb→le,
  le→leb, length, length-append, get_elem?, take, drop, is_empty, any, all, select, All, Some,
  All-append, Some-append, Some-reverse, All-reverse, ⊎-map, ⊎-map_left, ⊎-comm, ⊎-assoc, ⊎-unassoc,
  ⊎-rotate,
}
use sql_server_analyze.Text.{Text, codes, text_eq, option_text_eq}
use sql_server_analyze.RuleCache.Texts.{sorted_set, texts_eq}
use sql_server_analyze.RuleCache.Graph.{Graph, targets, transitive_dependencies}

-- `git` of a source.
pub record GitFingerprint : Type 0 where
  pub head_blob_id : Option Text
  pub index_blob_id : Option Text
  pub working_tree_state : List Text

-- An entry of `sources`; an instruction has a scope and a precedence.
pub record Source : Type 0 where
  pub source_kind : Text
  pub raw_sha256 : Text
  pub semantic_sha256 : Text
  pub size_bytes : ℕ
  pub normalization : Text
  pub git : GitFingerprint
  pub dependencies : List Text
  pub analysis_key : Text
  pub instruction_scope : Option Text
  pub precedence : Option ℕ

abbrev pub Sources : Type 0
Sources = List (Text × Source)

pub record Repository : Type 0 where
  pub repository_id : Text
  pub identity_method : Text
  pub canonical_root_digest : Text
  pub worktree_id : Text
  pub git_common_dir_digest : Text

pub record Discovery : Type 0 where
  pub global_scope_included : Bool
  pub fallback_filenames : List Text
  pub project_doc_max_bytes : ℕ
  pub discovery_config_tag_sha256 : Option Text

pub record Scope : Type 0 where
  pub scope_id : Text
  pub cwd : Text
  pub instruction_chain : List Text
  pub discovery : Discovery

-- A record without its digest; the fixed fields (contract, generator, policy) are left out.
pub record Body : Type 0 where
  pub repository : Repository
  pub scope : Scope
  pub sources : Sources

pub record CacheRecord : Type 0 where
  pub body : Body
  pub record_digest : Text

pub record InstructionFingerprint : Type 0 where
  pub path : Text
  pub semantic_sha256 : Text
  pub precedence : Option ℕ

pub record DependencyFingerprint : Type 0 where
  pub path : Text
  pub semantic_sha256 : Text
  pub dependencies : List Text

-- The values that `_sha256_json` is called with, one constructor for each shape.
pub data Hashed : Type 0 where
  of_worktree : (canonical_root_digest git_common_dir_digest : Text) → Hashed
  of_cwd : Text → Hashed
  of_context : (cwd : Text) → List InstructionFingerprint → Discovery → Hashed
  of_source : (scope_context path semantic_sha256 : Text) → List DependencyFingerprint → Hashed
  of_identity : (repository_id worktree_id scope_id : Text) → Hashed
  of_body : Body → Hashed

-- `sources.get(path)`
unfoldable pub lookup : Text → Sources → Option Source
lookup path [] = none
lookup path ((k, s) ∷ sources) =
    let rest = lookup path sources in if text_eq k path then some s else rest

abbrev pub paths_of : Sources → List Text
paths_of sources = map (λ (x : Text × Source). x.0) sources

-- `{path: set(source["dependencies"]) for path, source in sources.items()}`
abbrev pub graph_of : Sources → Graph
graph_of [] = []
graph_of ((path, s) ∷ sources) = (path, s.dependencies) ∷ graph_of sources

abbrev pub found : Option (List Text) → List Text
found none = []
found (some r) = sorted_set r

-- `sorted(_transitive_dependencies(path, graph))`
unfoldable pub closure_of : Text → Graph → List Text
unfolding transitive_dependencies
closure_of path g = found (transitive_dependencies path g)

abbrev pub instruction_entry :
    Text → Option Source → List InstructionFingerprint → List InstructionFingerprint
instruction_entry path none rest = rest
instruction_entry path (some s) rest =
    record { path = path; semantic_sha256 = s.semantic_sha256; precedence = s.precedence } ∷ rest

-- `instruction_fingerprint`; every instruction of the chain is a source.
unfoldable pub instruction_fingerprints : List Text → Sources → List InstructionFingerprint
unfolding lookup
instruction_fingerprints [] sources = []
instruction_fingerprints (path ∷ chain) sources =
    instruction_entry path (lookup path sources) (instruction_fingerprints chain sources)

abbrev pub dependency_entry :
    Text → Option Source → List DependencyFingerprint → List DependencyFingerprint
dependency_entry path none rest = rest
dependency_entry path (some s) rest =
    record { path = path; semantic_sha256 = s.semantic_sha256; dependencies = s.dependencies }
    ∷ rest

-- `dependency_fingerprints`, for the dependencies that are sources.
unfoldable pub dependency_fingerprints : List Text → Sources → List DependencyFingerprint
unfolding lookup
dependency_fingerprints [] sources = []
dependency_fingerprints (path ∷ closure) sources =
    dependency_entry path (lookup path sources) (dependency_fingerprints closure sources)

module _ (sha256_json : Hashed → Text) where
  unfoldable pub scope_context : Body → Text
  unfolding instruction_fingerprints
  scope_context b = sha256_json (
      of_context b.scope.cwd (instruction_fingerprints b.scope.instruction_chain b.sources)
        b.scope.discovery)

  -- The key that `_finalize_record` computes, and `_validate_record_shape` expects.
  unfoldable pub expected_key : Body → Text → Source → Text
  unfolding scope_context closure_of dependency_fingerprints
  expected_key b path s = sha256_json (
      of_source (scope_context b) path s.semantic_sha256
        (dependency_fingerprints (closure_of path (graph_of b.sources)) b.sources))

  -- `cache_record_key`
  unfoldable pub cache_record_key : Body → Text
  cache_record_key b =
      codes "v1/"
      ++ sha256_json
          (of_identity b.repository.repository_id b.repository.worktree_id b.scope.scope_id)
      ++ codes ".json"
