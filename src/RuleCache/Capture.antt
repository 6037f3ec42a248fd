-- ===== src/RuleCache/Capture.antt =====
-- `_finalize_record`, `_capture_once` and `capture_snapshot`.
pub mod Keys
pub mod Valid
use sql_server_analyze.Common.{
  ℕ, zero, suc, ◌+◌, ◌-◌, ◌*◌, ◌/◌, ◌%◌, ◌^◌, ◌≤◌, ◌<◌, min, max, String, ◌≡◌, ◌≢◌, ◌↔◌, ◌⊎◌, inl,
  inr, refl, sym, ap, ◌∙◌, subst, ◌&&◌, ◌||◌, not, Bool, true, false, List, [], ◌∷◌, ◌++◌, map,
  reverse, append-nil, append_assoc, Option, none, some, arith, ◌==◌, ltb, leb, if◌then◌else◌,
  Bool-cases, &&_left, &&_right, ==→eq, ==_refl, pos→nonzero, nonzero→pos, ltb→lt, lt→ltb, leb→le,
  le→leb, length, length-append, get_elem?, take, drop, is_empty, any, all, select, All, Some,
  All-append, Some-append, Some-reverse, All-reverse, ⊎-map, ⊎-map_left, ⊎-comm, ⊎-assoc, ⊎-unassoc,
  ⊎-rotate,
}
use sql_server_analyze.Text.{Text, codes, text_eq, member}
use sql_server_analyze.RuleCache.Texts.{text_leb, sorted_set}
use sql_server_analyze.RuleCache.Graph.{Graph, targets}
use sql_server_analyze.RuleCache.Record.{
  Source, Sources, Repository, Discovery, Scope, Body, CacheRecord, Hashed, of_cwd, of_source,
  of_body, dependency_fingerprints, closure_of, scope_context,
}
use sql_server_analyze.RuleCache.Compare.{Snapshot}

-- `SourceLocation`; the path in the file system is left to the parameter that reads the file.
pub record Location : Type 0 where
  pub canonical_path : Text
  pub source_kind : Text
  pub instruction_scope : Option Text
  pub precedence : Option ℕ

-- What one discovery finds, as `_capture_once` has it in hand; `fingerprint_source` reads the files.
pub record Discovered : Type 0 where
  pub identity : Repository
  pub cwd_relative : Text
  pub chain : List Location
  pub locations : List (Text × Location)
  pub graph : Graph
  pub discovery : Discovery
  pub reasons : List Text
  pub fingerprint_source : Location → Source

abbrev pub set_dependencies : Source → List Text → Source
set_dependencies s dependencies = record {
  source_kind = s.source_kind;
  raw_sha256 = s.raw_sha256;
  semantic_sha256 = s.semantic_sha256;
  size_bytes = s.size_bytes;
  normalization = s.normalization;
  git = s.git;
  dependencies = dependencies;
  analysis_key = s.analysis_key;
  instruction_scope = s.instruction_scope;
  precedence = s.precedence;
}

abbrev pub set_key : Source → Text → Source
set_key s key = record {
  source_kind = s.source_kind;
  raw_sha256 = s.raw_sha256;
  semantic_sha256 = s.semantic_sha256;
  size_bytes = s.size_bytes;
  normalization = s.normalization;
  git = s.git;
  dependencies = s.dependencies;
  analysis_key = key;
  instruction_scope = s.instruction_scope;
  precedence = s.precedence;
}

pub insert_location : Text × Location → List (Text × Location) → List (Text × Location)
insert_location x [] = x ∷ []
insert_location (p, l) ((q, m) ∷ items) =
    let rest = insert_location (p, l) items in
    if text_leb p q then (p, l) ∷ (q, m) ∷ items else (q, m) ∷ rest

-- `sorted(locations.items())`
unfoldable pub sorted_locations : List (Text × Location) → List (Text × Location)
unfolding insert_location
sorted_locations [] = []
sorted_locations (x ∷ items) = insert_location x (sorted_locations items)

-- The first two loops over the sources.
unfoldable pub fingerprinted : (Location → Source) → Graph → List (Text × Location) → Sources
unfolding targets
fingerprinted fingerprint_source graph [] = []
fingerprinted fingerprint_source graph ((path, l) ∷ items) =
    (path, set_dependencies (fingerprint_source l) (sorted_set (targets graph path)))
    ∷ fingerprinted fingerprint_source graph items

abbrev pub chain_paths : List Location → List Text
chain_paths chain = map (λ (l : Location). l.canonical_path) chain

module _ (sha256_json : Hashed → Text) where
  -- The record before its keys are set.
  abbrev pub unkeyed : Discovered → Body
  unkeyed d = record {
    repository = d.identity;
    scope = record {
      scope_id = sha256_json (of_cwd d.cwd_relative);
      cwd = d.cwd_relative;
      instruction_chain = chain_paths d.chain;
      discovery = d.discovery;
    };
    sources = fingerprinted d.fingerprint_source d.graph (sorted_locations d.locations);
  }

  abbrev pub analysis_key_of : Body → Graph → Text → Source → Text
  analysis_key_of b graph path s = sha256_json (
      of_source (scope_context sha256_json b) path s.semantic_sha256
        (dependency_fingerprints (closure_of path graph) b.sources))

  -- The loop that sets the keys; it reads no key.
  unfoldable pub keyed_sources : Body → Graph → Sources → Sources
  unfolding scope_context dependency_fingerprints closure_of
  keyed_sources b graph [] = []
  keyed_sources b graph ((path, s) ∷ sources) =
      (path, set_key s (analysis_key_of b graph path s)) ∷ keyed_sources b graph sources

  abbrev pub keyed_body : Body → Graph → Body
  keyed_body b graph = record {
    repository = b.repository;
    scope = b.scope;
    sources = keyed_sources b graph b.sources;
  }

  -- `_finalize_record`
  unfoldable pub finalize_record : Discovered → CacheRecord
  unfolding fingerprinted sorted_locations keyed_sources
  finalize_record d =
      let body = keyed_body (unkeyed d) d.graph in
      record { body = body; record_digest = sha256_json (of_body body) }

  -- `_capture_once`
  unfoldable pub capture_once : Discovered → Snapshot
  unfolding finalize_record
  capture_once d =
      let unique_reasons = sorted_set d.reasons in
      record {
        captured = finalize_record d;
        complete = is_empty unique_reasons;
        reason_codes = unique_reasons;
      }

  -- `capture_snapshot`, for what the two discoveries find.
  unfoldable pub capture_snapshot : Discovered → Discovered → Snapshot
  unfolding capture_once
  capture_snapshot found_first found_second =
      let first = capture_once found_first in
      let second = capture_once found_second in
      if not first.complete
      then first
      else if not (text_eq first.captured.record_digest second.captured.record_digest)
      then record {
        captured = second.captured;
        complete = false;
        reason_codes = codes "SOURCE_CHANGED_DURING_DISCOVERY" ∷ [];
      }
      else second
