-- ===== src/RuleCache/Tests.antt =====
-- The cache of rule analyses on a repository of two files, and instances of the theorems.
mod Runs
mod Walks
use sql_server_analyze.Common.{
  ℕ, zero, suc, ◌+◌, ◌-◌, ◌*◌, ◌/◌, ◌%◌, ◌^◌, ◌≤◌, ◌<◌, min, max, String, ◌≡◌, ◌≢◌, ◌↔◌, ◌⊎◌, inl,
  inr, refl, sym, ap, ◌∙◌, subst, ◌&&◌, ◌||◌, not, Bool, true, false, List, [], ◌∷◌, ◌++◌, map,
  reverse, append-nil, append_assoc, Option, none, some, arith, ◌==◌, ltb, leb, if◌then◌else◌,
  Bool-cases, &&_left, &&_right, ==→eq, ==_refl, pos→nonzero, nonzero→pos, ltb→lt, lt→ltb, leb→le,
  le→leb, length, length-append, get_elem?, take, drop, is_empty, any, all, select, All, Some,
  All-append, Some-append, Some-reverse, All-reverse, ⊎-map, ⊎-map_left, ⊎-comm, ⊎-assoc, ⊎-unassoc,
  ⊎-rotate,
}
use sql_server_analyze.Text.{
  Text, codes, text_eq, text_eq→eq, text_eq_refl, member, starts_with, split,
}
use sql_server_analyze.RuleCache.Texts.{In, sorted_set}
use sql_server_analyze.RuleCache.Graph.{Graph, targets, transitive_dependencies, dependent_closure}
use sql_server_analyze.RuleCache.Graph.Reaching.{Reach}
use sql_server_analyze.RuleCache.Graph.Transitive.{transitive_dependencies-Reach}
use sql_server_analyze.RuleCache.Graph.Dependents.{Affected, dependent_closure-Affected}
use sql_server_analyze.RuleCache.Record.{
  GitFingerprint, Source, Sources, Repository, Discovery, Hashed, of_worktree, of_cwd, of_context,
  of_source, of_identity, of_body,
}
use sql_server_analyze.RuleCache.Validate.{is_digest, is_record_path}
use sql_server_analyze.RuleCache.Capture.{Location, Discovered}
use sql_server_analyze.RuleCache.Capture.Valid.{located, IsDiscovery}

abbrev repeated : ℕ → ℕ → Text
repeated zero c = []
repeated (suc n) c = c ∷ repeated n c

abbrev pub a_path : Text
a_path = codes "AGENTS.md"

abbrev pub b_path : Text
b_path = codes "b.md"

abbrev pub two_files : Graph
two_files = (a_path, b_path ∷ []) ∷ (b_path, []) ∷ []

found_dependency : transitive_dependencies a_path two_files ≡ some (b_path ∷ [])
unfolding transitive_dependencies member
found_dependency = refl

found_dependent : dependent_closure (b_path ∷ []) two_files ≡ some (a_path ∷ b_path ∷ [])
unfolding dependent_closure member
found_dependent = refl

transitive_dependencies-Reach_example :
    (r : List Text) × (transitive_dependencies a_path two_files ≡ some r)
    × ((v : Text) → In v r ↔ (Reach (targets two_files) a_path v × (v ≢ a_path)))
transitive_dependencies-Reach_example = transitive_dependencies-Reach a_path two_files

dependent_closure-Affected_example :
    (r : List Text) × (dependent_closure (b_path ∷ []) two_files ≡ some r)
    × ((v : Text) → In v r ↔ Affected (b_path ∷ []) two_files v)
unfolding member
dependent_closure-Affected_example =
    dependent_closure-Affected (b_path ∷ []) two_files (refl, (refl, tt))

refused_path : is_record_path true (codes "a/../b.md") ≡ false
unfolding is_record_path starts_with split member
refused_path = refl

-- A hash that gives digests, and tells the contents of a source apart.
abbrev pub toy_hash : Hashed → Text
toy_hash (of_worktree root common) = repeated 64 b'1'
toy_hash (of_cwd cwd) = repeated 64 b'2'
toy_hash (of_context cwd chain discovery) = repeated 64 b'3'
toy_hash (of_source context path semantic dependencies) =
    if text_eq path a_path then repeated 64 b'4' else repeated 64 b'5'
toy_hash (of_identity repository worktree scope) = repeated 64 b'6'
toy_hash (of_body body) = repeated 64 b'7'

pub toy_hash-is_digest : (h : Hashed) → is_digest (toy_hash h) ≡ true
unfolding is_digest
toy_hash-is_digest (of_worktree root common) = refl
toy_hash-is_digest (of_cwd cwd) = refl
toy_hash-is_digest (of_context cwd chain discovery) = refl
toy_hash-is_digest (of_source context path semantic dependencies) =
    elim (Bool-cases (text_eq path a_path)) [ inl t ↦ rw t refl | inr t ↦ rw t refl ]
toy_hash-is_digest (of_identity repository worktree scope) = refl
toy_hash-is_digest (of_body body) = refl

abbrev pub located_file : Text → Bool → Location
located_file path instruction = record {
  canonical_path = path;
  source_kind = if instruction then codes "instruction" else codes "rule";
  instruction_scope = if instruction then some (codes "repository") else none;
  precedence = if instruction then some 0 else none;
}

abbrev fingerprint_of : Location → Source
fingerprint_of l = record {
  source_kind = l.source_kind;
  raw_sha256 = repeated 64 b'a';
  semantic_sha256 = repeated 64 b'b';
  size_bytes = 3;
  normalization = codes "UTF8_CRLF_LF_NORMALIZED";
  git = record {
    head_blob_id = none;
    index_blob_id = none;
    working_tree_state = codes "UNTRACKED" ∷ [];
  };
  dependencies = [];
  analysis_key = [];
  instruction_scope = l.instruction_scope;
  precedence = l.precedence;
}

abbrev pub two_found : Discovered
two_found = record {
  identity = record {
    repository_id = repeated 64 b'0';
    identity_method = codes "unborn_root_digest_sha256";
    canonical_root_digest = repeated 64 b'0';
    worktree_id = repeated 64 b'1';
    git_common_dir_digest = repeated 64 b'0';
  };
  cwd_relative = codes ".";
  chain = located_file a_path true ∷ [];
  locations = (b_path, located_file b_path false) ∷ (a_path, located_file a_path true) ∷ [];
  graph = two_files;
  discovery = record {
    global_scope_included = false;
    fallback_filenames = [];
    project_doc_max_bytes = 32768;
    discovery_config_tag_sha256 = none;
  };
  reasons = [];
  fingerprint_source = fingerprint_of;
}

pub two_found-IsDiscovery : IsDiscovery two_found
unfolding targets member sorted_set
two_found-IsDiscovery = record { ordered = in_order; outside = located_only }
  where
    in_order : (q : Text) → sorted_set (targets two_files q) ≡ targets two_files q
    in_order q = elim (Bool-cases (text_eq a_path q)) [
      | inl t ↦ rw t refl
      | inr t ↦
          rw t (elim (Bool-cases (text_eq b_path q)) [ inl u ↦ rw u refl | inr u ↦ rw u refl ])
    ]

    located_only :
        (q : Text) → member q (located two_found.locations) ≡ false → targets two_files q ≡ []
    located_only q h = elim (Bool-cases (text_eq a_path q)) [
      | inl t ↦ let same : a_path ≡ q = text_eq→eq a_path q t in cc (rw (← same) at h)
      | inr t ↦
          rw t (elim (Bool-cases (text_eq b_path q)) [ inl u ↦ rw u refl | inr u ↦ rw u refl ])
    ]
