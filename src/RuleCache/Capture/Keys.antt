-- ===== src/RuleCache/Capture/Keys.antt =====
-- A record that was just made passes the tests on its hashes.
use sql_server_analyze.Common.{
  ◌≡◌, inl, inr, refl, ap, ◌∙◌, ◌&&◌, Bool, true, List, [], ◌∷◌, Option, none, some, Bool-cases,
}
use sql_server_analyze.Text.{Text, text_eq, text_eq_refl}
use sql_server_analyze.RuleCache.Graph.{Graph, targets}
use sql_server_analyze.RuleCache.Record.{
  Source, Sources, Body, Hashed, InstructionFingerprint, DependencyFingerprint, of_context,
  of_source, lookup, graph_of, closure_of, instruction_entry, instruction_fingerprints,
  dependency_entry, dependency_fingerprints, scope_context, expected_key,
}
use sql_server_analyze.RuleCache.Record.Closure.{closure_of-targets}
use sql_server_analyze.RuleCache.Validate.{is_digest}
use sql_server_analyze.RuleCache.Validate.Record.{every_source, keys_are_valid}
use sql_server_analyze.RuleCache.Capture.{set_key, analysis_key_of, keyed_sources, keyed_body}

module _ (sha256_json : Hashed → Text) (b : Body) (graph : Graph) where
  -- Setting the keys leaves the graph as it is, and what the fingerprints read.
  graph_of-keyed_sources :
      (ss : Sources) → graph_of (keyed_sources sha256_json b graph ss) ≡ graph_of ss
  unfolding keyed_sources
  graph_of-keyed_sources [] = refl
  graph_of-keyed_sources ((path, s) ∷ ss) =
      ap (λ g. (path, s.dependencies) ∷ g) (graph_of-keyed_sources ss)

  abbrev SameButKey : Option Source → Option Source → Type 0
  SameButKey none none = Unit
  SameButKey (some s) (some t) = (key : Text) × (t ≡ set_key s key)
  SameButKey _ _ = ⊥

  lookup-keyed_sources :
      (q : Text) (ss : Sources)
      → SameButKey (lookup q ss) (lookup q (keyed_sources sha256_json b graph ss))
  unfolding keyed_sources lookup
  lookup-keyed_sources q [] = tt
  lookup-keyed_sources q ((path, s) ∷ ss) = elim (Bool-cases (text_eq path q)) [
    | inl t ↦ rw t (analysis_key_of sha256_json b graph path s, refl)
    | inr t ↦ rw t (lookup-keyed_sources q ss)
  ]

  instruction_fingerprints-keyed_sources :
      (chain : List Text) (ss : Sources)
      → instruction_fingerprints chain (keyed_sources sha256_json b graph ss)
        ≡ instruction_fingerprints chain ss
  unfolding instruction_fingerprints
  instruction_fingerprints-keyed_sources [] ss = refl
  instruction_fingerprints-keyed_sources (path ∷ chain) ss =
      entry_eq (lookup path ss) (lookup path (keyed_sources sha256_json b graph ss))
        (lookup-keyed_sources path ss)
        (instruction_fingerprints chain (keyed_sources sha256_json b graph ss))
      ∙ ap (instruction_entry path (lookup path ss))
          (instruction_fingerprints-keyed_sources chain ss)
    where
      entry_eq :
          (x y : Option Source)
          → SameButKey x y
          → (rest : List InstructionFingerprint)
          → instruction_entry path y rest ≡ instruction_entry path x rest
      entry_eq none none h rest = refl
      entry_eq none (some t) h rest = absurd h
      entry_eq (some s) none h rest = absurd h
      entry_eq (some s) (some t) (key, e) rest = rw e refl

  dependency_fingerprints-keyed_sources :
      (closure : List Text) (ss : Sources)
      → dependency_fingerprints closure (keyed_sources sha256_json b graph ss)
        ≡ dependency_fingerprints closure ss
  unfolding dependency_fingerprints
  dependency_fingerprints-keyed_sources [] ss = refl
  dependency_fingerprints-keyed_sources (path ∷ closure) ss =
      entry_eq (lookup path ss) (lookup path (keyed_sources sha256_json b graph ss))
        (lookup-keyed_sources path ss)
        (dependency_fingerprints closure (keyed_sources sha256_json b graph ss))
      ∙ ap (dependency_entry path (lookup path ss))
          (dependency_fingerprints-keyed_sources closure ss)
    where
      entry_eq :
          (x y : Option Source)
          → SameButKey x y
          → (rest : List DependencyFingerprint)
          → dependency_entry path y rest ≡ dependency_entry path x rest
      entry_eq none none h rest = refl
      entry_eq none (some t) h rest = absurd h
      entry_eq (some s) none h rest = absurd h
      entry_eq (some s) (some t) (key, e) rest = rw e refl

  -- The key that is set is the one that a reader expects.
  expected_key-keyed_body :
      targets (graph_of b.sources) ≡ targets graph
      → (path : Text) (s : Source) (key : Text)
      → expected_key sha256_json (keyed_body sha256_json b graph) path (set_key s key)
        ≡ analysis_key_of sha256_json b graph path s
  unfolding expected_key scope_context
  expected_key-keyed_body same path s key =
      let closures =
        closure_of-targets path (graph_of (keyed_sources sha256_json b graph b.sources)) graph
          (ap targets (graph_of-keyed_sources b.sources) ∙ same) in
      let chain = instruction_fingerprints-keyed_sources b.scope.instruction_chain b.sources in
      let dependencies = dependency_fingerprints-keyed_sources (closure_of path graph) b.sources in
      let fingerprints =
        ap
          (λ (c : List Text).
            dependency_fingerprints c (keyed_sources sha256_json b graph b.sources))
          closures
        ∙ dependencies in
      λ i. sha256_json (
        of_source (sha256_json (of_context b.scope.cwd (chain i) b.scope.discovery)) path
          s.semantic_sha256 (fingerprints i))

  every_source-keyed_sources :
      (test : Text → Source → Bool)
      → ((path : Text) (s : Source)
          → test path (set_key s (analysis_key_of sha256_json b graph path s)) ≡ true)
      → (ss : Sources) → every_source test (keyed_sources sha256_json b graph ss) ≡ true
  unfolding keyed_sources
  every_source-keyed_sources test h [] = refl
  every_source-keyed_sources test h ((path, s) ∷ ss) =
      rw (h path s) (every_source-keyed_sources test h ss)

  pub keyed_body-keys_are_valid :
      ((h : Hashed) → is_digest (sha256_json h) ≡ true)
      → targets (graph_of b.sources) ≡ targets graph
      → keys_are_valid sha256_json (keyed_body sha256_json b graph) ≡ true
  unfolding keys_are_valid
  keyed_body-keys_are_valid digests same =
      every_source-keyed_sources
        (λ path s.
          is_digest s.analysis_key
          && text_eq s.analysis_key
              (expected_key sha256_json (keyed_body sha256_json b graph) path s))
        (λ path s.
          both
            (digests (
              of_source (scope_context sha256_json b) path s.semantic_sha256
                (dependency_fingerprints (closure_of path graph) b.sources)))
            (rw (expected_key-keyed_body same path s (analysis_key_of sha256_json b graph path s))
              (text_eq_refl (analysis_key_of sha256_json b graph path s))))
        b.sources
    where
      both : {x y : Bool} → x ≡ true → y ≡ true → (x && y) ≡ true
      both e f = rw (e, f) refl
