-- ===== src/RuleCache/Compare/Reuse.antt =====
-- The analysis keys of what is reused are the keys of the earlier record.
use sql_server_analyze.Common.{
  ◌≡◌, ◌⊎◌, inl, inr, refl, sym, ◌∙◌, subst, not, false, List, Option, none, some, arith,
  Bool-cases,
}
use sql_server_analyze.Text.{Text, text_eq→eq, member}
use sql_server_analyze.RuleCache.Texts.{In, not-In-nil, texts_eq→eq, member-append}
use sql_server_analyze.RuleCache.Graph.{targets}
use sql_server_analyze.RuleCache.Graph.Reaching.{Reach}
use sql_server_analyze.RuleCache.Record.Closure.{In-closure_of}
use sql_server_analyze.RuleCache.Record.Fingerprints.{
  IsOrdered, IsKeyed, Agree, instruction_fingerprints-Agree, expected_key-SameKey,
}
use sql_server_analyze.RuleCache.Graph.Scanning.{IsDict}
use sql_server_analyze.RuleCache.Graph.Dependents.{Affected}
use sql_server_analyze.RuleCache.Record.{
  Source, Body, Hashed, lookup, paths_of, graph_of, instruction_fingerprints,
}
use sql_server_analyze.RuleCache.Record.Lookup.{dependencies_at, targets-graph_of, In-lookup}
use sql_server_analyze.RuleCache.Compare.{
  missing_reasons, differs, content_test, git_test, dependency_test, changed_paths, Snapshot,
  full_miss, compare_previous, compare_records,
}
use sql_server_analyze.RuleCache.Compare.Lookups.{Both, lookups, unchanged_at, nothing_selected}
use sql_server_analyze.RuleCache.Compare.Cases.{
  changed_of, IsComparable, compare_outcome, full_miss-reuse, compare_records-cases,
}
use sql_server_analyze.RuleCache.Compare.Partition.{compare_previous-IsSound}

content_test-eq : (o n : Source) → content_test o n ≡ false → o.semantic_sha256 ≡ n.semantic_sha256
content_test-eq o n h = text_eq→eq o.semantic_sha256 n.semantic_sha256 (ground arith)

dependency_test-eq : (o n : Source) → dependency_test o n ≡ false → o.dependencies ≡ n.dependencies
dependency_test-eq o n h = texts_eq→eq o.dependencies n.dependencies (ground arith)

Both-Agree : (a b : Option Source) → Both content_test a b → Both dependency_test a b → Agree a b
Both-Agree none none h k = tt
Both-Agree none (some n) h k = absurd h
Both-Agree (some o) none h k = absurd h
Both-Agree (some o) (some n) h k = (content_test-eq o n h, dependency_test-eq o n k)

module _ (sha256_json : Hashed → Text) (previous current : Body)
    (same : IsComparable previous current) where
  not_content :
      (q : Text)
      → member q (changed_of previous current) ≡ false
      → member q (changed_paths content_test previous.sources current.sources) ≡ false
  not_content q h =
      let split =
        member-append q (changed_paths content_test previous.sources current.sources)
          (changed_paths git_test previous.sources current.sources) in
      ground (arith, split)

  Both-dependencies :
      (q : Text) → Both dependency_test (lookup q previous.sources) (lookup q current.sources)
  Both-dependencies q =
      lookups previous.sources current.sources same.paths_same dependency_test q (λ h.
        nothing_selected q
          (λ p. differs dependency_test (lookup p previous.sources) (lookup p current.sources))
          (paths_of current.sources) same.dependencies_same h)

  -- A path that has not changed has the same entry in both records, as far as the keys go.
  unchanged-Agree :
      (q : Text)
      → member q (changed_of previous current) ≡ false
      → Agree (lookup q previous.sources) (lookup q current.sources)
  unchanged-Agree q n =
      Both-Agree (lookup q previous.sources) (lookup q current.sources)
        (lookups previous.sources current.sources same.paths_same content_test q
          (unchanged_at previous.sources current.sources content_test q (not_content q n)))
        (Both-dependencies q)

  targets_eq : targets (graph_of previous.sources) ≡ targets (graph_of current.sources)
  targets_eq = λ i q.
      (targets-graph_of q previous.sources
          ∙ at_both (lookup q previous.sources) (lookup q current.sources) (Both-dependencies q)
          ∙ sym (targets-graph_of q current.sources))
        i
    where
      at_both :
          (a b : Option Source) → Both dependency_test a b → dependencies_at a ≡ dependencies_at b
      at_both none none h = refl
      at_both none (some n) h = absurd h
      at_both (some o) none h = absurd h
      at_both (some o) (some n) h = dependency_test-eq o n h

  chain-unchanged :
      (q : Text)
      → In q current.scope.instruction_chain
      → member q (changed_of previous current) ≡ false
  chain-unchanged q h = elim (Bool-cases (member q (changed_of previous current))) [
    | inr n ↦ n
    | inl t ↦ cc (
      h,
      nothing_selected q (λ x. member x current.scope.instruction_chain)
          (changed_of previous current) same.instructions_same t,
    )
  ]

  chain-Agree :
      IsKeyed sha256_json previous
      → IsKeyed sha256_json current
      → instruction_fingerprints previous.scope.instruction_chain previous.sources
        ≡ instruction_fingerprints current.scope.instruction_chain current.sources
  chain-Agree p c =
      subst
        (λ (chain : List Text).
          instruction_fingerprints chain previous.sources
          ≡ instruction_fingerprints current.scope.instruction_chain current.sources)
        (sym same.chain_same)
        (instruction_fingerprints-Agree previous.sources current.sources 0
          current.scope.instruction_chain
          (subst (λ (chain : List Text). IsOrdered 0 chain previous.sources) same.chain_same
            p.ordered)
          c.ordered (λ q h. unchanged-Agree q (chain-unchanged q h)))

  not-Affected-member :
      (q : Text)
      → ¬ Affected (changed_of previous current) (graph_of current.sources) q
      → member q (changed_of previous current) ≡ false
  not-Affected-member q n = elim (Bool-cases (member q (changed_of previous current))) [
    | inl t ↦ absurd (n (inl t))
    | inr t ↦ t
  ]

  in_previous :
      (path : Text) → In path (paths_of current.sources) → In path (paths_of previous.sources)
  in_previous path h =
      let kept =
        nothing_selected path (λ x. not (member x (paths_of previous.sources)))
          (paths_of current.sources) same.paths_same.no_added h in
      ground (arith, kept)

  -- The keys of a source that is not affected are the same in both records.
  unaffected_key :
      IsKeyed sha256_json previous
      → IsKeyed sha256_json current
      → (path : Text) (o n : Source) → lookup path previous.sources ≡ some o
      → lookup path current.sources ≡ some n
      → ¬ Affected (changed_of previous current) (graph_of current.sources) path
      → o.analysis_key ≡ n.analysis_key
  unaffected_key p c path o n eo en unaffected =
      let agree : Agree (some o) (some n) =
        rw (eo, en) at (unchanged-Agree path (not-Affected-member path unaffected)) in
      p.keyed path o eo
      ∙ expected_key-SameKey sha256_json previous current path o n (record {
        cwd = same.cwd_same;
        discovery = same.discovery_same;
        chain = chain-Agree p c;
        content = agree.0;
        graph = targets_eq;
        closure =
            λ q h. unchanged-Agree q (within q (In-closure_of path (graph_of current.sources) q h));
      })
      ∙ sym (c.keyed path n en)
    where
      within :
          (q : Text)
          → Reach (targets (graph_of current.sources)) path q
          → member q (changed_of previous current) ≡ false
      within q r = elim (Bool-cases (member q (changed_of previous current))) [
        | inr t ↦ t
        | inl t ↦ absurd (unaffected (inr (q, t, r)))
      ]

-- A source of two records, with one key in both.
abbrev pub SharedKey : Body → Body → Text → Type 0
SharedKey previous current path =
    (o : Source) × (n : Source) × (lookup path previous.sources ≡ some o)
    × (lookup path current.sources ≡ some n)
    × (o.analysis_key ≡ n.analysis_key)

miss-reuse :
    (sha256_json : Hashed → Text) (current : Body) (reasons : List Text) (path : Text)
    → ¬ In path (full_miss sha256_json current reasons).reuse
miss-reuse sha256_json current reasons path h =
    not-In-nil path (rw (full_miss-reuse sha256_json current reasons) at h)

module _ (sha256_json : Hashed → Text) (previous current : Body) where
  reuse-SharedKey :
      IsDict (graph_of current.sources)
      → IsKeyed sha256_json previous
      → IsKeyed sha256_json current
      → (path : Text) → In path (compare_previous sha256_json current previous).reuse
      → SharedKey previous current path
  reuse-SharedKey dict p c path h = elim (compare_outcome sha256_json current previous) [
    | inl (reasons, e) ↦ absurd (miss-reuse sha256_json current reasons path (rw e at h))
    | inr (same, e) ↦
        let sound = compare_previous-IsSound sha256_json current previous dict in
        let listed = sound.split.listed path (inr h) in
        let (o, eo) =
          In-lookup path previous.sources
            (in_previous sha256_json previous current same path listed) in
        let (n, en) = In-lookup path current.sources listed in
        (
          o,
          n,
          eo,
          en,
          unaffected_key sha256_json previous current same p c path o n eo en
              (sound.unaffected path h),
        )
  ]

-- A plan never says to reuse an analysis under another key: where the keys of both records are
-- those of their contents, each path in `reuse` is a source of both records, and its analysis key
-- in the earlier record is its key now.
pub compare_records-SharedKey :
    (sha256_json : Hashed → Text) (previous : Body) (current : Snapshot) (reason : Option Text)
    → IsDict (graph_of current.captured.body.sources)
    → IsKeyed sha256_json previous
    → IsKeyed sha256_json current.captured.body
    → (path : Text) → In path (compare_records sha256_json (some previous) current reason).reuse
    → SharedKey previous current.captured.body path
compare_records-SharedKey sha256_json previous current reason dict p c path h =
    elim (compare_records-cases sha256_json previous current reason) [
      | inl (reasons, e) ↦
          absurd (miss-reuse sha256_json current.captured.body reasons path (rw e at h))
      | inr e ↦ reuse-SharedKey sha256_json previous current.captured.body dict p c path (rw e at h)
    ]

-- Where there is no earlier record, or the capture was not complete, nothing is reused.
pub nothing_reused :
    (sha256_json : Hashed → Text) (previous : Option Body) (current : Snapshot)
    (reason : Option Text) (path : Text)
    → (previous ≡ none) ⊎ (current.complete ≡ false)
    → ¬ In path (compare_records sha256_json previous current reason).reuse
unfolding compare_records
nothing_reused sha256_json previous current reason path (inr c) h =
    miss-reuse sha256_json current.captured.body current.reason_codes path (rw c at h)
nothing_reused sha256_json previous current reason path (inl e) h =
    elim (Bool-cases current.complete) [
      | inl t ↦
          miss-reuse sha256_json current.captured.body (missing_reasons reason) path
            (rw (e, t) at h)
      | inr t ↦
          miss-reuse sha256_json current.captured.body current.reason_codes path (rw (e, t) at h)
    ]
