-- ===== src/RuleCache/Compare/Partition.antt =====
-- Every source is to be read again, or reused, and never both; what is reused is not affected.
use sql_server_analyze.Common.{
  ◌≡◌, ◌⊎◌, inl, inr, refl, sym, ◌∙◌, subst, ◌&&◌, not, Bool, true, false, List, [], ◌∷◌, Option,
  none, some, arith, Bool-cases, is_empty, all,
}
use sql_server_analyze.Text.{Text, member}
use sql_server_analyze.RuleCache.Texts.{
  In, not-In-nil, member-append, member-select, sorted_set, member-sorted_set,
}
use sql_server_analyze.RuleCache.Graph.{targets}
use sql_server_analyze.RuleCache.Graph.Reaching.{Reach, direct, further, key_of_edge}
use sql_server_analyze.RuleCache.Graph.Scanning.{keys, IsDict}
use sql_server_analyze.RuleCache.Graph.Dependents.{Affected, dependent_closure-Affected}
use sql_server_analyze.RuleCache.Record.{Sources, Body, Hashed, lookup, paths_of, graph_of}
use sql_server_analyze.RuleCache.Compare.{
  Status, differs, changed_paths, content_test, git_test, without, Plan, Snapshot, plan_payload,
  full_miss, invalidation, compare_contents, compare_previous, compare_records,
}
use sql_server_analyze.RuleCache.Compare.Cases.{changed_of, compare_outcome}

-- The two lists of a plan, by a test on the paths.
record SplitBy (paths : List Text) (plan : Plan) (test : Text → Bool) : Type 0 where
  again : (path : Text) → member path plan.reanalyze ≡ (member path paths && test path)
  kept : (path : Text) → member path plan.reuse ≡ (member path paths && not (test path))

not-In-empty : (t : Text) (ts : List Text) → is_empty ts ≡ true → ¬ In t ts
not-In-empty t [] e h = not-In-nil t h
not-In-empty t (s ∷ ts) e h = cc

-- Each source stands in one of the two lists, and nothing else does.
pub record IsSplit (paths : List Text) (plan : Plan) : Type 0 where
  pub covers : (path : Text) → In path paths → In path plan.reanalyze ⊎ In path plan.reuse
  pub listed : (path : Text) → In path plan.reanalyze ⊎ In path plan.reuse → In path paths
  pub apart : (path : Text) → In path plan.reanalyze → ¬ In path plan.reuse

SplitBy-IsSplit :
    (paths : List Text) (plan : Plan) (test : Text → Bool)
    → SplitBy paths plan test
    → IsSplit paths plan
SplitBy-IsSplit paths plan test s = record {
  covers = λ path h. ground (arith, s.again path, s.kept path);
  listed = λ path h. ground (arith, s.again path, s.kept path);
  apart = λ path h k. ground (arith, s.again path, s.kept path);
}

and_true : (m : Bool) → m ≡ (m && true)
and_true true = refl
and_true false = refl

and_false : (m : Bool) → false ≡ (m && false)
and_false true = refl
and_false false = refl

paths_of-keys : (s : Sources) → keys (graph_of s) ≡ paths_of s
paths_of-keys [] = refl
paths_of-keys ((p, x) ∷ s) = cc (paths_of-keys s)

module _ (sha256_json : Hashed → Text) (current : Body) where
  miss-SplitBy :
      (reasons : List Text)
      → SplitBy (paths_of current.sources) (full_miss sha256_json current reasons) (λ _. true)
  unfolding full_miss plan_payload member
  miss-SplitBy reasons = record {
    again = λ path.
        member-sorted_set path (paths_of current.sources)
        ∙ and_true (member path (paths_of current.sources));
    kept = λ path. and_false (member path (paths_of current.sources));
  }

  hit-SplitBy :
      (reasons : List Text)
      → SplitBy
          (paths_of current.sources)
          (plan_payload sha256_json current Status.cache_hit reasons []
            (sorted_set (paths_of current.sources)))
          (λ _. false)
  unfolding plan_payload member
  hit-SplitBy reasons = record {
    again = λ path. and_false (member path (paths_of current.sources));
    kept = λ path.
        member-sorted_set path (paths_of current.sources)
        ∙ and_true (member path (paths_of current.sources));
  }

  -- The invalidated paths are sources.
  partial-SplitBy :
      (reasons r : List Text)
      → ((path : Text) → In path r → In path (paths_of current.sources))
      → SplitBy
          (paths_of current.sources)
          (plan_payload sha256_json current Status.partial_invalidation reasons
            (sorted_set r)
            (sorted_set (without (paths_of current.sources) r)))
          (λ path. member path r)
  unfolding plan_payload
  partial-SplitBy reasons r inside = record {
    again = λ path. member-sorted_set path r ∙ within path (inside path);
    kept = λ path.
        member-sorted_set path (without (paths_of current.sources) r)
        ∙ member-select path (λ x. not (member x r)) (paths_of current.sources);
  }
    where
      within :
          (path : Text)
          → (In path r → In path (paths_of current.sources))
          → member path r ≡ (member path (paths_of current.sources) && member path r)
      within path h = elim (Bool-cases (member path r)) [
        | inl e ↦ rw (h e, e) refl
        | inr e ↦ rw e (and_false (member path (paths_of current.sources)))
      ]

  In-left : (x y : Bool) → (x && y) ≡ true → x ≡ true
  In-left x y h = ground arith

  changed_inside :
      (previous : Body) (path : Text)
      → In path (changed_of previous current)
      → In path (paths_of current.sources)
  changed_inside previous path h =
      let content =
        λ (p : Text). differs content_test (lookup p previous.sources) (lookup p current.sources) in
      let git =
        λ (p : Text). differs git_test (lookup p previous.sources) (lookup p current.sources) in
      let split =
        member-append path (changed_paths content_test previous.sources current.sources)
          (changed_paths git_test previous.sources current.sources) in
      let a = member-select path content (paths_of current.sources) in
      let b = member-select path git (paths_of current.sources) in ground (arith, split, a, b)

  Affected-In :
      (previous : Body) (path : Text)
      → Affected (changed_of previous current) (graph_of current.sources) path
      → In path (paths_of current.sources)
  Affected-In previous path (inl h) = changed_inside previous path h
  Affected-In previous path (inr (c, h, r)) =
      rw (← paths_of-keys current.sources) (key_of_walk path c r)
    where
      key_of_walk :
          (u v : Text)
          → Reach (targets (graph_of current.sources)) u v
          → In u (keys (graph_of current.sources))
      key_of_walk u v (direct e) = key_of_edge (graph_of current.sources) u v e
      key_of_walk u v (further {v = w} r e) = key_of_walk u w r

  -- What the plan says to reuse is not affected by a change.
  pub record IsSound (previous : Body) (plan : Plan) : Type 0 where
    pub split : IsSplit (paths_of current.sources) plan
    pub unaffected :
        (path : Text)
        → In path plan.reuse
        → ¬ Affected (changed_of previous current) (graph_of current.sources) path

  contents-IsSound :
      (previous : Body)
      → IsDict (graph_of current.sources)
      → IsSound previous (compare_contents sha256_json current previous)
  unfolding compare_contents invalidation
  contents-IsSound previous dict =
      let (r, e, all) =
        dependent_closure-Affected (changed_of previous current) (graph_of current.sources) dict in
      elim (Bool-cases (is_empty (changed_of previous current))) [
        | inl t ↦ rw t (record {
          split = SplitBy-IsSplit _ _ _ (hit-SplitBy _);
          unaffected = λ path k h. none_affected t path h;
        })
        | inr t ↦
            rw (t, e)
              (let parts =
                  partial-SplitBy _ r (λ path h. Affected-In previous path ((all path).0 h)) in
                record {
                  split = SplitBy-IsSplit _ _ _ parts;
                  unaffected = λ path k h. kept_apart r parts path k ((all path).1 h);
                })
      ]
    where
      none_affected :
          is_empty (changed_of previous current) ≡ true
          → (path : Text) → ¬ Affected (changed_of previous current) (graph_of current.sources) path
      none_affected t path (inl h) = not-In-empty path (changed_of previous current) t h
      none_affected t path (inr (c, h, w)) = not-In-empty c (changed_of previous current) t h

      kept_apart :
          (r : List Text) {plan : Plan}
          → SplitBy (paths_of current.sources) plan (λ path. member path r)
          → (path : Text) → In path plan.reuse
          → ¬ In path r
      kept_apart r parts path k i = ground (arith, parts.kept path)

  miss-IsSound :
      (previous : Body) (reasons : List Text)
      → IsSound previous (full_miss sha256_json current reasons)
  unfolding full_miss plan_payload
  miss-IsSound previous reasons = record {
    split = SplitBy-IsSplit _ _ _ (miss-SplitBy reasons);
    unaffected = λ path k h. not-In-nil path k;
  }

  pub compare_previous-IsSound :
      (previous : Body)
      → IsDict (graph_of current.sources)
      → IsSound previous (compare_previous sha256_json current previous)
  compare_previous-IsSound previous dict = elim (compare_outcome sha256_json current previous) [
    | inl (reasons, e) ↦ subst (IsSound previous) (sym e) (miss-IsSound previous reasons)
    | inr (same, e) ↦ subst (IsSound previous) (sym e) (contents-IsSound previous dict)
  ]

-- Whatever the outcome, every source of the current record stands in exactly one of the two lists
-- of the plan, `reanalyze` and `reuse`, and nothing else stands in them, where no source of the
-- record stands twice.
pub compare_records-IsSplit :
    (sha256_json : Hashed → Text) (previous : Option Body) (current : Snapshot)
    (reason : Option Text)
    → IsDict (graph_of current.captured.body.sources)
    → IsSplit
        (paths_of current.captured.body.sources)
        (compare_records sha256_json previous current reason)
unfolding compare_records
compare_records-IsSplit sha256_json none current reason dict = elim (Bool-cases current.complete) [
  | inl t ↦ rw t (SplitBy-IsSplit _ _ _ (miss-SplitBy sha256_json current.captured.body _))
  | inr t ↦ rw t (SplitBy-IsSplit _ _ _ (miss-SplitBy sha256_json current.captured.body _))
]
compare_records-IsSplit sha256_json (some previous) current reason dict =
    elim (Bool-cases current.complete) [
      | inl t ↦
          rw t (compare_previous-IsSound sha256_json current.captured.body previous dict).split
      | inr t ↦ rw t (SplitBy-IsSplit _ _ _ (miss-SplitBy sha256_json current.captured.body _))
    ]
