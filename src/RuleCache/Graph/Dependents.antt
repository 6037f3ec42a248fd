-- ===== src/RuleCache/Graph/Dependents.antt =====
-- `_dependent_closure` returns, and gives the sources with a changed one among their dependencies.
use sql_server_analyze.Common.{
  ℕ, zero, suc, ◌≤◌, ◌<◌, ◌≡◌, ◌↔◌, ◌⊎◌, inl, inr, refl, Bool, true, false, List, [], ◌∷◌, some,
  arith, Bool-cases, length,
}
use sql_server_analyze.Text.{Text, text_eq, text_eq→eq, text_eq_refl, member}
use sql_server_analyze.RuleCache.Texts.{In, In-there, In-cases}
use sql_server_analyze.RuleCache.Graph.{
  Graph, targets, scan_sources, closure_loop, dependent_closure,
}
use sql_server_analyze.RuleCache.Graph.Reaching.{Edge, Reach, direct, further, Reach-cons}
use sql_server_analyze.RuleCache.Graph.Scanning.{
  IsDict, Entry, Entry-key, Entry-targets, targets-Entry, some_invalidated, scan_rule, missing,
  missing-le-length, missing-cons-lt, scan_done,
}

some_invalidated-In :
    (invalidated deps : List Text)
    → some_invalidated invalidated deps ≡ true
    → (d : Text) × In d deps × In d invalidated
unfolding member
some_invalidated-In invalidated [] h = cc
some_invalidated-In invalidated (d ∷ deps) h = elim (Bool-cases (member d invalidated)) [
  | inl t ↦ (d, rw (text_eq_refl d) refl, t)
  | inr t ↦ let (x, a, b) = some_invalidated-In invalidated deps (rw t at h) in (x, ground arith, b)
]

In-some_invalidated :
    (invalidated deps : List Text) (d : Text)
    → In d deps
    → In d invalidated
    → some_invalidated invalidated deps ≡ true
unfolding member
In-some_invalidated invalidated [] d h i = cc
In-some_invalidated invalidated (x ∷ deps) d h i = elim (Bool-cases (text_eq d x)) [
  | inl t ↦ let same : d ≡ x = text_eq→eq d x t in rw (← same, i) refl
  | inr t ↦ let later = In-some_invalidated invalidated deps d (ground arith) i in ground arith
]

module _ (changed : List Text) (g : Graph) where
  -- A changed source, or one that depends on a changed source.
  abbrev pub Affected : Text → Type 0
  Affected v = In v changed ⊎ ((c : Text) × In c changed × Reach (targets g) v c)

  -- What the loop keeps.
  record Inv (invalidated : List Text) : Type 0 where
    extends : (v : Text) → In v changed → In v invalidated
    sound : (v : Text) → In v invalidated → Affected v

  Inv-start : Inv changed
  Inv-start = record { extends = λ v h. h; sound = λ v h. inl h }

  Affected-cons : (u v : Text) → Edge (targets g) u v → Affected v → Affected u
  Affected-cons u v e (inl c) = inr (v, c, direct e)
  Affected-cons u v e (inr (c, h, r)) = inr (c, h, Reach-cons e r)

  Inv-add :
      IsDict g
      → (invalidated : List Text) (path : Text) (deps : List Text) → Entry path deps g
      → Inv invalidated
      → some_invalidated invalidated deps ≡ true
      → Inv (path ∷ invalidated)
  Inv-add dict invalidated path deps e i a = record {
    extends = λ v h. In-there v path invalidated (i.extends v h);
    sound = λ v h. known v (In-cases v path invalidated h);
  }
    where
      known : (v : Text) → (v ≡ path) ⊎ In v invalidated → Affected v
      known v (inl same) =
          let (d, listed, bad) = some_invalidated-In invalidated deps a in
          rw same
            (Affected-cons path d (rw (Entry-targets path deps g dict e) listed) (i.sound d bad))
      known v (inr h) = i.sound v h

  Inv-scan :
      IsDict g
      → (invalidated : List Text) → Inv invalidated
      → Inv (scan_sources g invalidated false).0
  Inv-scan dict invalidated i =
      scan_rule (λ inv pr. Inv inv) g (λ inv pr path deps e h m a. Inv-add dict inv path deps e h a)
        invalidated false i

  -- A pass with progress leaves fewer sources out.
  abbrev Fewer : ℕ → List Text → Bool → Type 0
  Fewer n invalidated progress =
      (missing g invalidated ≤ n) × (progress ≡ true → missing g invalidated < n)

  scan-Fewer :
      (invalidated : List Text)
      → Fewer
          (missing g invalidated)
          (scan_sources g invalidated false).0
          (scan_sources g invalidated false).1
  scan-Fewer invalidated =
      scan_rule (Fewer (missing g invalidated)) g
        (λ inv pr path deps e h m a. added inv path deps e h.0 m) invalidated false
        (omega arith, λ e. cc)
    where
      added :
          (inv : List Text) (path : Text) (deps : List Text)
          → Entry path deps g
          → missing g inv ≤ missing g invalidated
          → member path inv ≡ false
          → Fewer (missing g invalidated) (path ∷ inv) true
      added inv path deps e h m =
          let fewer = missing-cons-lt g path inv (Entry-key path deps g e) m in
          (omega arith, λ _. omega arith)

  record IsClosure (invalidated : List Text) : Type 0 where
    inv : Inv invalidated
    closed :
        (path : Text) (deps : List Text)
        → Entry path deps g
        → some_invalidated invalidated deps ≡ true
        → In path invalidated

  loop_lem :
      IsDict g
      → (fuel : ℕ) (invalidated : List Text) → missing g invalidated < fuel
      → Inv invalidated
      → (r : List Text) × (closure_loop g fuel invalidated ≡ some r) × IsClosure r
  unfolding closure_loop
  loop_lem dict zero invalidated h i = elim h [ ]
  loop_lem dict (suc fuel) invalidated h i =
      elim (Bool-cases (scan_sources g invalidated false).1) [
        | inl t ↦
            let fewer = (scan-Fewer invalidated).1 t in
            rw (t, closure_loop)
              (loop_lem dict fuel (scan_sources g invalidated false).0 (omega arith)
                (Inv-scan dict invalidated i))
        | inr t ↦
            let (same, nothing_left) = scan_done g invalidated t in
            (
              invalidated,
              rw (t, same, closure_loop) refl,
              record { inv = i; closed = nothing_left },
            )
      ]

  -- A source whose dependency is in the closure is in it too.
  step_back : (r : List Text) → IsClosure r → (u v : Text) → Edge (targets g) u v → In v r → In u r
  step_back r c u v e h =
      c.closed u (targets g u) (targets-Entry u v (targets g u) g refl e)
        (In-some_invalidated r (targets g u) v e h)

  walk_back : (r : List Text) → IsClosure r → (u v : Text) → Reach (targets g) u v → In v r → In u r
  walk_back r c u v (direct e) h = step_back r c u v e h
  walk_back r c u v (further {v = w} q e) h = walk_back r c u w q (step_back r c w v e h)

  complete : (r : List Text) → IsClosure r → (v : Text) → Affected v → In v r
  complete r c v (inl h) = c.inv.extends v h
  complete r c v (inr (x, h, q)) = walk_back r c v x q (c.inv.extends x h)

  -- The loop always returns, and gives exactly the changed sources and those that depend on one
  -- of them, directly or through others, where no source stands twice.
  pub dependent_closure-Affected :
      IsDict g
      → (r : List Text) × (dependent_closure changed g ≡ some r)
        × ((v : Text) → In v r ↔ Affected v)
  unfolding dependent_closure
  dependent_closure-Affected dict =
      let (r, e, c) =
        loop_lem dict (suc (length g)) changed (omega (arith, missing-le-length g changed))
          Inv-start in
      (r, e, λ v. (c.inv.sound v, complete r c v))
