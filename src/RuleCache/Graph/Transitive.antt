-- ===== src/RuleCache/Graph/Transitive.antt =====
-- `_transitive_dependencies` returns, and gives what can be reached.
use sql_server_analyze.Common.{
  ℕ, zero, suc, ◌+◌, ◌≤◌, ◌<◌, ◌≡◌, ◌≢◌, ◌↔◌, ◌⊎◌, inl, inr, refl, sym, ◌∙◌, subst, ◌&&◌, not, true,
  false, List, [], ◌∷◌, ◌++◌, some, arith, if◌then◌else◌, Bool-cases, &&_left, &&_right, length,
  length-append, all,
}
use sql_server_analyze.Text.{Text, text_eq, text_eq→eq, text_eq_refl, member}
use sql_server_analyze.RuleCache.Texts.{
  In, In-here, In-there, In-cases, not-In-nil, In-append, member-select,
}
use sql_server_analyze.RuleCache.Graph.{
  Graph, targets, edges, search_loop, discard, transitive_dependencies,
}
use sql_server_analyze.RuleCache.Graph.Reaching.{Edge, Reach, direct, further}

-- The dependencies of the sources that are not in the result yet.
unvisited : Graph → List Text → ℕ
unvisited [] result = 0
unvisited ((k, ds) ∷ g) result = (if member k result then 0 else length ds) + unvisited g result

unvisited-nil : (g : Graph) → unvisited g [] ≤ edges g
unfolding unvisited edges member
unvisited-nil [] = omega arith
unvisited-nil ((k, ds) ∷ g) = omega (arith, unvisited-nil g)

unvisited-cons :
    (g : Graph) (c : Text) (result : List Text) → unvisited g (c ∷ result) ≤ unvisited g result
unfolding unvisited member
unvisited-cons [] c result = omega arith
unvisited-cons ((k, ds) ∷ g) c result = ground (arith, unvisited-cons g c result)

visit :
    (g : Graph) (c : Text) (result : List Text)
    → member c result ≡ false
    → length (targets g c) + unvisited g (c ∷ result) ≤ unvisited g result
unfolding unvisited targets member
visit [] c result h = omega arith
visit ((k, ds) ∷ g) c result h = elim (Bool-cases (text_eq k c)) [
  | inl t ↦
      let same : k ≡ c = text_eq→eq k c t in
      rw (same, text_eq_refl c, h) (omega (arith, unvisited-cons g c result))
  | inr t ↦ rw t (ground (arith, visit g c result))
]

loop_returns :
    (g : Graph) (fuel : ℕ) (pending result : List Text)
    → length pending + unvisited g result < fuel
    → (r : List Text) × (search_loop (targets g) fuel pending result ≡ some r)
unfolding search_loop
loop_returns g zero pending result h = elim h [ ]
loop_returns g (suc fuel) [] result h = (result, refl)
loop_returns g (suc fuel) (c ∷ pending) result h = elim (Bool-cases (member c result)) [
  | inl t ↦ rw (t, search_loop) (loop_returns g fuel pending result (omega arith))
  | inr t ↦
      rw (t, search_loop)
        (loop_returns g fuel (targets g c ++ pending) (c ∷ result)
          (omega (arith, visit g c result t, length-append (targets g c) pending)))
]

-- More fuel does not change the result.
pub loop_agrees :
    (deps : Text → List Text) (m n : ℕ) (pending result a b : List Text)
    → search_loop deps m pending result ≡ some a
    → search_loop deps n pending result ≡ some b
    → a ≡ b
unfolding search_loop
loop_agrees deps zero n pending result a b h k = cc
loop_agrees deps (suc m) zero pending result a b h k = cc
loop_agrees deps (suc m) (suc n) [] result a b h k = cc
loop_agrees deps (suc m) (suc n) (c ∷ pending) result a b h k =
    elim (Bool-cases (member c result)) [
      | inl t ↦
          loop_agrees deps m n pending result a b (rw (t, search_loop) at h)
            (rw (t, search_loop) at k)
      | inr t ↦
          loop_agrees deps m n (deps c ++ pending) (c ∷ result) a b (rw (t, search_loop) at h)
            (rw (t, search_loop) at k)
    ]

module _ (deps : Text → List Text) (p : Text) where
  record Inv (pending result : List Text) : Type 0 where
    found : (v : Text) → In v result → Reach deps p v
    waiting : (v : Text) → In v pending → Reach deps p v
    first : (v : Text) → Edge deps p v → In v result ⊎ In v pending
    closed : (u v : Text) → In u result → Edge deps u v → In v result ⊎ In v pending

  Inv-start : Inv (deps p) []
  Inv-start = record {
    found = λ v h. absurd (not-In-nil v h);
    waiting = λ v h. direct h;
    first = λ v h. inr h;
    closed = λ u v h. absurd (not-In-nil u h);
  }

  -- The popped source is in the result already.
  Inv-skip :
      (c : Text) (pending result : List Text)
      → In c result
      → Inv (c ∷ pending) result
      → Inv pending result
  Inv-skip c pending result h i = record {
    found = i.found;
    waiting = λ v w. i.waiting v (In-there v c pending w);
    first = λ v e. settle v (i.first v e);
    closed = λ u v w e. settle v (i.closed u v w e);
  }
    where
      settle : (v : Text) → In v result ⊎ In v (c ∷ pending) → In v result ⊎ In v pending
      settle v (inl w) = inl w
      settle v (inr w) = elim (In-cases v c pending w) [ inl e ↦ inl (rw e h) | inr w' ↦ inr w' ]

  -- The popped source is new.
  Inv-visit :
      (c : Text) (pending result : List Text)
      → Inv (c ∷ pending) result
      → Inv (deps c ++ pending) (c ∷ result)
  Inv-visit c pending result i = record {
    found = λ v w. known v (In-cases v c result w);
    waiting = λ v w. offered v ((In-append v (deps c) pending).0 w);
    first = λ v e. settle v (i.first v e);
    closed = λ u v w e. step u v e (In-cases u c result w);
  }
    where
      to_c : Reach deps p c
      to_c = i.waiting c (In-here c pending)

      known : (v : Text) → (v ≡ c) ⊎ In v result → Reach deps p v
      known v (inl e) = rw e to_c
      known v (inr w) = i.found v w

      offered : (v : Text) → In v (deps c) ⊎ In v pending → Reach deps p v
      offered v (inl e) = further to_c e
      offered v (inr w) = i.waiting v (In-there v c pending w)

      settle :
          (v : Text)
          → In v result ⊎ In v (c ∷ pending)
          → In v (c ∷ result) ⊎ In v (deps c ++ pending)
      settle v (inl w) = inl (In-there v c result w)
      settle v (inr w) = elim (In-cases v c pending w) [
        | inl e ↦ inl (rw e (In-here c result))
        | inr w' ↦ inr ((In-append v (deps c) pending).1 (inr w'))
      ]

      step :
          (u v : Text)
          → Edge deps u v
          → (u ≡ c) ⊎ In u result
          → In v (c ∷ result) ⊎ In v (deps c ++ pending)
      step u v e (inl same) =
          inr ((In-append v (deps c) pending).1 (inl (subst (λ (x : Text). Edge deps x v) same e)))
      step u v e (inr w) = settle v (i.closed u v w e)

  loop_lem :
      (fuel : ℕ) (pending result r : List Text)
      → search_loop deps fuel pending result ≡ some r
      → Inv pending result
      → Inv [] r
  unfolding search_loop
  loop_lem zero pending result r e i = cc
  loop_lem (suc fuel) [] result r e i = let same : result ≡ r = cc in rw (← same) i
  loop_lem (suc fuel) (c ∷ pending) result r e i = elim (Bool-cases (member c result)) [
    | inl t ↦
        loop_lem fuel pending result r (rw (t, search_loop) at e) (Inv-skip c pending result t i)
    | inr t ↦
        loop_lem fuel (deps c ++ pending) (c ∷ result) r (rw (t, search_loop) at e)
          (Inv-visit c pending result i)
  ]

  complete : (r : List Text) → Inv [] r → (v : Text) → Reach deps p v → In v r
  complete r i v (direct e) = settled v (i.first v e)
    where
      settled : (v : Text) → In v r ⊎ In v [] → In v r
      settled v (inl w) = w
      settled v (inr w) = absurd (not-In-nil v w)
  complete r i v (further {v = u} q e) = settled (i.closed u v (complete r i u q) e)
    where
      settled : In v r ⊎ In v [] → In v r
      settled (inl w) = w
      settled (inr w) = absurd (not-In-nil v w)

  pub search_loop-Reach :
      (fuel : ℕ) (r : List Text)
      → search_loop deps fuel (deps p) [] ≡ some r
      → (v : Text) → In v r ↔ Reach deps p v
  search_loop-Reach fuel r e v =
      let i = loop_lem fuel (deps p) [] r e Inv-start in (i.found v, complete r i v)

pub search_returns :
    (g : Graph) (p : Text)
    → (r : List Text) × (search_loop
          (targets g)
          (suc (length (targets g p) + edges g))
          (targets g p)
          []
        ≡ some r)
search_returns g p = loop_returns g _ (targets g p) [] (omega (arith, unvisited-nil g))

-- The search always returns, and gives exactly the sources, other than the source itself, that a
-- walk of dependencies leads to.
pub transitive_dependencies-Reach :
    (p : Text) (g : Graph)
    → (r : List Text) × (transitive_dependencies p g ≡ some r)
      × ((v : Text) → In v r ↔ (Reach (targets g) p v × (v ≢ p)))
unfolding transitive_dependencies
transitive_dependencies-Reach p g =
    let (r, e) = search_returns g p in
    let all = search_loop-Reach (targets g) p (suc (length (targets g p) + edges g)) r e in
    (discard p r, rw e refl, λ v. (sound r all v, full r all v))
  where
    sound :
        (r : List Text)
        → ((v : Text) → In v r ↔ Reach (targets g) p v)
        → (v : Text) → In v (discard p r)
        → Reach (targets g) p v × (v ≢ p)
    sound r all v h =
        let both : (member v r && not (text_eq v p)) ≡ true =
          sym (member-select v (λ t. not (text_eq t p)) r) ∙ h in
        (
          (all v).0 (&&_left (member v r) (not (text_eq v p)) both),
          λ same.
              cc (rw (same, text_eq_refl p) at (&&_right (member v r) (not (text_eq v p)) both)),
        )

    full :
        (r : List Text)
        → ((v : Text) → In v r ↔ Reach (targets g) p v)
        → (v : Text) → Reach (targets g) p v × (v ≢ p)
        → In v (discard p r)
    full r all v (w, n) = elim (Bool-cases (text_eq v p)) [
      | inl t ↦ absurd (n (text_eq→eq v p t))
      | inr t ↦ member-select v (λ x. not (text_eq x p)) r ∙ rw ((all v).1 w, t) refl
    ]
