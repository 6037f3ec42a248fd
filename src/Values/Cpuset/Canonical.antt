-- ===== src/Values/Cpuset/Canonical.antt =====
-- A compact list is determined by the CPUs that it covers.
use sql_server_analyze.Common.{
  ℕ, ◌+◌, ◌≤◌, ◌<◌, ◌≡◌, ◌↔◌, inl, inr, refl, sym, List, [], ◌∷◌, arith, leb, Bool-cases, leb→le,
}
use sql_server_analyze.Values.Cpuset.{Interval}
use sql_server_analyze.Values.Cpuset.Sorting.{Covers}
use sql_server_analyze.Values.Cpuset.Merging.{BeginsAfter, IsCompact}

Covers-above : (a : ℕ) (is : List Interval) (x : ℕ) → BeginsAfter a is → Covers is x → a + 1 < x
Covers-above a [] x _ c = absurd c
Covers-above a (i ∷ is) x (b, bs) (inl w) = omega arith
Covers-above a (i ∷ is) x (b, bs) (inr c) = Covers-above a is x bs c

abbrev pub SameCpus : List Interval → List Interval → Type 0
SameCpus is js = (x : ℕ) → Covers is x ↔ Covers js x

starts_le :
    (i : Interval) (is : List Interval) (j : Interval) (js : List Interval)
    → IsCompact (i ∷ is)
    → IsCompact (j ∷ js)
    → Covers (i ∷ is) j.0
    → i.0 ≤ j.0
starts_le i is j js (p, after, c) h (inl w) = w.0
starts_le i is j js (p, after, c) h (inr w) = omega (arith, Covers-above i.1 is j.0 after w)

-- The first interval cannot end before the other's: the CPU behind it would be lost.
ends_le :
    (i : Interval) (is : List Interval) (j : Interval) (js : List Interval)
    → IsCompact (i ∷ is)
    → i.0 ≡ j.0
    → ((x : ℕ) → Covers (j ∷ js) x → Covers (i ∷ is) x)
    → j.1 ≤ i.1
ends_le i is j js (p, after, c) e f = elim (Bool-cases (leb j.1 i.1)) [
  | inl h ↦ leb→le j.1 i.1 h
  | inr h ↦ absurd (lost (f (i.1 + 1) (inl (ground arith, ground arith))))
]
  where
    lost : Covers (i ∷ is) (i.1 + 1) → ⊥
    lost (inl w) = omega arith
    lost (inr w) = omega (arith, Covers-above i.1 is (i.1 + 1) after w)

rest-Covers :
    (i : Interval) (is : List Interval) (j : Interval) (js : List Interval)
    → BeginsAfter j.1 js
    → i.1 ≡ j.1
    → ((x : ℕ) → Covers (j ∷ js) x → Covers (i ∷ is) x)
    → (x : ℕ) → Covers js x
    → Covers is x
rest-Covers i is j js after e f x c = go (f x (inr c))
  where
    go : Covers (i ∷ is) x → Covers is x
    go (inl w) = absurd (omega (arith, Covers-above j.1 js x after c))
    go (inr w) = w

some_cpu : (i : Interval) (is : List Interval) → IsCompact (i ∷ is) → Covers (i ∷ is) i.0
some_cpu i is (p, after, c) = inl (omega arith, p)

heads_equal : (i j : Interval) → i.0 ≡ j.0 → i.1 ≡ j.1 → i ≡ j
heads_equal (a, b) (c, d) p q = ground arith

-- Two compact lists that cover the same CPUs are one list.
pub IsCompact-unique :
    (is js : List Interval) → IsCompact is → IsCompact js → SameCpus is js → is ≡ js
IsCompact-unique [] [] ci cj s = refl
IsCompact-unique [] (j ∷ js) ci cj s = absurd ((s j.0).1 (some_cpu j js cj))
IsCompact-unique (i ∷ is) [] ci cj s = absurd ((s i.0).0 (some_cpu i is ci))
IsCompact-unique (i ∷ is) (j ∷ js) ci cj s =
    let forth = λ (x : ℕ). (s x).0 in
    let back = λ (x : ℕ). (s x).1 in
    let a = starts_le i is j js ci cj (back j.0 (some_cpu j js cj)) in
    let b = starts_le j js i is cj ci (forth i.0 (some_cpu i is ci)) in
    let starts : i.0 ≡ j.0 = omega arith in
    let d = ends_le i is j js ci starts back in
    let e = ends_le j js i is cj (sym starts) forth in
    let ends : i.1 ≡ j.1 = omega arith in
    let heads = heads_equal i j starts ends in
    let rest = IsCompact-unique is js ci.2 cj.2 (λ x.
      (rest-Covers j js i is ci.1 (sym ends) forth x, rest-Covers i is j js cj.1 ends back x)) in
    cc
