-- ===== src/Values/Cpuset/Sorting.antt =====
-- Sorting intervals: the same intervals stand in the order of their first CPU.
use sql_server_analyze.Common.{
  ℕ, ◌≤◌, ◌↔◌, ◌⊎◌, inl, inr, List, [], ◌∷◌, arith, Bool-cases, All, Some, ⊎-map, ⊎-rotate,
}
use sql_server_analyze.Values.Cpuset.{Interval, interval_le, insert_interval, sort}

-- The CPU `x` lies in the interval.
abbrev pub Within : ℕ → Interval → Type 0
Within x (start, end) = (start ≤ x) × (x ≤ end)

-- The CPU `x` lies in one of the intervals.
abbrev pub Covers : List Interval → ℕ → Type 0
Covers is x = Some (Within x) is

abbrev pub Same : (ℕ → Type 0) → (ℕ → Type 0) → Type 0
Same P Q = (x : ℕ) → P x ↔ Q x

-- No interval of the list begins before `a`.
abbrev pub BeginsFrom : ℕ → List Interval → Type 0
BeginsFrom a = All (λ i. a ≤ i.0)

-- Every interval begins no later than those behind it.
abbrev pub IsOrdered : List Interval → Type 0
IsOrdered [] = Unit
IsOrdered (i ∷ is) = BeginsFrom i.0 is × IsOrdered is

-- No interval is empty.
abbrev pub AllProper : List Interval → Type 0
AllProper = All (λ i. i.0 ≤ i.1)

BeginsFrom-mono : (a b : ℕ) (is : List Interval) → a ≤ b → BeginsFrom b is → BeginsFrom a is
BeginsFrom-mono a b [] h _ = tt
BeginsFrom-mono a b (i ∷ is) h (p, ps) = (omega arith, BeginsFrom-mono a b is h ps)

insert-Some :
    (P : Interval → Type 0) (i : Interval) (is : List Interval)
    → Some P (insert_interval i is) ↔ (P i ⊎ Some P is)
unfolding insert_interval
insert-Some P i [] = (λ h. h, λ h. h)
insert-Some P i (j ∷ js) =
    let (to, from) = insert-Some P i js in
    elim (Bool-cases (interval_le i j)) [
      | inl e ↦ rw e (λ h. h, λ h. h)
      | inr e ↦ rw e ((λ h. ⊎-rotate (⊎-map to h)), (λ h. ⊎-map from (⊎-rotate h)))
    ]

insert-All :
    (P : Interval → Type 0) (i : Interval) (is : List Interval)
    → P i
    → All P is
    → All P (insert_interval i is)
unfolding insert_interval
insert-All P i [] h _ = (h, tt)
insert-All P i (j ∷ js) h (hj, hs) = elim (Bool-cases (interval_le i j)) [
  | inl e ↦ rw e (h, (hj, hs))
  | inr e ↦ rw e (hj, insert-All P i js h hs)
]

insert-IsOrdered :
    (i : Interval) (is : List Interval) → IsOrdered is → IsOrdered (insert_interval i is)
unfolding insert_interval interval_le
insert-IsOrdered i [] _ = (tt, tt)
insert-IsOrdered i (j ∷ js) (h, o) = elim (Bool-cases (interval_le i j)) [
  | inl e ↦
      let le : i.0 ≤ j.0 = ground arith in rw e ((le, BeginsFrom-mono i.0 j.0 js le h), (h, o))
  | inr e ↦
      let le : j.0 ≤ i.0 = ground arith in
      rw e (insert-All (λ k. j.0 ≤ k.0) i js le h, insert-IsOrdered i js o)
]

pub sort-IsOrdered : (is : List Interval) → IsOrdered (sort is)
unfolding sort
sort-IsOrdered [] = tt
sort-IsOrdered (i ∷ is) = insert-IsOrdered i (sort is) (sort-IsOrdered is)

pub sort-All : (P : Interval → Type 0) (is : List Interval) → All P is → All P (sort is)
unfolding sort
sort-All P [] _ = tt
sort-All P (i ∷ is) (h, hs) = insert-All P i (sort is) h (sort-All P is hs)

-- Sorting keeps the intervals.
pub sort-Some : (P : Interval → Type 0) (is : List Interval) → Some P (sort is) ↔ Some P is
unfolding sort
sort-Some P [] = (λ h. h, λ h. h)
sort-Some P (i ∷ is) =
    let (to, from) = insert-Some P i (sort is) in
    let (down, up) = sort-Some P is in ((λ h. ⊎-map down (to h)), (λ h. from (⊎-map up h)))
