-- ===== src/Values/Cpuset/Merging.antt =====
-- The merging loop: the merged intervals are apart from one another, stand in ascending order, and
-- cover what the sorted intervals cover.
use sql_server_analyze.Common.{
  ℕ, ◌+◌, ◌≤◌, ◌<◌, max, ◌↔◌, ◌⊎◌, inl, inr, List, [], ◌∷◌, ◌++◌, reverse, arith, leb, Bool-cases,
  leb→le, All, All-append, Some-reverse, All-reverse, ⊎-map_left, ⊎-assoc, ⊎-unassoc, ⊎-rotate,
}
use mathlib.Core.List.{reverse-cons}
use sql_server_analyze.Values.Cpuset.{Interval, sort, merge_step, merge_loop, merge}
use sql_server_analyze.Values.Cpuset.Sorting.{
  Within, Covers, BeginsFrom, IsOrdered, AllProper, sort-IsOrdered, sort-All, sort-Some,
}

-- Every interval ends at least two below `a`, so that a CPU lies between.
abbrev pub EndsBefore : ℕ → List Interval → Type 0
EndsBefore a = All (λ j. j.1 + 1 < a)

-- `merged` with its last interval first.
abbrev Descends : List Interval → Type 0
Descends [] = Unit
Descends (i ∷ m) = (i.0 ≤ i.1) × EndsBefore i.0 m × Descends m

-- Every interval of the list begins at least two above `a`.
abbrev pub BeginsAfter : ℕ → List Interval → Type 0
BeginsAfter a = All (λ j. a + 1 < j.0)

-- No interval is empty, and between two neighbours there is a CPU that neither covers.
abbrev pub IsCompact : List Interval → Type 0
IsCompact [] = Unit
IsCompact (i ∷ is) = (i.0 ≤ i.1) × BeginsAfter i.1 is × IsCompact is

abbrev HeadUpTo : List Interval → ℕ → Type 0
HeadUpTo [] a = Unit
HeadUpTo (i ∷ m) a = i.0 ≤ a

EndsBefore-mono : (a b : ℕ) (m : List Interval) → a ≤ b → EndsBefore a m → EndsBefore b m
EndsBefore-mono a b [] h _ = tt
EndsBefore-mono a b (i ∷ is) h (p, ps) = (omega arith, EndsBefore-mono a b is h ps)

step-Descends :
    (m : List Interval) (i : Interval)
    → i.0 ≤ i.1
    → HeadUpTo m i.0
    → Descends m
    → Descends (merge_step m i)
unfolding merge_step
step-Descends [] i h _ _ = (h, tt, tt)
step-Descends ((a, b) ∷ m) (s, e) h le (p, ends, d) = elim (Bool-cases (leb s (b + 1))) [
  | inl t ↦ rw t (omega arith, ends, d)
  | inr t ↦ rw t (h, (ground arith, EndsBefore-mono a s m le ends), (p, ends, d))
]

step-HeadUpTo :
    (m : List Interval) (i : Interval) (c : ℕ)
    → i.0 ≤ c
    → HeadUpTo m i.0
    → HeadUpTo (merge_step m i) c
unfolding merge_step
step-HeadUpTo [] i c h _ = h
step-HeadUpTo ((a, b) ∷ m) (s, e) c h le = ground arith

-- An interval that begins at most one behind the last one is absorbed by it.
absorbed :
    (a b s e x : ℕ) (rest : Type 0)
    → s ≤ b + 1
    → Within x (a, max b e) ⊎ rest
    → Within x (s, e) ⊎ (Within x (a, b) ⊎ rest)
absorbed a b s e x rest t (inr c) = inr (inr c)
absorbed a b s e x rest t (inl w) = elim (Bool-cases (leb x b)) [
  | inl u ↦ inr (inl (w.0, leb→le x b u))
  | inr u ↦ inl (ground arith, ground arith)
]

absorbs :
    (a b s e x : ℕ) (rest : Type 0)
    → a ≤ s
    → Within x (s, e) ⊎ (Within x (a, b) ⊎ rest)
    → Within x (a, max b e) ⊎ rest
absorbs a b s e x rest h (inl w) = inl (omega arith, omega arith)
absorbs a b s e x rest h (inr (inl w)) = inl (omega arith, omega arith)
absorbs a b s e x rest h (inr (inr c)) = inr c

step-Covers :
    (m : List Interval) (i : Interval) (x : ℕ)
    → HeadUpTo m i.0
    → Covers (merge_step m i) x ↔ (Within x i ⊎ Covers m x)
unfolding merge_step
step-Covers [] i x _ = (λ c. c, λ c. c)
step-Covers ((a, b) ∷ m) (s, e) x le = elim (Bool-cases (leb s (b + 1))) [
  | inr t ↦ rw t (λ c. c, λ c. c)
  | inl t ↦
      rw t (absorbed a b s e x (Covers m x) (leb→le s (b + 1) t), absorbs a b s e x (Covers m x) le)
]

HeadUpTo-BeginsFrom :
    (m : List Interval) (i : Interval) (is : List Interval)
    → i.0 ≤ i.0
    → BeginsFrom i.0 is
    → HeadUpTo m i.0
    → All (λ j. HeadUpTo (merge_step m i) j.0) is
HeadUpTo-BeginsFrom m i [] _ _ _ = tt
HeadUpTo-BeginsFrom m i (j ∷ is) r (h, hs) u =
    (step-HeadUpTo m i j.0 h u, HeadUpTo-BeginsFrom m i is r hs u)

-- What the loop needs of the intervals that are left.
record IsReady (m is : List Interval) : Type 0 where
  ordered : IsOrdered is
  proper : AllProper is
  behind : All (λ j. HeadUpTo m j.0) is
  descends : Descends m

IsReady-step :
    (m : List Interval) (i : Interval) (is : List Interval)
    → IsReady m (i ∷ is)
    → IsReady (merge_step m i) is
IsReady-step m i is r = record {
  ordered = r.ordered.1;
  proper = r.proper.1;
  behind = HeadUpTo-BeginsFrom m i is (omega arith) r.ordered.0 r.behind.0;
  descends = step-Descends m i r.proper.0 r.behind.0 r.descends;
}

loop-Descends : (m is : List Interval) → IsReady m is → Descends (merge_loop m is)
unfolding merge_loop
loop-Descends m [] r = r.descends
loop-Descends m (i ∷ is) r = loop-Descends (merge_step m i) is (IsReady-step m i is r)

loop-Covers :
    (m is : List Interval) (x : ℕ)
    → IsReady m is
    → Covers (merge_loop m is) x ↔ (Covers m x ⊎ Covers is x)
unfolding merge_loop
loop-Covers m [] x r = (λ c. inl c, back)
  where
    back : Covers m x ⊎ ⊥ → Covers m x
    back (inl c) = c
    back (inr h) = absurd h
loop-Covers m (i ∷ is) x r =
    let (to, from) = loop-Covers (merge_step m i) is x (IsReady-step m i is r) in
    let (down, up) = step-Covers m i x r.behind.0 in
    ((λ c. ⊎-rotate_out (⊎-map_left down (to c))), (λ c. from (⊎-map_left up (⊎-rotate_in c))))
  where
    ⊎-rotate_out : {A B C : Type 0} → (A ⊎ B) ⊎ C → B ⊎ (A ⊎ C)
    ⊎-rotate_out h = ⊎-rotate (⊎-assoc h)

    ⊎-rotate_in : {A B C : Type 0} → B ⊎ (A ⊎ C) → (A ⊎ B) ⊎ C
    ⊎-rotate_in h = ⊎-unassoc (⊎-rotate h)

IsCompact-append :
    (is : List Interval) (i : Interval)
    → IsCompact is
    → i.0 ≤ i.1
    → EndsBefore i.0 is
    → IsCompact (is ++ i ∷ [])
IsCompact-append [] i _ h _ = (h, tt, tt)
IsCompact-append (j ∷ js) i (p, after, c) h (b, bs) =
    (p, All-append (λ k. j.1 + 1 < k.0) js (i ∷ []) after (b, tt), IsCompact-append js i c h bs)

reverse-IsCompact : (m : List Interval) → Descends m → IsCompact (reverse m)
reverse-IsCompact [] _ = tt
reverse-IsCompact (i ∷ m) (p, ends, d) = rw reverse-cons (
    IsCompact-append (reverse m) i (reverse-IsCompact m d) p
      (All-reverse (λ j. j.1 + 1 < i.0) m ends))

sorted-IsReady : (is : List Interval) → AllProper is → IsReady [] (sort is)
sorted-IsReady is h = record {
  ordered = sort-IsOrdered is;
  proper = sort-All (λ i. i.0 ≤ i.1) is h;
  behind = anything (sort is);
  descends = tt;
}
  where
    anything : (js : List Interval) → All (λ j. Unit {0}) js
    anything [] = tt
    anything (j ∷ js) = (tt, anything js)

-- The merged intervals are apart from one another and ascend.
pub merge-IsCompact : (is : List Interval) → AllProper is → IsCompact (merge (sort is))
unfolding merge
merge-IsCompact is h =
    reverse-IsCompact (merge_loop [] (sort is)) (loop-Descends [] (sort is) (sorted-IsReady is h))

-- The merged intervals cover what the intervals cover, and nothing else.
pub merge-Covers :
    (is : List Interval) (x : ℕ) → AllProper is → Covers (merge (sort is)) x ↔ Covers is x
unfolding merge
merge-Covers is x h =
    let ready = sorted-IsReady is h in
    let (a, a') = Some-reverse (Within x) (merge_loop [] (sort is)) in
    let (b, b') = loop-Covers [] (sort is) x ready in
    let (c, c') = sort-Some (Within x) is in
    ((λ w. c (only (b (a w)))), (λ w. a' (b' (inr (c' w)))))
  where
    only : ⊥ ⊎ Covers (sort is) x → Covers (sort is) x
    only (inl w) = absurd w
    only (inr w) = w
