-- ===== src/Values/Cpuset/Counting.antt =====
-- The number of CPUs of a compact list, against counting the CPUs one by one.
use sql_server_analyze.Common.{
  ℕ, zero, suc, ◌+◌, ◌-◌, ◌≤◌, ◌<◌, min, ◌≡◌, refl, ◌&&◌, ◌||◌, Bool, true, false, List, [], ◌∷◌,
  arith, leb, if◌then◌else◌, All,
}
use sql_server_analyze.Values.Cpuset.{Interval, cpu_count_of}
use sql_server_analyze.Values.Cpuset.Merging.{BeginsAfter, IsCompact}

-- How many numbers below `n` satisfy the test.
pub count_below : ℕ → (ℕ → Bool) → ℕ
count_below zero p = 0
count_below (suc n) p = (if p n then 1 else 0) + count_below n p

abbrev pub within : Interval → ℕ → Bool
within (start, end) x = leb start x && leb x end

-- The CPU `x` lies in one of the intervals, as a test.
abbrev pub covered : List Interval → ℕ → Bool
covered [] x = false
covered (i ∷ is) x = within i x || covered is x

-- Every interval ends below `n`.
abbrev pub EndsBelow : ℕ → List Interval → Type 0
EndsBelow n = All (λ i. i.1 < n)

count_below-within : (n s e : ℕ) → s ≤ e + 1 → count_below n (within (s, e)) ≡ min n (e + 1) - s
unfolding count_below
count_below-within zero s e h = omega arith
count_below-within (suc n) s e h = ground (arith, count_below-within n s e h)

count_below-or :
    (n : ℕ) (p q : ℕ → Bool)
    → ((x : ℕ) → p x ≡ true → q x ≡ false)
    → count_below n (λ x. p x || q x) ≡ count_below n p + count_below n q
unfolding count_below
count_below-or zero p q h = omega arith
count_below-or (suc n) p q h = ground (arith, h n, count_below-or n p q h)

count_below-none : (n : ℕ) → count_below n (λ x. false) ≡ 0
unfolding count_below
count_below-none zero = refl
count_below-none (suc n) = omega (arith, count_below-none n)

uncovered : (a : ℕ) (is : List Interval) (x : ℕ) → BeginsAfter a is → x ≤ a → covered is x ≡ false
uncovered a [] x _ h = refl
uncovered a (i ∷ is) x (b, bs) h = ground (arith, uncovered a is x bs h)

-- The count of a compact list is the number of the CPUs that it covers.
pub count_below-covered :
    (n : ℕ) (is : List Interval)
    → IsCompact is
    → EndsBelow n is
    → count_below n (covered is) ≡ cpu_count_of is
unfolding cpu_count_of
count_below-covered n [] _ _ = count_below-none n
count_below-covered n (i ∷ is) (p, after, c) (b, bs) =
    let apart =
      count_below-or n (within i) (covered is) (λ x w. uncovered i.1 is x after (ground arith)) in
    omega (arith, apart, count_below-within n i.0 i.1 (omega arith), count_below-covered n is c bs)
