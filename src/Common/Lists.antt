-- ===== src/Common/Lists.antt =====
-- Lists measured and indexed by native numbers, and predicates over their items.
use Prim.Native.Nat.{ℕ, zero, suc, ◌+◌}
use mathlib.Core.Path.{◌≡◌}
use mathlib.Core.Logic.{◌⊎◌, ◌↔◌, inl, inr}
use mathlib.Core.List.{List, [], ◌∷◌, ◌++◌, reverse, reverse-cons}
use mathlib.Core.Bool.{Bool, true, false, ◌||◌, ◌&&◌}
use mathlib.Core.Option.{Option, none, some}
use native.Mathlib.Omega.{arith}
use sql_server_analyze.Common.Sums.{⊎-map, ⊎-map_left, ⊎-comm, ⊎-assoc, ⊎-unassoc}
use sql_server_analyze.Common.Tests.{if◌then◌else◌}

module _ {ℓ} {A : Type ℓ} where
  abbrev pub length : List A → ℕ
  length [] = 0
  length (x ∷ xs) = suc (length xs)

  abbrev pub get_elem? : List A → ℕ → Option A
  get_elem? [] i = none
  get_elem? (x ∷ xs) zero = some x
  get_elem? (x ∷ xs) (suc i) = get_elem? xs i

  -- `l[:n]`
  abbrev pub take : ℕ → List A → List A
  take zero xs = []
  take (suc n) [] = []
  take (suc n) (x ∷ xs) = x ∷ take n xs

  -- `l[n:]`
  abbrev pub drop : ℕ → List A → List A
  drop zero xs = xs
  drop (suc n) [] = []
  drop (suc n) (x ∷ xs) = drop n xs

  pub length-append : (xs ys : List A) → length (xs ++ ys) ≡ length xs + length ys
  length-append [] ys = omega arith
  length-append (x ∷ xs) ys = omega (arith, length-append xs ys)

  abbrev pub is_empty : List A → Bool
  is_empty [] = true
  is_empty (x ∷ xs) = false

  -- `any(...)` and `all(...)` over a list.
  abbrev pub any : (A → Bool) → List A → Bool
  any p [] = false
  any p (x ∷ xs) = p x || any p xs

  abbrev pub all : (A → Bool) → List A → Bool
  all p [] = true
  all p (x ∷ xs) = p x && all p xs

  -- `[x for x in l if p(x)]`
  abbrev pub select : (A → Bool) → List A → List A
  select p [] = []
  select p (x ∷ xs) = let rest = select p xs in if p x then x ∷ rest else rest

module _ {ℓ} {A : Type ℓ} (P : A → Type 0) where
  abbrev pub All : List A → Type 0
  All [] = Unit
  All (x ∷ xs) = P x × All xs

  -- Some item satisfies `P`, with its place kept.
  abbrev pub Some : List A → Type 0
  Some [] = ⊥
  Some (x ∷ xs) = P x ⊎ Some xs

  pub All-append : (xs ys : List A) → All xs → All ys → All (xs ++ ys)
  All-append [] ys _ hy = hy
  All-append (x ∷ xs) ys (px, hx) hy = (px, All-append xs ys hx hy)

  pub Some-append : (xs ys : List A) → Some (xs ++ ys) ↔ (Some xs ⊎ Some ys)
  Some-append [] ys = (λ h. inr h, drop_left)
    where
      drop_left : ⊥ ⊎ Some ys → Some ys
      drop_left (inl h) = absurd h
      drop_left (inr h) = h
  Some-append (x ∷ xs) ys =
      let (to, from) = Some-append xs ys in
      ((λ h. ⊎-unassoc (⊎-map to h)), (λ h. ⊎-map from (⊎-assoc h)))

  pub Some-reverse : (xs : List A) → Some (reverse xs) ↔ Some xs
  Some-reverse [] = (λ h. h, λ h. h)
  Some-reverse (x ∷ xs) =
      let (to, from) = Some-append (reverse xs) (x ∷ []) in
      let (down, up) = Some-reverse xs in
      rw reverse-cons (
        (λ h. ⊎-map down (⊎-map_only (⊎-comm (to h)))),
        (λ h. from (⊎-comm (⊎-map_left (λ p. inl p) (⊎-map up h)))),
      )
    where
      ⊎-map_only : (P x ⊎ ⊥) ⊎ Some (reverse xs) → P x ⊎ Some (reverse xs)
      ⊎-map_only (inl (inl p)) = inl p
      ⊎-map_only (inl (inr h)) = absurd h
      ⊎-map_only (inr h) = inr h

  pub All-reverse : (xs : List A) → All xs → All (reverse xs)
  All-reverse [] _ = tt
  All-reverse (x ∷ xs) (h, hs) =
      rw reverse-cons (All-append (reverse xs) (x ∷ []) (All-reverse xs hs) (h, tt))
