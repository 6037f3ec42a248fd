-- ===== src/Common/Sums.antt =====
-- Regrouping the sides of a sum.
use mathlib.Core.Logic.{◌⊎◌, inl, inr}

pub ⊎-map : {A B C : Type 0} → (A → B) → C ⊎ A → C ⊎ B
⊎-map f (inl c) = inl c
⊎-map f (inr a) = inr (f a)

pub ⊎-map_left : {A B C : Type 0} → (A → B) → A ⊎ C → B ⊎ C
⊎-map_left f (inl a) = inl (f a)
⊎-map_left f (inr c) = inr c

pub ⊎-comm : {A B : Type 0} → A ⊎ B → B ⊎ A
⊎-comm (inl a) = inr a
⊎-comm (inr b) = inl b

pub ⊎-assoc : {A B C : Type 0} → (A ⊎ B) ⊎ C → A ⊎ (B ⊎ C)
⊎-assoc (inl (inl a)) = inl a
⊎-assoc (inl (inr b)) = inr (inl b)
⊎-assoc (inr c) = inr (inr c)

pub ⊎-unassoc : {A B C : Type 0} → A ⊎ (B ⊎ C) → (A ⊎ B) ⊎ C
⊎-unassoc (inl a) = inl (inl a)
⊎-unassoc (inr (inl b)) = inl (inr b)
⊎-unassoc (inr (inr c)) = inr c

pub ⊎-rotate : {A B C : Type 0} → A ⊎ (B ⊎ C) → B ⊎ (A ⊎ C)
⊎-rotate (inl a) = inr (inl a)
⊎-rotate (inr (inl b)) = inl b
⊎-rotate (inr (inr c)) = inr (inr c)
