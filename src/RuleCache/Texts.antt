-- ===== src/RuleCache/Texts.antt =====
-- Sets and sorted lists of texts, as the cache of rule analyses uses them.
use sql_server_analyze.Common.{
  ◌≡◌, ◌↔◌, ◌⊎◌, inl, inr, refl, ◌&&◌, ◌||◌, Bool, true, false, List, [], ◌∷◌, ◌++◌, arith, ◌==◌,
  ltb, if◌then◌else◌, Bool-cases, &&_left, &&_right, select,
}
use sql_server_analyze.Text.{Text, text_eq, text_eq→eq, text_eq_refl, member}

-- `a == b` on lists of texts.
abbrev pub texts_eq : List Text → List Text → Bool
texts_eq [] [] = true
texts_eq [] (t ∷ ts) = false
texts_eq (s ∷ ss) [] = false
texts_eq (s ∷ ss) (t ∷ ts) = text_eq s t && texts_eq ss ts

pub texts_eq→eq : (ss ts : List Text) → texts_eq ss ts ≡ true → ss ≡ ts
texts_eq→eq [] [] h = refl
texts_eq→eq [] (t ∷ ts) h = cc
texts_eq→eq (s ∷ ss) [] h = cc
texts_eq→eq (s ∷ ss) (t ∷ ts) h =
    cc (text_eq→eq s t (&&_left (text_eq s t) _ h), texts_eq→eq ss ts (&&_right (text_eq s t) _ h))

pub text_eq_flip : (s t : Text) → text_eq s t ≡ false → text_eq t s ≡ false
text_eq_flip s t h = elim (Bool-cases (text_eq t s)) [
  | inr n ↦ n
  | inl e ↦ let same : t ≡ s = text_eq→eq t s e in cc (rw (same, text_eq_refl s) at h)
]

-- The text is an item of the list.
abbrev pub In : Text → List Text → Type 0
In t ts = member t ts ≡ true

pub In-here : (t : Text) (ts : List Text) → In t (t ∷ ts)
unfolding member
In-here t ts = rw (text_eq_refl t) refl

pub In-there : (t s : Text) (ts : List Text) → In t ts → In t (s ∷ ts)
unfolding member
In-there t s ts h = ground arith

pub In-cases : (t s : Text) (ts : List Text) → In t (s ∷ ts) → (t ≡ s) ⊎ In t ts
unfolding member
In-cases t s ts h = elim (Bool-cases (text_eq t s)) [
  | inl e ↦ inl (text_eq→eq t s e)
  | inr e ↦ inr (ground arith)
]

pub not-In-nil : (t : Text) → ¬ In t []
unfolding member
not-In-nil t h = cc

pub member-append :
    (t : Text) (xs ys : List Text) → member t (xs ++ ys) ≡ (member t xs || member t ys)
unfolding member
member-append t [] ys = refl
member-append t (x ∷ xs) ys = ground (arith, member-append t xs ys)

pub In-append : (t : Text) (xs ys : List Text) → In t (xs ++ ys) ↔ (In t xs ⊎ In t ys)
In-append t xs ys = ground (arith, member-append t xs ys)

pub member-select :
    (t : Text) (p : Text → Bool) (xs : List Text) → member t (select p xs) ≡ (member t xs && p t)
unfolding member
member-select t p [] = refl
member-select t p (x ∷ xs) = elim (Bool-cases (text_eq t x)) [
  | inl e ↦
      let same : t ≡ x = text_eq→eq t x e in
      rw (← same) (elim (Bool-cases (p t)) [
        | inl b ↦ rw (b, text_eq_refl t) refl
        | inr b ↦ rw b (ground (arith, member-select t p xs))
      ])
  | inr e ↦ ground (arith, member-select t p xs)
]

-- `a <= b` on texts, by their code points.
abbrev pub text_leb : Text → Text → Bool
text_leb [] t = true
text_leb (c ∷ s) [] = false
text_leb (c ∷ s) (d ∷ t) = ltb c d || ((c == d) && text_leb s t)

-- Puts an item at its place, once.
unfoldable pub insert_text : Text → List Text → List Text
insert_text t [] = t ∷ []
insert_text t (s ∷ ss) =
    let rest = insert_text t ss in
    if text_eq t s then s ∷ ss else if text_leb t s then t ∷ s ∷ ss else s ∷ rest

-- `sorted(set(items))`
unfoldable pub sorted_set : List Text → List Text
unfolding insert_text
sorted_set [] = []
sorted_set (t ∷ ts) = insert_text t (sorted_set ts)

pub member-insert_text :
    (t s : Text) (ts : List Text) → member t (insert_text s ts) ≡ (text_eq t s || member t ts)
unfolding insert_text member
member-insert_text t s [] = refl
member-insert_text t s (x ∷ ts) = elim (Bool-cases (text_eq s x)) [
  | inl e ↦ let same : s ≡ x = text_eq→eq s x e in rw (e, same) (ground arith)
  | inr e ↦ ground (arith, member-insert_text t s ts)
]

pub member-sorted_set : (t : Text) (ts : List Text) → member t (sorted_set ts) ≡ member t ts
unfolding sorted_set member
member-sorted_set t [] = refl
member-sorted_set t (s ∷ ts) =
    ground (arith, member-insert_text t s (sorted_set ts), member-sorted_set t ts)
