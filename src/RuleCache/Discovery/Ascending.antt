-- ===== src/RuleCache/Discovery/Ascending.antt =====
-- A set that is kept in order is its own sorted form.
use sql_server_analyze.Common.{
  ◌≡◌, inl, inr, refl, ◌&&◌, not, Bool, true, false, List, [], ◌∷◌, arith, Bool-cases, &&_left,
  &&_right,
}
use sql_server_analyze.Text.{Text, text_eq}
use sql_server_analyze.RuleCache.Texts.{text_leb, insert_text, sorted_set, text_eq_flip}

-- `s < t` on texts.
abbrev below : Text → Text → Bool
below s t = text_leb s t && not (text_eq s t)

-- The first item is below the one behind it.
abbrev below_head : Text → List Text → Bool
below_head s [] = true
below_head s (t ∷ ts) = below s t

abbrev pub is_ascending : List Text → Bool
is_ascending [] = true
is_ascending (t ∷ ts) = below_head t ts && is_ascending ts

text_leb_total : (s t : Text) → text_leb s t ≡ false → text_leb t s ≡ true
text_leb_total [] t h = cc
text_leb_total (c ∷ s) [] h = refl
text_leb_total (c ∷ s) (d ∷ t) h = ground (arith, text_leb_total s t)

insert-head : (t : Text) (ts : List Text) → below_head t ts ≡ true → insert_text t ts ≡ (t ∷ ts)
unfolding insert_text
insert-head t [] h = refl
insert-head t (s ∷ ts) h = ground arith

pub sorted_set-ascending : (ts : List Text) → is_ascending ts ≡ true → sorted_set ts ≡ ts
unfolding sorted_set
sorted_set-ascending [] h = refl
sorted_set-ascending (t ∷ ts) h =
    rw (sorted_set-ascending ts (&&_right (below_head t ts) (is_ascending ts) h))
      (insert-head t ts (&&_left (below_head t ts) (is_ascending ts) h))

below_head-insert_text :
    (s t : Text) (ts : List Text)
    → below s t ≡ true
    → below_head s ts ≡ true
    → below_head s (insert_text t ts) ≡ true
unfolding insert_text
below_head-insert_text s t [] h k = h
below_head-insert_text s t (u ∷ ts) h k = ground arith

pub insert_text-ascending :
    (t : Text) (ts : List Text) → is_ascending ts ≡ true → is_ascending (insert_text t ts) ≡ true
unfolding insert_text
insert_text-ascending t [] h = refl
insert_text-ascending t (s ∷ ts) h = elim (Bool-cases (text_eq t s)) [
  | inl e ↦ rw e h
  | inr e ↦ elim (Bool-cases (text_leb t s)) [
    | inl l ↦ rw (e, l) (rw (l, e) h)
    | inr l ↦
        let later = insert_text-ascending t ts (&&_right (below_head s ts) (is_ascending ts) h) in
        let first =
          below_head-insert_text s t ts (rw (text_leb_total t s l, text_eq_flip t s e) refl)
            (&&_left (below_head s ts) (is_ascending ts) h) in
        rw (e, l, first) later
  ]
]
