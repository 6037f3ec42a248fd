-- ===== src/Text/Laws.antt =====
-- Laws of the text operations: stripping, cutting and prefixes.
use mathlib.Core.List.{reverse-append, reverse-reverse}
use sql_server_analyze.Common.{
  ℕ, ◌≡◌, ◌≢◌, refl, sym, ◌∙◌, Bool, true, false, List, [], ◌∷◌, ◌++◌, reverse, arith, ◌==◌,
  if◌then◌else◌, ap, Bool-cases, &&_left, &&_right, ==→eq, inl, inr, All, append-nil,
}
use sql_server_analyze.Text.{Text, lstrip, strip, split, cons_head, head_is, starts_with, ends_with}

-- What `sep.join(parts)` gives.
unfoldable pub join : ℕ → List Text → Text
join sep [] = []
join sep (p ∷ []) = p
join sep (p ∷ q ∷ ps) = p ++ sep ∷ join sep (q ∷ ps)

-- The character does not occur.
abbrev pub Lacks : ℕ → Text → Type 0
Lacks sep = All (λ c. c ≢ sep)

pub split-ne-nil : (sep : ℕ) (s : Text) → split sep s ≢ []
unfolding split
split-ne-nil sep [] = ground arith
split-ne-nil sep (c ∷ s) =
    elim (split sep s) as (λ ps. (if c == sep then [] ∷ ps else cons_head c ps) ≢ []) [
      | [] ↦ ground arith
      | p ∷ ps ↦ ground arith
    ]

join-cons_head :
    (sep c : ℕ) (ps : List Text) → ps ≢ [] → join sep (cons_head c ps) ≡ c ∷ join sep ps
unfolding join
join-cons_head sep c [] h = absurd (h refl)
join-cons_head sep c (p ∷ []) h = refl
join-cons_head sep c (p ∷ q ∷ ps) h = refl

join-nil_cons : (sep : ℕ) (ps : List Text) → ps ≢ [] → join sep ([] ∷ ps) ≡ sep ∷ join sep ps
unfolding join
join-nil_cons sep [] h = absurd (h refl)
join-nil_cons sep (p ∷ ps) h = refl

-- Joining the parts of a cut gives the text back.
pub join-split : (sep : ℕ) (s : Text) → join sep (split sep s) ≡ s
unfolding split
join-split sep [] = unfold join in refl
join-split sep (c ∷ s) = elim (Bool-cases (c == sep)) [
  | inl e ↦
      rw e
        (cc (join-nil_cons sep (split sep s) (split-ne-nil sep s), join-split sep s, ==→eq c sep e))
  | inr e ↦ rw e (cc (join-cons_head sep c (split sep s) (split-ne-nil sep s), join-split sep s))
]

cons_head-Lacks :
    (sep c : ℕ) (ps : List Text)
    → (c == sep) ≡ false
    → All (Lacks sep) ps
    → All (Lacks sep) (cons_head c ps)
cons_head-Lacks sep c [] e h = ((ground arith, tt), tt)
cons_head-Lacks sep c (p ∷ ps) e (hp, hps) = ((ground arith, hp), hps)

-- No part of a cut holds the separator.
pub split-Lacks : (sep : ℕ) (s : Text) → All (Lacks sep) (split sep s)
unfolding split
split-Lacks sep [] = (tt, tt)
split-Lacks sep (c ∷ s) = elim (Bool-cases (c == sep)) [
  | inl e ↦ rw e (tt, split-Lacks sep s)
  | inr e ↦ rw e (cons_head-Lacks sep c (split sep s) e (split-Lacks sep s))
]

split-append :
    (sep : ℕ) (p s : Text)
    → Lacks sep p
    → (q : Text) (qs : List Text) → split sep s ≡ q ∷ qs
    → split sep (p ++ s) ≡ (p ++ q) ∷ qs
unfolding split
split-append sep [] s h q qs e = e
split-append sep (c ∷ p) s (hc, hp) q qs e = ground (arith, split-append sep p s hp q qs e)

split_at_sep : (sep : ℕ) (s : Text) → split sep (sep ∷ s) ≡ [] ∷ split sep s
unfolding split
split_at_sep sep s = ground arith

-- A text without the separator is its only part.
pub split_whole : (sep : ℕ) (p : Text) → Lacks sep p → split sep p ≡ p ∷ []
unfolding split
split_whole sep [] h = refl
split_whole sep (c ∷ p) (hc, hp) = ground (arith, split_whole sep p hp)

-- Cutting a join gives the parts back, if there is one and none holds the separator.
pub split-join :
    (sep : ℕ) (ps : List Text) → ps ≢ [] → All (Lacks sep) ps → split sep (join sep ps) ≡ ps
unfolding join
split-join sep [] ne h = absurd (ne refl)
split-join sep (p ∷ []) ne (hp, _) = split_whole sep p hp
split-join sep (p ∷ q ∷ ps) ne (hp, hps) =
    rw
      (split-append sep p (sep ∷ join sep (q ∷ ps)) hp [] (split sep (join sep (q ∷ ps)))
        (split_at_sep sep (join sep (q ∷ ps))))
      (rw append-nil (ap (◌∷◌ p) (split-join sep (q ∷ ps) (ground arith) hps)))

-- A text whose ends do not satisfy `p` is left as it is by `strip`.
pub lstrip_keeps : (p : ℕ → Bool) (s : Text) → head_is p s ≡ false → lstrip p s ≡ s
unfolding lstrip
lstrip_keeps p [] h = refl
lstrip_keeps p (c ∷ s) h = rw h

pub strip_keeps :
    (p : ℕ → Bool) (s : Text) → head_is p s ≡ false → head_is p (reverse s) ≡ false → strip p s ≡ s
unfolding strip
strip_keeps p s h k = rw (lstrip_keeps p s h, lstrip_keeps p (reverse s) k) (reverse-reverse s)

-- The prefix that `startswith` finds.
pub starts_with_split : (t s : Text) → starts_with t s ≡ true → (r : Text) × (s ≡ t ++ r)
unfolding starts_with
starts_with_split [] s h = (s, refl)
starts_with_split (c ∷ t) [] h = cc
starts_with_split (c ∷ t) (d ∷ s) h =
    let (r, e) = starts_with_split t s (&&_right (c == d) (starts_with t s) h) in
    (r, cc (e, ==→eq c d (&&_left (c == d) (starts_with t s) h)))

pub starts_with-append : (t r : Text) → starts_with t (t ++ r) ≡ true
unfolding starts_with
starts_with-append [] r = refl
starts_with-append (c ∷ t) r = ground (arith, starts_with-append t r)

-- `endswith` holds exactly of the texts with that end.
pub ends_with_iff : (t s : Text) → (ends_with t s ≡ true) → (r : Text) × (s ≡ r ++ t)
unfolding ends_with
ends_with_iff t s h =
    let (r, e) = starts_with_split (reverse t) (reverse s) h in
    (
      reverse r,
      sym (reverse-reverse s)
          ∙ ap reverse e
          ∙ reverse-append (reverse t) r
          ∙ ap (λ u. reverse r ++ u) (reverse-reverse t),
    )

pub ends_with-append : (t r : Text) → ends_with t (r ++ t) ≡ true
unfolding ends_with
ends_with-append t r = rw reverse-append (starts_with-append (reverse t) (reverse r))
