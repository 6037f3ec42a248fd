-- ===== src/RuleCache/Chain/Directories.antt =====
-- The directories of a chain, described by the parts of the working directory.
use sql_server_analyze.Common.{
  ℕ, ◌≡◌, refl, sym, ap, ◌∙◌, false, List, [], ◌∷◌, ◌++◌, map, append-nil, append_assoc, is_empty,
  any,
}
use sql_server_analyze.Text.{Text}
use sql_server_analyze.RuleCache.Chain.{ChainOptions, directories_below}

-- The first part, the first two, and so on.
abbrev pub prefixes : List Text → List (List Text)
prefixes [] = []
prefixes (part ∷ parts) = (part ∷ []) ∷ map (λ l. part ∷ l) (prefixes parts)

-- Each part behind a slash.
abbrev pub slashed : List Text → Text
slashed [] = []
slashed (part ∷ parts) = (b'/' ∷ part) ++ slashed parts

abbrev pub joined : List Text → Text
joined [] = []
joined (part ∷ parts) = part ++ slashed parts

-- The root, whose path is empty, and each directory from it down to the working directory.
abbrev pub working_directories : ChainOptions → List Text
working_directories o = [] ∷ map joined (prefixes o.parts)

map-through {ℓ κ} :
    {A : Type ℓ} {B : Type κ} (f : A → A) (k m : A → B) (xs : List A)
    → ((x : A) → k x ≡ m (f x))
    → map k xs ≡ map m (map f xs)
map-through f k m [] e = refl
map-through f k m (x ∷ xs) e = rw (e x, map-through f k m xs e) refl

directories_below-slashed :
    (c : ℕ) (cursor : Text) (parts : List Text)
    → directories_below (c ∷ cursor) parts ≡ map (λ l. (c ∷ cursor) ++ slashed l) (prefixes parts)
directories_below-slashed c cursor [] = refl
directories_below-slashed c cursor (part ∷ parts) =
    let first : (c ∷ cursor) ++ (b'/' ∷ part) ≡ (c ∷ cursor) ++ slashed (part ∷ []) =
      ap (λ t. (c ∷ cursor) ++ (b'/' ∷ t)) (sym (append-nil part)) in
    let lower =
      directories_below-slashed c (cursor ++ (b'/' ∷ part)) parts
      ∙ map-through (λ l. part ∷ l) (λ l. ((c ∷ cursor) ++ (b'/' ∷ part)) ++ slashed l)
          (λ l. (c ∷ cursor) ++ slashed l) (prefixes parts)
          (λ l. append_assoc (c ∷ cursor) (b'/' ∷ part) (slashed l)) in
    λ i. first i ∷ lower i

-- The directories of the loop are those of the description.
pub directories-working :
    (o : ChainOptions)
    → any is_empty o.parts ≡ false
    → [] ∷ directories_below [] o.parts ≡ working_directories o
directories-working o h = ap (λ l. [] ∷ l) (below_root o.parts h)
  where
    below_root :
        (parts : List Text)
        → any is_empty parts ≡ false
        → directories_below [] parts ≡ map joined (prefixes parts)
    below_root [] e = refl
    below_root ([] ∷ parts) e = cc
    below_root ((c ∷ part) ∷ parts) e =
        let lower =
          directories_below-slashed c part parts
          ∙ map-through (λ l. (c ∷ part) ∷ l) (λ l. (c ∷ part) ++ slashed l) joined (prefixes parts)
              (λ l. refl) in
        λ i. sym (append-nil (c ∷ part)) i ∷ lower i
