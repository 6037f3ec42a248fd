-- ===== src/Metadata/Mountinfo/Distinct.antt =====
-- Grouping the lines by mount id finds a duplicate exactly when two records share an id.
use sql_server_analyze.Common.{
  ℕ, suc, ◌≤◌, ◌≡◌, ◌≢◌, ◌↔◌, inl, inr, refl, sym, ap, ◌∙◌, List, [], ◌∷◌, ◌++◌, map, arith, ◌==◌,
  Bool-cases, ==→eq, lt→ltb, length, length-append, All, All-append,
}
use sql_server_analyze.Metadata.Mountinfo.{Mount, Groups, add_ordinal, group, duplicate_lines}

-- No two records have one mount id.
abbrev pub DistinctIds : List Mount → Type 0
DistinctIds [] = Unit
DistinctIds (m ∷ ms) = All (λ x. x.mount_id ≢ m.mount_id) ms × DistinctIds ms

-- Every group has one ordinal at most.
abbrev Singles : Groups → Type 0
Singles = All (λ g. length g.1 ≤ 1)

abbrev Nonempty : Groups → Type 0
Nonempty = All (λ g. 1 ≤ length g.1)

abbrev KeyFresh : Groups → ℕ → Type 0
KeyFresh gs id = All (λ g. g.0 ≢ id) gs

length-map {ℓ κ} :
    {A : Type ℓ} {B : Type κ} (f : A → B) (xs : List A) → length (map f xs) ≡ length xs
length-map f [] = refl
length-map f (x ∷ xs) = ap suc (length-map f xs)

duplicates-Singles : (gs : Groups) → duplicate_lines gs ≡ [] → Singles gs
unfolding duplicate_lines
duplicates-Singles [] e = tt
duplicates-Singles ((k, []) ∷ gs) e = (omega arith, duplicates-Singles gs e)
duplicates-Singles ((k, o ∷ []) ∷ gs) e = (omega arith, duplicates-Singles gs e)
duplicates-Singles ((k, o ∷ p ∷ os) ∷ gs) e =
    cc (rw (lt→ltb 1 (length (o ∷ p ∷ os)) (omega arith)) at e)

Singles-duplicates : (gs : Groups) → Singles gs → duplicate_lines gs ≡ []
unfolding duplicate_lines
Singles-duplicates [] _ = refl
Singles-duplicates ((k, []) ∷ gs) (h, hs) = Singles-duplicates gs hs
Singles-duplicates ((k, o ∷ []) ∷ gs) (h, hs) = Singles-duplicates gs hs
Singles-duplicates ((k, o ∷ p ∷ os) ∷ gs) (h, hs) = absurd (omega arith)

add-Singles :
    (gs : Groups) (id o : ℕ)
    → Nonempty gs
    → Singles (add_ordinal gs id o)
    → Singles gs × KeyFresh gs id
unfolding add_ordinal
add-Singles [] id o _ _ = (tt, tt)
add-Singles ((k, os) ∷ gs) id o (n, ns) s = elim (Bool-cases (k == id)) [
  | inl e ↦ let h = rw e at s in absurd (omega (arith, h.0, length-append os (o ∷ [])))
  | inr e ↦
      let h = rw e at s in let (a, b) = add-Singles gs id o ns h.1 in ((h.0, a), (ground arith, b))
]

add-Nonempty : (gs : Groups) (id o : ℕ) → Nonempty gs → Nonempty (add_ordinal gs id o)
unfolding add_ordinal
add-Nonempty [] id o _ = (omega arith, tt)
add-Nonempty ((k, os) ∷ gs) id o (n, ns) = elim (Bool-cases (k == id)) [
  | inl e ↦ rw e (omega (arith, length-append os (o ∷ [])), ns)
  | inr e ↦ rw e (n, add-Nonempty gs id o ns)
]

add-KeyFresh :
    (gs : Groups) (id o j : ℕ) → KeyFresh (add_ordinal gs id o) j → KeyFresh gs j × (j ≢ id)
unfolding add_ordinal
add-KeyFresh [] id o j (h, _) = (tt, λ e. h (sym e))
add-KeyFresh ((k, os) ∷ gs) id o j f = elim (Bool-cases (k == id)) [
  | inl e ↦ let h = rw e at f in ((h.0, h.1), λ q. h.0 (==→eq k id e ∙ sym q))
  | inr e ↦ let h = rw e at f in let (a, b) = add-KeyFresh gs id o j h.1 in ((h.0, a), b)
]

add_fresh :
    (gs : Groups) (id o : ℕ) → KeyFresh gs id → add_ordinal gs id o ≡ gs ++ (id, o ∷ []) ∷ []
unfolding add_ordinal
add_fresh [] id o _ = refl
add_fresh ((k, os) ∷ gs) id o (h, hs) = ground (arith, add_fresh gs id o hs)

-- What the loop needs to end without a duplicate.
record IsDuplicateFree (gs : Groups) (ms : List Mount) : Type 0 where
  singles : Singles gs
  fresh : All (λ m. KeyFresh gs m.mount_id) ms
  distinct : DistinctIds ms

fresh-split :
    (gs : Groups) (m : Mount) (ms : List Mount)
    → All (λ x. KeyFresh (add_ordinal gs m.mount_id m.source_ordinal) x.mount_id) ms
    → All (λ x. KeyFresh gs x.mount_id) ms × All (λ x. x.mount_id ≢ m.mount_id) ms
fresh-split gs m [] _ = (tt, tt)
fresh-split gs m (x ∷ xs) (h, hs) =
    let (a, b) = add-KeyFresh gs m.mount_id m.source_ordinal x.mount_id h in
    let (later, below) = fresh-split gs m xs hs in ((a, later), (b, below))

group_sound :
    (ms : List Mount) (gs : Groups) → Nonempty gs → Singles (group gs ms) → IsDuplicateFree gs ms
unfolding group
group_sound [] gs n s = record { singles = s; fresh = tt; distinct = tt }
group_sound (m ∷ ms) gs n s =
    let ih =
      group_sound ms (add_ordinal gs m.mount_id m.source_ordinal)
        (add-Nonempty gs m.mount_id m.source_ordinal n) s in
    let (old, head_fresh) = add-Singles gs m.mount_id m.source_ordinal n ih.singles in
    let (later, apart) = fresh-split gs m ms ih.fresh in
    record { singles = old; fresh = (head_fresh, later); distinct = (apart, ih.distinct) }

fresh-join :
    (gs : Groups) (m : Mount) (ms : List Mount)
    → All (λ x. KeyFresh gs x.mount_id) ms
    → All (λ x. x.mount_id ≢ m.mount_id) ms
    → All (λ x. KeyFresh (gs ++ (m.mount_id, m.source_ordinal ∷ []) ∷ []) x.mount_id) ms
fresh-join gs m [] _ _ = tt
fresh-join gs m (x ∷ xs) (h, hs) (n, ns) = (
  All-append (λ g. g.0 ≢ x.mount_id) gs ((m.mount_id, m.source_ordinal ∷ []) ∷ []) h
      ((λ e. n (sym e)), tt),
  fresh-join gs m xs hs ns,
)

group_complete : (ms : List Mount) (gs : Groups) → IsDuplicateFree gs ms → Singles (group gs ms)
unfolding group
group_complete [] gs d = d.singles
group_complete (m ∷ ms) gs d = rw (add_fresh gs m.mount_id m.source_ordinal d.fresh.0) (
    group_complete ms (gs ++ (m.mount_id, m.source_ordinal ∷ []) ∷ []) (record {
      singles =
          All-append (λ g. length g.1 ≤ 1) gs ((m.mount_id, m.source_ordinal ∷ []) ∷ []) d.singles
            (omega arith, tt);
      fresh = fresh-join gs m ms d.fresh.1 d.distinct.0;
      distinct = d.distinct.1;
    }))

no_groups : (ms : List Mount) → All (λ m. KeyFresh [] m.mount_id) ms
no_groups [] = tt
no_groups (m ∷ ms) = (tt, no_groups ms)

-- No line is reported as a duplicate exactly when all mount ids differ.
pub duplicate_lines-nil_iff :
    (ms : List Mount) → (duplicate_lines (group [] ms) ≡ []) ↔ DistinctIds ms
duplicate_lines-nil_iff ms = (
  (λ e. (group_sound ms [] tt (duplicates-Singles (group [] ms) e)).distinct),
  (λ d.
      Singles-duplicates (group [] ms)
        (group_complete ms [] (record { singles = tt; fresh = no_groups ms; distinct = d }))),
)
