-- ===== src/Reader/Mounts/Deepest.antt =====
-- The mount that `_select_cgroup2_mount` selects is the one deepest candidate.
use sql_server_analyze.Common.{
  ℕ, ◌≤◌, ◌<◌, ◌≡◌, inl, inr, refl, sym, ap, ◌∙◌, subst, Bool, true, false, List, [], ◌∷◌, ◌++◌,
  Option, none, some, arith, ◌==◌, Bool-cases, &&_left, &&_right, ==→eq, ==_refl, length, take,
  select, All,
}
use sql_server_analyze.Text.{Text, text_eq, text_eq→eq, text_eq_refl}
use sql_server_analyze.Metadata.Mountinfo.{Mount, is_cgroup2}
use sql_server_analyze.Reader.Mounts.{
  Candidate, path_components, parts_eq, under_root, candidate, best_depth, only_one, deepest,
}

-- The item `x` with what stands before and behind it, where `P` holds on all of these.
pub record IsOnly {ℓ} {A : Type ℓ} (P : A → Type 0) (x : A) (xs : List A) : Type ℓ where
  pub before : List A
  pub after : List A
  pub whole : xs ≡ before ++ x ∷ after
  pub others_before : All P before
  pub others_after : All P after

pub IsOnly-cons {ℓ} :
    {A : Type ℓ} {P : A → Type 0} {x : A} {xs : List A} (y : A)
    → P y
    → IsOnly P x xs
    → IsOnly P x (y ∷ xs)
IsOnly-cons y h o = record {
  before = y ∷ o.before;
  after = o.after;
  whole = ap (λ (zs : List _). y ∷ zs) o.whole;
  others_before = (h, o.others_before);
  others_after = o.others_after;
}

pub IsOnly-map {ℓ} :
    {A : Type ℓ} {P Q : A → Type 0} {x : A} {xs : List A}
    → ((y : A) → P y → Q y)
    → IsOnly P x xs
    → IsOnly Q x xs
IsOnly-map {Q = Q} f o = record {
  before = o.before;
  after = o.after;
  whole = o.whole;
  others_before = All-map f o.before o.others_before;
  others_after = All-map f o.after o.others_after;
}
  where
    All-map : {P : _ → Type 0} (f : (y : _) → P y → Q y) (ys : List _) → All P ys → All Q ys
    All-map f [] _ = tt
    All-map f (y ∷ ys) (h, hs) = (f y h, All-map f ys hs)

select-none {ℓ} :
    {A : Type ℓ} (Q : A → Type 0) (p : A → Bool) (xs : List A)
    → All Q xs
    → select p xs ≡ []
    → All (λ y. Q y × (p y ≡ false)) xs
select-none Q p [] _ e = tt
select-none Q p (x ∷ xs) (q, qs) e = elim (Bool-cases (p x)) [
  | inl t ↦ cc (rw t at e)
  | inr t ↦ ((q, t), select-none Q p xs qs (rw t at e))
]

-- Where one item is selected, the others fail the test.
select-one {ℓ} :
    {A : Type ℓ} (Q : A → Type 0) (p : A → Bool) (xs : List A) (x : A)
    → All Q xs
    → select p xs ≡ x ∷ []
    → IsOnly (λ y. Q y × (p y ≡ false)) x xs × (p x ≡ true)
select-one Q p [] x _ e = cc
select-one Q p (y ∷ ys) x (q, qs) e = elim (Bool-cases (p y)) [
  | inl t ↦
      let e' = rw t at e in
      let same : y ≡ x = cc e' in
      let none_left : select p ys ≡ [] = cc e' in
      (
        rw (← same) (record {
          before = [];
          after = ys;
          whole = refl;
          others_before = tt;
          others_after = select-none Q p ys qs none_left;
        }),
        ap p (sym same) ∙ t,
      )
  | inr t ↦ let (o, h) = select-one Q p ys x qs (rw t at e) in (IsOnly-cons y (q, t) o, h)
]

below_best : (cs : List Candidate) (n : ℕ) → best_depth cs ≤ n → All (λ c. c.0 ≤ n) cs
unfolding best_depth
below_best [] n h = tt
below_best (c ∷ cs) n h = (omega arith, below_best cs n (omega arith))

-- The depths of all other candidates are smaller.
pub deepest-IsOnly :
    (cs : List Candidate) (m : Mount)
    → deepest cs ≡ some m
    → (d : ℕ) × IsOnly (λ (c : Candidate). c.0 < d) (d, m) cs
unfolding deepest
deepest-IsOnly cs m e = go (select at_best cs) refl e
  where
    at_best : Candidate → Bool
    at_best c = c.0 == best_depth cs

    go :
        (best : List Candidate)
        → select at_best cs ≡ best
        → only_one best ≡ some m
        → (d : ℕ) × IsOnly (λ (c : Candidate). c.0 < d) (d, m) cs
    go [] s f = cc
    go (c ∷ d ∷ best) s f = cc
    go ((d, m') ∷ []) s f =
        let same : m' ≡ m = cc in
        let (o, t) =
          select-one (λ c. c.0 ≤ best_depth cs) at_best cs (d, m')
            (below_best cs (best_depth cs) (omega arith)) s in
        let depth : d ≡ best_depth cs = ==→eq _ _ t in
        (
          d,
          subst (λ (x : Mount). IsOnly (λ (c : Candidate). c.0 < d) (d, x) cs) same
              (IsOnly-map (λ c (h, n). ground arith) o),
        )

-- A mount of the unified hierarchy whose root holds the path.
pub record IsRootOf (member_parts root_parts : List Text) (m : Mount) : Type 0 where
  pub cgroup2 : is_cgroup2 m ≡ true
  pub root_spelled : path_components m.root ≡ some root_parts
  pub holds_path : take (length root_parts) member_parts ≡ root_parts

parts_eq→eq : (ss ts : List Text) → parts_eq ss ts ≡ true → ss ≡ ts
parts_eq→eq [] [] h = refl
parts_eq→eq [] (t ∷ ts) h = cc
parts_eq→eq (s ∷ ss) [] h = cc
parts_eq→eq (s ∷ ss) (t ∷ ts) h =
    cc (text_eq→eq s t (&&_left (text_eq s t) _ h), parts_eq→eq ss ts (&&_right (text_eq s t) _ h))

parts_eq_refl : (ss : List Text) → parts_eq ss ss ≡ true
parts_eq_refl [] = refl
parts_eq_refl (s ∷ ss) = rw (text_eq_refl s) (parts_eq_refl ss)

under_root-IsRootOf :
    (parts : List Text) (m : Mount) (c : Candidate) (found : Option (List Text))
    → is_cgroup2 m ≡ true
    → path_components m.root ≡ found
    → under_root parts m found ≡ some c
    → (c.1 ≡ m) × (root : List Text) × IsRootOf parts root m × (c.0 ≡ length root)
under_root-IsRootOf parts m c none t p f = cc
under_root-IsRootOf parts m c (some root) t p f =
    elim (Bool-cases (parts_eq (take (length root) parts) root)) [
      | inr b ↦ cc (rw b at f)
      | inl b ↦
          let f' = rw b at f in
          let same : (length root, m) ≡ c = cc f' in
          (
            sym (ap (λ (x : Candidate). x.1) same),
            root,
            record { cgroup2 = t; root_spelled = p; holds_path = parts_eq→eq _ root b },
            sym (ap (λ (x : Candidate). x.0) same),
          )
    ]

pub candidate-IsRootOf :
    (parts : List Text) (m : Mount) (c : Candidate)
    → candidate parts m ≡ some c
    → (c.1 ≡ m) × (root : List Text) × IsRootOf parts root m × (c.0 ≡ length root)
unfolding candidate
candidate-IsRootOf parts m c e = elim (Bool-cases (is_cgroup2 m)) [
  | inr t ↦ cc (rw t at e)
  | inl t ↦ under_root-IsRootOf parts m c (path_components m.root) t refl (rw t at e)
]

pub IsRootOf-candidate :
    (parts root : List Text) (m : Mount)
    → IsRootOf parts root m
    → candidate parts m ≡ some (length root, m)
unfolding candidate
IsRootOf-candidate parts root m h =
    rw (h.cgroup2, h.root_spelled, h.holds_path, parts_eq_refl root) refl

best_depth-le : (cs : List Candidate) (d : ℕ) → All (λ c. c.0 < d) cs → best_depth cs ≤ d
unfolding best_depth
best_depth-le [] d _ = omega arith
best_depth-le (c ∷ cs) d (h, hs) = omega (arith, best_depth-le cs d hs)

best_depth-append :
    (before after : List Candidate) (d : ℕ) (m : Mount)
    → All (λ c. c.0 < d) before
    → All (λ c. c.0 < d) after
    → best_depth (before ++ (d, m) ∷ after) ≡ d
unfolding best_depth
best_depth-append [] after d m _ h = omega (arith, best_depth-le after d h)
best_depth-append (c ∷ before) after d m (b, bs) h =
    omega (arith, best_depth-append before after d m bs h)

select_shallow :
    (cs : List Candidate) (d : ℕ)
    → All (λ c. c.0 < d) cs
    → select (λ (c : Candidate). c.0 == d) cs ≡ []
select_shallow [] d _ = refl
select_shallow (c ∷ cs) d (h, hs) =
    let differs : (c.0 == d) ≡ false = ground arith in rw differs (select_shallow cs d hs)

select_deepest :
    (before after : List Candidate) (d : ℕ) (m : Mount)
    → All (λ c. c.0 < d) before
    → All (λ c. c.0 < d) after
    → select (λ (c : Candidate). c.0 == d) (before ++ (d, m) ∷ after) ≡ (d, m) ∷ []
select_deepest [] after d m _ h = rw (==_refl d, select_shallow after d h) refl
select_deepest (c ∷ before) after d m (b, bs) h =
    let differs : (c.0 == d) ≡ false = ground arith in
    rw differs (select_deepest before after d m bs h)

-- A candidate deeper than all others is the one that is returned.
pub IsOnly-deepest :
    (cs : List Candidate) (d : ℕ) (m : Mount)
    → IsOnly (λ (c : Candidate). c.0 < d) (d, m) cs
    → deepest cs ≡ some m
unfolding deepest
IsOnly-deepest cs d m o =
    rw
      (
        o.whole,
        best_depth-append o.before o.after d m o.others_before o.others_after,
        select_deepest o.before o.after d m o.others_before o.others_after,
      )
      refl
