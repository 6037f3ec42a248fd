-- ===== src/RuleCache/Graph/Scanning.antt =====
-- One pass of `_dependent_closure` over the sources.
use sql_server_analyze.Common.{
  ℕ, ◌+◌, ◌≤◌, ◌<◌, ◌≡◌, inl, inr, refl, Bool, true, false, List, [], ◌∷◌, map, arith,
  if◌then◌else◌, Bool-cases, length, any, Some,
}
use sql_server_analyze.Text.{Text, text_eq, text_eq→eq, text_eq_refl, member}
use sql_server_analyze.RuleCache.Texts.{In}
use sql_server_analyze.RuleCache.Graph.{Graph, targets, scan_sources}

abbrev pub keys : Graph → List Text
keys g = map (λ (x : Text × List Text). x.0) g

-- No source stands twice.
abbrev pub IsDict : Graph → Type 0
IsDict [] = Unit
IsDict ((k, ds) ∷ g) = (member k (keys g) ≡ false) × IsDict g

abbrev pub Entry : Text → List Text → Graph → Type 0
Entry path deps g = Some (λ (x : Text × List Text). (x.0 ≡ path) × (x.1 ≡ deps)) g

pub Entry-key : (path : Text) (deps : List Text) (g : Graph) → Entry path deps g → In path (keys g)
unfolding member
Entry-key path deps [] h = absurd h
Entry-key path deps ((k, ds) ∷ g) (inl (e, f)) = rw (e, text_eq_refl path) refl
Entry-key path deps ((k, ds) ∷ g) (inr h) = let later = Entry-key path deps g h in ground arith

pub Entry-targets :
    (path : Text) (deps : List Text) (g : Graph)
    → IsDict g
    → Entry path deps g
    → targets g path ≡ deps
unfolding targets
Entry-targets path deps [] d h = absurd h
Entry-targets path deps ((k, ds) ∷ g) d (inl (e, f)) = rw (e, text_eq_refl path) f
Entry-targets path deps ((k, ds) ∷ g) (n, d) (inr h) = elim (Bool-cases (text_eq k path)) [
  | inl t ↦ let same : k ≡ path = text_eq→eq k path t in cc (Entry-key path deps g h, rw same at n)
  | inr t ↦ rw t (Entry-targets path deps g d h)
]

-- The entry that the lookup finds.
pub targets-Entry :
    (u v : Text) (deps : List Text) (g : Graph) → targets g u ≡ deps → In v deps → Entry u deps g
unfolding targets member
targets-Entry u v deps [] e h = cc (rw (← e) at h)
targets-Entry u v deps ((k, ds) ∷ g) e h = elim (Bool-cases (text_eq k u)) [
  | inl t ↦ inl (text_eq→eq k u t, rw t at e)
  | inr t ↦ inr (targets-Entry u v deps g (rw t at e) h)
]

abbrev pub some_invalidated : List Text → List Text → Bool
some_invalidated invalidated deps = any (λ d. member d invalidated) deps

-- What holds before a pass, and is kept by each addition, holds behind it.
pub scan_rule :
    (P : List Text → Bool → Type 0) (ss : Graph)
    → ((invalidated : List Text) (progress : Bool) (path : Text) (deps : List Text)
        → Entry path deps ss
        → P invalidated progress
        → member path invalidated ≡ false
        → some_invalidated invalidated deps ≡ true
        → P (path ∷ invalidated) true)
    → (invalidated : List Text) (progress : Bool) → P invalidated progress
    → P (scan_sources ss invalidated progress).0 (scan_sources ss invalidated progress).1
unfolding scan_sources
scan_rule P [] keep invalidated progress h = h
scan_rule P ((path, deps) ∷ ss) keep invalidated progress h =
    let later = λ (inv : List Text) (pr : Bool) (p : Text) (ds : List Text) (e : Entry p ds ss).
      keep inv pr p ds (inr e) in
    elim (Bool-cases (member path invalidated)) [
      | inl t ↦ rw t (scan_rule P ss later invalidated progress h)
      | inr t ↦ elim (Bool-cases (some_invalidated invalidated deps)) [
        | inl a ↦
            rw (t, a)
              (scan_rule P ss later (path ∷ invalidated) true
                (keep invalidated progress path deps (inl (refl, refl)) h t a))
        | inr a ↦ rw (t, a) (scan_rule P ss later invalidated progress h)
      ]
    ]

-- The sources that are not invalidated.
pub missing : Graph → List Text → ℕ
missing [] invalidated = 0
missing ((k, ds) ∷ g) invalidated = (if member k invalidated then 0 else 1) + missing g invalidated

pub missing-le-length : (g : Graph) (invalidated : List Text) → missing g invalidated ≤ length g
unfolding missing
missing-le-length [] invalidated = omega arith
missing-le-length ((k, ds) ∷ g) invalidated = ground (arith, missing-le-length g invalidated)

missing-cons-le :
    (g : Graph) (c : Text) (invalidated : List Text)
    → missing g (c ∷ invalidated) ≤ missing g invalidated
unfolding missing member
missing-cons-le [] c invalidated = omega arith
missing-cons-le ((k, ds) ∷ g) c invalidated = ground (arith, missing-cons-le g c invalidated)

pub missing-cons-lt :
    (g : Graph) (c : Text) (invalidated : List Text)
    → In c (keys g)
    → member c invalidated ≡ false
    → missing g (c ∷ invalidated) < missing g invalidated
unfolding missing member
missing-cons-lt [] c invalidated h n = cc
missing-cons-lt ((k, ds) ∷ g) c invalidated h n = elim (Bool-cases (text_eq c k)) [
  | inl t ↦
      let same : c ≡ k = text_eq→eq c k t in
      rw (← same, text_eq_refl c, n) (omega (arith, missing-cons-le g c invalidated))
  | inr t ↦ let later = missing-cons-lt g c invalidated (ground arith) n in ground (arith, later)
]

-- The flag that is set stays set.
scan-progress : (ss : Graph) (invalidated : List Text) → (scan_sources ss invalidated true).1 ≡ true
scan-progress ss invalidated =
    scan_rule (λ inv pr. pr ≡ true) ss (λ inv pr p ds e h m a. refl) invalidated true refl

-- A pass without progress changes nothing, and there was nothing to add.
pub scan_done :
    (ss : Graph) (invalidated : List Text)
    → (scan_sources ss invalidated false).1 ≡ false
    → ((scan_sources ss invalidated false).0 ≡ invalidated)
      × ((path : Text) (deps : List Text)
          → Entry path deps ss
          → some_invalidated invalidated deps ≡ true
          → In path invalidated)
unfolding scan_sources
scan_done [] invalidated h = (refl, λ path deps e a. absurd e)
scan_done ((p, ds) ∷ ss) invalidated h = elim (Bool-cases (member p invalidated)) [
  | inl t ↦
      let (same, rest) = scan_done ss invalidated (rw t at h) in
      (rw t same, λ path deps e a. at_entry t rest path deps e a)
  | inr t ↦ elim (Bool-cases (some_invalidated invalidated ds)) [
    | inl a ↦ cc (scan-progress ss (p ∷ invalidated), rw (t, a) at h)
    | inr a ↦
        let (same, rest) = scan_done ss invalidated (rw (t, a) at h) in
        (rw (t, a) same, λ path deps e b. not_here a rest path deps e b)
  ]
]
  where
    at_entry :
        In p invalidated
        → ((path : Text) (deps : List Text)
            → Entry path deps ss
            → some_invalidated invalidated deps ≡ true
            → In path invalidated)
        → (path : Text) (deps : List Text) → Entry path deps ((p, ds) ∷ ss)
        → some_invalidated invalidated deps ≡ true
        → In path invalidated
    at_entry t rest path deps (inl (e, f)) a = rw (← e) t
    at_entry t rest path deps (inr e) a = rest path deps e a

    not_here :
        some_invalidated invalidated ds ≡ false
        → ((path : Text) (deps : List Text)
            → Entry path deps ss
            → some_invalidated invalidated deps ≡ true
            → In path invalidated)
        → (path : Text) (deps : List Text) → Entry path deps ((p, ds) ∷ ss)
        → some_invalidated invalidated deps ≡ true
        → In path invalidated
    not_here n rest path deps (inl (e, f)) a = cc
    not_here n rest path deps (inr e) a = rest path deps e a
