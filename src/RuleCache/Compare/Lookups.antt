-- ===== src/RuleCache/Compare/Lookups.antt =====
-- Two records of the cache, entry by entry.
use sql_server_analyze.Common.{
  ◌≡◌, inl, inr, not, Bool, true, false, List, [], ◌∷◌, Option, none, some, arith, Bool-cases,
  is_empty, select,
}
use sql_server_analyze.Text.{Text, text_eq, text_eq→eq, member}
use sql_server_analyze.RuleCache.Texts.{In, member-select}
use sql_server_analyze.RuleCache.Record.{Source, Sources, lookup, paths_of}
use sql_server_analyze.RuleCache.Record.Lookup.{In-lookup, not-In-lookup}
use sql_server_analyze.RuleCache.Compare.{differs, changed_paths, without}

-- An empty selection leaves out every item.
pub nothing_selected :
    (q : Text) (p : Text → Bool) (xs : List Text)
    → is_empty (select p xs) ≡ true
    → In q xs
    → p q ≡ false
unfolding member
nothing_selected q p [] e h = cc
nothing_selected q p (x ∷ xs) e h = elim (Bool-cases (p x)) [
  | inl t ↦ cc (rw t at e)
  | inr t ↦ elim (Bool-cases (text_eq q x)) [
    | inl s ↦ let same : q ≡ x = text_eq→eq q x s in rw same t
    | inr s ↦ nothing_selected q p xs (rw t at e) (ground arith)
  ]
]

-- The entries of a path in two records: both there, with the test failed, or both missing.
abbrev pub Both : (Source → Source → Bool) → Option Source → Option Source → Type 0
Both test (some o) (some n) = test o n ≡ false
Both test none none = Unit
Both test _ _ = ⊥

module _ (old new : Sources) where
  pub record SamePaths : Type 0 where
    pub no_added : is_empty (without (paths_of new) (paths_of old)) ≡ true
    pub no_removed : is_empty (without (paths_of old) (paths_of new)) ≡ true

  pub lookups :
      SamePaths
      → (test : Source → Source → Bool) (q : Text)
      → (In q (paths_of new) → differs test (lookup q old) (lookup q new) ≡ false)
      → Both test (lookup q old) (lookup q new)
  lookups same test q unchanged = elim (Bool-cases (member q (paths_of new))) [
    | inl t ↦
        let (o, eo) = In-lookup q old (in_old t) in
        let (n, en) = In-lookup q new t in rw (eo, en) (rw (eo, en) at (unchanged t))
    | inr t ↦ rw (not-In-lookup q old (not_old t), not-In-lookup q new t) tt
  ]
    where
      in_old : In q (paths_of new) → In q (paths_of old)
      in_old t =
          let kept =
            nothing_selected q (λ x. not (member x (paths_of old))) (paths_of new) same.no_added
              t in
          ground (arith, kept)

      not_old : member q (paths_of new) ≡ false → member q (paths_of old) ≡ false
      not_old t = elim (Bool-cases (member q (paths_of old))) [
        | inr n ↦ n
        | inl i ↦
            let kept =
              nothing_selected q (λ x. not (member x (paths_of new))) (paths_of old) same.no_removed
                i in
            cc (rw t at kept)
      ]

  -- A path that is not among the changed ones has not changed.
  pub unchanged_at :
      (test : Source → Source → Bool) (q : Text)
      → member q (changed_paths test old new) ≡ false
      → In q (paths_of new)
      → differs test (lookup q old) (lookup q new) ≡ false
  unchanged_at test q n h =
      let both = member-select q (λ p. differs test (lookup p old) (lookup p new)) (paths_of new) in
      ground (arith, both)
