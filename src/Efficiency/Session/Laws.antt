-- ===== src/Efficiency/Session/Laws.antt =====
-- What a check of a session says, and what acknowledging does for the next one.
use sql_server_analyze.Common.{
  ◌≡◌, ◌↔◌, ◌⊎◌, inl, inr, refl, sym, ◌∙◌, ◌&&◌, ◌||◌, not, Bool, true, false, List, [], ◌∷◌, map,
  Option, none, some, arith, if◌then◌else◌, Bool-cases, &&_left, &&_right, select,
}
use sql_server_analyze.Text.{Text, text_eq, text_eq→eq, text_eq_refl, member}
use sql_server_analyze.RuleCache.Texts.{text_eq_flip, In, member-sorted_set, member-select}
use sql_server_analyze.Efficiency.Session.{
  Context, SessionPlan, SessionError, value_at, held, first_of, sources_of, available_paths, check,
  analysis_at, analysis_for,
}

-- No source stands twice, as in a `dict`.
abbrev pub IsDict : List (Text × Text) → Type 0
IsDict [] = Unit
IsDict ((p, k) ∷ keys) = (member p (map first_of keys) ≡ false) × IsDict keys

member-if :
    (p x : Text) (b : Bool) (ys : List Text)
    → member p (if b then x ∷ ys else ys) ≡ ((b && text_eq p x) || member p ys)
unfolding member
member-if p x true ys = refl
member-if p x false ys = refl

and_false : (b : Bool) → false ≡ (b && false)
and_false true = refl
and_false false = refl

alone : (b : Bool) → ((b && true) || false) ≡ b
alone true = refl
alone false = refl

-- Each source stands in one of the two lists of a check, and nothing else does.
pub record IsSplit (snapshot : Context) (plan : SessionPlan) : Type 0 where
  pub covers : (p : Text) → In p (sources_of snapshot) → In p plan.reuse ⊎ In p plan.reread
  pub listed : (p : Text) → In p plan.reuse ⊎ In p plan.reread → In p (sources_of snapshot)
  pub apart : (p : Text) → In p plan.reuse → ¬ In p plan.reread

module _ {A : Type 0} where
  -- The analysis of a source is there.
  abbrev pub key_held : List (Text × A) → Option Text → Bool
  key_held available none = false
  key_held available (some k) = held (value_at k available)

  available_without :
      (complete : Bool) (available : List (Text × A)) (p : Text) (keys : List (Text × Text))
      → member p (map first_of keys) ≡ false
      → member p (available_paths complete available keys) ≡ false
  unfolding member
  available_without complete available p [] h = refl
  available_without complete available p ((x, k) ∷ keys) h =
      elim (Bool-cases (complete && held (value_at k available))) [
        | inl t ↦ rw t (ground (arith, available_without complete available p keys))
        | inr t ↦ rw t (available_without complete available p keys (ground arith))
      ]

  member-available_paths :
      (complete : Bool) (available : List (Text × A)) (p : Text) (keys : List (Text × Text))
      → IsDict keys
      → member p (available_paths complete available keys)
        ≡ (complete && key_held available (value_at p keys))
  unfolding member value_at
  member-available_paths complete available p [] d = and_false complete
  member-available_paths complete available p ((x, k) ∷ keys) (n, d) =
      let here = complete && held (value_at k available) in
      let later = available_paths complete available keys in
      elim (Bool-cases (text_eq x p)) [
        | inl t ↦
            let same : x ≡ p = text_eq→eq x p t in
            rw (← same, text_eq_refl x)
              (member-if x x here later
                ∙ rw (text_eq_refl x, available_without complete available x keys n) (alone here))
        | inr t ↦ rw t (
            member-if p x here later
            ∙ rw (text_eq_flip x p t)
                (ground (arith, member-available_paths complete available p keys d)))
      ]

  pub member-reuse :
      (available : List (Text × A)) (snapshot : Context) (p : Text)
      → IsDict snapshot.analysis_keys
      → member p (check available snapshot).reuse
        ≡ (snapshot.discovery_complete && key_held available (value_at p snapshot.analysis_keys))
  unfolding check
  member-reuse available snapshot p d =
      member-sorted_set p
        (available_paths snapshot.discovery_complete available snapshot.analysis_keys)
      ∙ member-available_paths snapshot.discovery_complete available p snapshot.analysis_keys d

  member-reread :
      (available : List (Text × A)) (snapshot : Context) (p : Text)
      → member p (check available snapshot).reread
        ≡ (member p (sources_of snapshot) && not (member p (check available snapshot).reuse))
  unfolding check
  member-reread available snapshot p =
      let reuse = (check available snapshot).reuse in
      member-sorted_set p (select (λ x. not (member x reuse)) (sources_of snapshot))
      ∙ member-select p (λ x. not (member x reuse)) (sources_of snapshot)

  value_at-source :
      (available : List (Text × A)) (p : Text) (keys : List (Text × Text))
      → key_held available (value_at p keys) ≡ true
      → In p (map first_of keys)
  unfolding member value_at
  value_at-source available p [] h = cc
  value_at-source available p ((x, k) ∷ keys) h = elim (Bool-cases (text_eq x p)) [
    | inl t ↦ let same : x ≡ p = text_eq→eq x p t in rw (← same, text_eq_refl x) refl
    | inr t ↦ let later = value_at-source available p keys (rw t at h) in ground arith
  ]

  check-IsSplit :
      (available : List (Text × A)) (snapshot : Context)
      → IsDict snapshot.analysis_keys
      → IsSplit snapshot (check available snapshot)
  check-IsSplit available snapshot d = record {
    covers = λ p h. ground (arith, member-reread available snapshot p);
    listed = λ p h. inside p h;
    apart = λ p h k. ground (arith, member-reread available snapshot p);
  }
    where
      inside :
          (p : Text)
          → In p (check available snapshot).reuse ⊎ In p (check available snapshot).reread
          → In p (sources_of snapshot)
      inside p (inl h) =
          value_at-source available p snapshot.analysis_keys
            (&&_right snapshot.discovery_complete _ (sym (member-reuse available snapshot p d) ∙ h))
      inside p (inr h) =
          &&_left (member p (sources_of snapshot)) _ (sym (member-reread available snapshot p) ∙ h)

  -- The analysis is returned, without an error.
  abbrev pub Returned : A ⊎ SessionError → Type 0
  Returned r = (a : A) × (r ≡ inl a)

  analysis-held :
      (available : List (Text × A)) (k : Option Text)
      → key_held available k ≡ true
      → Returned (analysis_at available k)
  analysis-held available none h = cc
  analysis-held available (some k) h = at_value (value_at k available) h
    where
      at_value :
          (v : Option A)
          → held v ≡ true
          → Returned (elim v [ none ↦ inr SessionError.key_error | some a ↦ inl a ])
      at_value none h = cc
      at_value (some a) h = (a, refl)

  held-analysis :
      (available : List (Text × A)) (k : Option Text)
      → Returned (analysis_at available k)
      → key_held available k ≡ true
  held-analysis available none (a, h) = cc
  held-analysis available (some k) (a, h) = at_value (value_at k available) h
    where
      at_value :
          (v : Option A)
          → ◌≡◌ {A = A ⊎ SessionError}
              (elim v [ none ↦ inr SessionError.key_error | some a ↦ inl a ])
              (inl a)
          → held v ≡ true
      at_value none h = cc
      at_value (some a) h = refl

  answered :
      (complete m h : Bool) (r : A ⊎ SessionError)
      → m ≡ (complete && h)
      → (h ≡ true → Returned r)
      → (Returned r → h ≡ true)
      → (m ≡ true) ↔ Returned (if not complete then inr SessionError.value_error else r)
  answered true m h r e f g = (λ k. f (sym e ∙ k), λ k. e ∙ g k)
  answered false m h r e f g = (λ k. cc, λ k. let (a, x) = k in cc)

  -- Each source of a snapshot, in which no source stands twice, stands in exactly one of the
  -- two lists of a check, `reuse` and `reread`, and nothing else does; it stands in `reuse`
  -- exactly when its analysis can be had from the session.
  pub check-analysis_for :
      (available : List (Text × A)) (snapshot : Context)
      → IsDict snapshot.analysis_keys
      → IsSplit snapshot (check available snapshot)
        × ((p : Text)
            → In p (check available snapshot).reuse ↔ Returned (analysis_for available snapshot p))
  unfolding analysis_for
  check-analysis_for available snapshot d = (check-IsSplit available snapshot d, λ p. reusable p)
    where
      reusable :
          (p : Text)
          → In p (check available snapshot).reuse ↔ Returned (analysis_for available snapshot p)
      reusable p =
          let k = value_at p snapshot.analysis_keys in
          answered snapshot.discovery_complete _ (key_held available k) (analysis_at available k)
            (member-reuse available snapshot p d) (analysis-held available k)
            (held-analysis available k)
