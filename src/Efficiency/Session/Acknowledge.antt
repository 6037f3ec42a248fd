-- ===== src/Efficiency/Session/Acknowledge.antt =====
-- What a session acknowledges is there at the next check.
use sql_server_analyze.Common.{
  ◌≡◌, inl, inr, refl, ap, ◌∙◌, true, List, [], ◌∷◌, Option, none, some, arith, Bool-cases,
}
use sql_server_analyze.Text.{Text, text_eq, text_eq→eq, text_eq_refl, member}
use sql_server_analyze.RuleCache.Texts.{In}
use sql_server_analyze.Efficiency.Session.{
  Context, SessionError, value_at, held, check, retain, present_analyses, retain_present,
  acknowledge,
}
use sql_server_analyze.Efficiency.Session.Laws.{IsDict, key_held, member-reuse}

abbrev pub sources_in : {B : Type 0} → List (Text × B) → List Text
sources_in [] = []
sources_in ((source, b) ∷ items) = source ∷ sources_in items

module _ {A : Type 0} where
  held-cons :
      (k : Text) (a : A) (j : Text) (available : List (Text × A))
      → held (value_at j available) ≡ true
      → held (value_at j ((k, a) ∷ available)) ≡ true
  unfolding value_at
  held-cons k a j available h = elim (Bool-cases (text_eq k j)) [
    | inl t ↦ rw t refl
    | inr t ↦ rw t h
  ]

  held-own :
      (k : Text) (a : A) (available : List (Text × A))
      → held (value_at k ((k, a) ∷ available)) ≡ true
  unfolding value_at
  held-own k a available = rw (text_eq_refl k) refl

  abbrev Done : List (Text × A) × Option SessionError → List (Text × A) → Type 0
  Done r after = r ≡ (after, none)

  key_held-some :
      (j : Text) (k : Option Text) (available : List (Text × A))
      → k ≡ some j
      → held (value_at j available) ≡ true
      → key_held available k ≡ true
  key_held-some j k available e h = rw e h

  -- The turn of the loop for one analysis.
  retain-cons :
      (keys : List (Text × Text)) (available after : List (Text × A)) (source : Text) (a : A)
      (analyses : List (Text × A))
      → Done (retain keys available ((source, a) ∷ analyses)) after
      → (k : Text) × (value_at source keys ≡ some k)
        × Done (retain keys ((k, a) ∷ available) analyses) after
  unfolding retain
  retain-cons keys available after source a analyses h = on_key (value_at source keys) refl h
    where
      on_key :
          (v : Option Text)
          → value_at source keys ≡ v
          → Done
              (elim v [
                | none ↦ (available, some SessionError.key_error)
                | some k ↦ retain keys ((k, a) ∷ available) analyses
              ])
              after
          → (k : Text) × (value_at source keys ≡ some k)
            × Done (retain keys ((k, a) ∷ available) analyses) after
      on_key none e h = cc (ap (λ (x : List (Text × A) × Option SessionError). x.1) h)
      on_key (some k) e h = (k, e, h)

  retain-keeps :
      (keys : List (Text × Text)) (available after : List (Text × A)) (analyses : List (Text × A))
      (j : Text)
      → Done (retain keys available analyses) after
      → held (value_at j available) ≡ true
      → held (value_at j after) ≡ true
  unfolding retain
  retain-keeps keys available after [] j d h =
      rw (← ap (λ (x : List (Text × A) × Option SessionError). x.0) d) h
  retain-keeps keys available after ((source, a) ∷ analyses) j d h =
      let (k, e, rest) = retain-cons keys available after source a analyses d in
      retain-keeps keys ((k, a) ∷ available) after analyses j rest (held-cons k a j available h)

  retain-holds :
      (keys : List (Text × Text)) (available after : List (Text × A)) (analyses : List (Text × A))
      (p : Text)
      → Done (retain keys available analyses) after
      → In p (sources_in analyses)
      → key_held after (value_at p keys) ≡ true
  unfolding member
  retain-holds keys available after [] p d i = cc
  retain-holds keys available after ((source, a) ∷ analyses) p d i =
      let (k, e, rest) = retain-cons keys available after source a analyses d in
      elim (Bool-cases (text_eq p source)) [
        | inl t ↦
            let same : p ≡ source = text_eq→eq p source t in
            rw same (
              key_held-some k _ after e (
                retain-keeps keys ((k, a) ∷ available) after analyses k rest
                  (held-own k a available)))
        | inr t ↦ retain-holds keys ((k, a) ∷ available) after analyses p rest (ground arith)
      ]

  present_analyses-sources :
      (analyses : List (Text × Option A)) (ps : List (Text × A))
      → present_analyses analyses ≡ some ps
      → sources_in ps ≡ sources_in analyses
  unfolding present_analyses
  present_analyses-sources [] ps h = let same : [] ≡ ps = cc in rw (← same) refl
  present_analyses-sources ((source, none) ∷ analyses) ps h = cc
  present_analyses-sources ((source, some a) ∷ analyses) ps h =
      on_rest (present_analyses analyses) (present_analyses-sources analyses) h
    where
      on_rest :
          (r : Option (List (Text × A)))
          → ((qs : List (Text × A)) → r ≡ some qs → sources_in qs ≡ sources_in analyses)
          → elim r [ none ↦ none | some rest ↦ some ((source, a) ∷ rest) ] ≡ some ps
          → sources_in ps ≡ (source ∷ sources_in analyses)
      on_rest none ih h = cc
      on_rest (some rest) ih h =
          let same : ((source, a) ∷ rest) ≡ ps = cc in
          rw (← same) (ap (λ (x : List Text). source ∷ x) (ih rest refl))

  present-holds :
      (keys : List (Text × Text)) (available after : List (Text × A))
      (analyses : List (Text × Option A)) (p : Text)
      → Done (retain_present keys available (present_analyses analyses)) after
      → In p (sources_in analyses)
      → key_held after (value_at p keys) ≡ true
  present-holds keys available after analyses p d i =
      on_present (present_analyses analyses) (present_analyses-sources analyses) d
    where
      on_present :
          (r : Option (List (Text × A)))
          → ((ps : List (Text × A)) → r ≡ some ps → sources_in ps ≡ sources_in analyses)
          → Done (retain_present keys available r) after
          → key_held after (value_at p keys) ≡ true
      on_present none same d = cc (ap (λ (x : List (Text × A) × Option SessionError). x.1) d)
      on_present (some ps) same d = retain-holds keys available after ps p d (rw (same ps refl) i)

  -- When a session has acknowledged analyses without an error, the next check of the same
  -- snapshot, in which no source stands twice, lists every source among them for reuse.
  pub acknowledge-check :
      (available after : List (Text × A)) (snapshot : Context) (analyses : List (Text × Option A))
      (p : Text)
      → IsDict snapshot.analysis_keys
      → acknowledge available snapshot analyses ≡ (after, none)
      → In p (sources_in analyses)
      → In p (check after snapshot).reuse
  unfolding acknowledge
  acknowledge-check available after snapshot analyses p dict d i =
      elim (Bool-cases snapshot.discovery_complete) [
        | inr t ↦ cc (ap (λ (x : List (Text × A) × Option SessionError). x.1) (rw t at d))
        | inl t ↦
            member-reuse after snapshot p dict
            ∙ rw (t, present-holds snapshot.analysis_keys available after analyses p (rw t at d) i)
                refl
      ]
