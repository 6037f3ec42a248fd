-- ===== src/RuleCache/Discovery/Steps.antt =====
-- What each step of a discovery does: it keeps the invariant, loses no path, and brings the end nearer.
use sql_server_analyze.Common.{
  ℕ, ◌+◌, ◌≤◌, ◌<◌, ◌≡◌, inl, inr, refl, ◌∙◌, ◌&&◌, Bool, true, false, List, [], ◌∷◌, Option, none,
  some, arith, if◌then◌else◌, Bool-cases, length, length-append,
}
use sql_server_analyze.Text.{Text, codes, text_eq, text_eq→eq, text_eq_refl, member, starts_with}
use sql_server_analyze.RuleCache.Texts.{In}
use sql_server_analyze.RuleCache.Validate.{global_prefix}
use sql_server_analyze.RuleCache.Capture.{Location}
use sql_server_analyze.RuleCache.Discovery.{
  looks_like_rule_path, is_foreign, Discoveries, paths, put_location, add_reason, locate, depend,
  Files, child_at, add_extra, add_extras, follow_resolved, follow_references, follow_text,
  process_source,
}
use sql_server_analyze.RuleCache.Discovery.Kept.{
  Nearly, Keeps, Keeps-Nearly, locate-Keeps, depend-Nearly, member-put_location,
}

-- The files that are not located yet.
pub unlocated : List Text → List (Text × Location) → ℕ
unlocated [] items = 0
unlocated (p ∷ ps) items = (if member p (paths items) then 0 else 1) + unlocated ps items

unlocated_fewer :
    (ps : List Text) (p : Text) (l : Location) (items : List (Text × Location))
    → unlocated ps (put_location p l items) ≤ unlocated ps items
unfolding unlocated
unlocated_fewer [] p l items = omega arith
unlocated_fewer (q ∷ ps) p l items =
    ground (arith, unlocated_fewer ps p l items, member-put_location q p l items)

unlocated_lt :
    (ps : List Text) (p : Text) (l : Location) (items : List (Text × Location))
    → In p ps
    → member p (paths items) ≡ false
    → unlocated ps (put_location p l items) < unlocated ps items
unfolding unlocated member
unlocated_lt [] p l items h n = cc
unlocated_lt (q ∷ ps) p l items h n = elim (Bool-cases (text_eq p q)) [
  | inl t ↦
      let same : p ≡ q = text_eq→eq p q t in
      let now : member q (paths (put_location p l items)) ≡ true =
        member-put_location q p l items ∙ rw (same, text_eq_refl q) refl in
      rw (now, rw same at n) (omega (arith, unlocated_fewer ps p l items))
  | inr t ↦ ground (arith, unlocated_lt ps p l items, member-put_location q p l items)
]

pub unlocated_bound :
    (ps : List Text) (items : List (Text × Location)) → unlocated ps items ≤ length ps
unfolding unlocated
unlocated_bound [] items = omega arith
unlocated_bound (p ∷ ps) items = ground (arith, unlocated_bound ps items)

module _ (universe : List Text) where
  -- The sources that wait, and the files that may yet be located.
  abbrev pub weight : Discoveries → ℕ
  weight d = length d.queue + unlocated universe d.locations

  pub record Step (d e : Discoveries) : Type 0 where
    pub keeps : Keeps e
    pub more : (q : Text) → In q (paths d.locations) → In q (paths e.locations)
    pub lighter : weight e ≤ weight d

  pub Step-stay : (d : Discoveries) → Keeps d → Step d d
  Step-stay d k = record { keeps = k; more = λ q h. h; lighter = omega arith }

  pub Step-then : {d e f : Discoveries} → Step d e → Step e f → Step d f
  Step-then s t = record {
    keeps = t.keeps;
    more = λ q h. t.more q (s.more q h);
    lighter = omega (arith, s.lighter, t.lighter);
  }

  Step-reason : (reason : Text) (d : Discoveries) → Keeps d → Step d (add_reason reason d)
  Step-reason reason d k = record {
    keeps = record {
      ordered = k.ordered;
      outside = k.outside;
      inside = k.inside;
      queued = k.queued;
    };
    more = λ q h. h;
    lighter = omega arith;
  }

  -- Locating a file of the repository.
  Step-locate :
      (l : Location) (d : Discoveries)
      → In l.canonical_path universe
      → Nearly l.canonical_path d
      → Step d (locate l d)
  unfolding locate
  Step-locate l d u n = record { keeps = locate-Keeps l d n; more = more; lighter = lighter }
    where
      more : (q : Text) → In q (paths d.locations) → In q (paths (locate l d).locations)
      more q h = elim (Bool-cases (member l.canonical_path (paths d.locations))) [
        | inl t ↦ rw t h
        | inr t ↦ rw t (ground (arith, member-put_location q l.canonical_path l d.locations))
      ]

      lighter : weight (locate l d) ≤ weight d
      lighter = elim (Bool-cases (member l.canonical_path (paths d.locations))) [
        | inl t ↦ rw t (omega arith)
        | inr t ↦ rw t (
            omega (
              arith,
              unlocated_lt universe l.canonical_path l d.locations u t,
              length-append d.queue (l ∷ []),
            ))
      ]

  module _ (files : Files)
      (within : (s r p : Text) → files.resolve s r ≡ some p → In p universe) where
    Step-resolved :
        (l : Location) (reference : Text) (strong : Bool) (target : Option Text) (d : Discoveries)
        → ((p : Text) → target ≡ some p → In p universe)
        → In l.canonical_path (paths d.locations)
        → Keeps d
        → Step d (follow_resolved files l reference strong target d)
    Step-resolved l reference strong none d u h k =
        elim (Bool-cases (strong && looks_like_rule_path reference)) [
          | inl t ↦ rw t (Step-reason (codes "UNRESOLVED_REFERENCE") d k)
          | inr t ↦ rw t (Step-stay d k)
        ]
    Step-resolved l reference strong (some p) d u h k =
        let s =
          Step-locate (child_at p) (depend l.canonical_path p d) (u p refl)
            (depend-Nearly l.canonical_path p d h k) in
        record { keeps = s.keeps; more = s.more; lighter = s.lighter }

    Step-references :
        (l : Location) (references : List (Text × Bool)) (d : Discoveries)
        → In l.canonical_path (paths d.locations)
        → Keeps d
        → Step d (follow_references files l references d)
    unfolding follow_references
    Step-references l [] d h k = Step-stay d k
    Step-references l ((reference, strong) ∷ references) d h k =
        elim (Bool-cases (is_foreign reference)) [
          | inl t ↦ rw t (Step-references l references d h k)
          | inr t ↦
              let s =
                Step-resolved l reference strong (files.resolve l.canonical_path reference) d
                  (within l.canonical_path reference) h k in
              rw t
                (Step-then s (Step-references l references _ (s.more l.canonical_path h) s.keeps))
        ]

    pub Step-process_source :
        (l : Location) (d : Discoveries)
        → In l.canonical_path (paths d.locations)
        → Keeps d
        → Step d (process_source files l d)
    unfolding process_source
    Step-process_source l d h k = elim (Bool-cases (starts_with global_prefix l.canonical_path)) [
      | inl t ↦ rw t (Step-stay d k)
      | inr t ↦ rw t (of_text (files.references l))
    ]
      where
        of_text : (r : Option (List (Text × Bool))) → Step d (follow_text files l r d)
        of_text (some references) = Step-references l references d h k
        of_text none =
            elim (Bool-cases (
              member l.source_kind
                (codes "instruction" ∷ codes "rule_index" ∷ codes "context" ∷ []))) [
                  | inl t ↦ rw t (Step-reason (codes "RULE_SOURCE_ENCODING_UNSUPPORTED") d k)
                  | inr t ↦ rw t (Step-stay d k)
                ]

    pub Step-extras :
        (rules : List Text) (d : Discoveries) → Keeps d → Step d (add_extras files rules d)
    unfolding add_extras
    Step-extras [] d k = Step-stay d k
    Step-extras (rule ∷ rules) d k =
        let s =
          of_rule (files.resolve (codes "AGENTS.md") rule) (within (codes "AGENTS.md") rule) in
        Step-then s (Step-extras rules _ s.keeps)
      where
        of_rule :
            (target : Option Text)
            → ((p : Text) → target ≡ some p → In p universe)
            → Step d (add_extra target d)
        of_rule none u = Step-reason (codes "UNRESOLVED_REFERENCE") d k
        of_rule (some p) u = Step-locate (child_at p) d (u p refl) (Keeps-Nearly p d k)
