-- ===== src/RuleCache/Discovery/Kept.antt =====
-- What the steps of a discovery keep.
use sql_server_analyze.Common.{
  ◌≡◌, ◌⊎◌, inl, inr, refl, sym, ◌∙◌, ◌||◌, Bool, true, false, List, [], ◌∷◌, ◌++◌, arith,
  if◌then◌else◌, Bool-cases, All, All-append,
}
use sql_server_analyze.Text.{Text, text_eq, text_eq→eq, text_eq_refl, member}
use sql_server_analyze.RuleCache.Texts.{In, text_eq_flip, insert_text, member-insert_text}
use sql_server_analyze.RuleCache.Graph.{Graph, targets}
use sql_server_analyze.RuleCache.Capture.{Location}
use sql_server_analyze.RuleCache.Discovery.{
  Discoveries, paths, put_location, put_empty, add_dependency, locate, depend,
}
use sql_server_analyze.RuleCache.Discovery.Ascending.{is_ascending, insert_text-ascending}

pub targets-put_empty :
    (q p : Text) (g : Graph) → targets (put_empty p g) q ≡ (if text_eq p q then [] else targets g q)
unfolding targets put_empty
targets-put_empty q p [] = refl
targets-put_empty q p ((k, ds) ∷ g) = elim (Bool-cases (text_eq k p)) [
  | inl t ↦
      let same : k ≡ p = text_eq→eq k p t in
      rw (t, same) (elim (Bool-cases (text_eq p q)) [ inl u ↦ rw u refl | inr u ↦ rw u refl ])
  | inr t ↦ elim (Bool-cases (text_eq k q)) [
    | inl u ↦ let same : k ≡ q = text_eq→eq k q u in rw (t, u, text_eq_flip q p (rw same at t)) refl
    | inr u ↦ rw (t, u) (targets-put_empty q p g)
  ]
]

targets-add_dependency :
    (q p v : Text) (g : Graph)
    → targets (add_dependency p v g) q
      ≡ (if text_eq p q then insert_text v (targets g q) else targets g q)
unfolding targets add_dependency insert_text
targets-add_dependency q p v [] = refl
targets-add_dependency q p v ((k, ds) ∷ g) = elim (Bool-cases (text_eq k p)) [
  | inl t ↦
      let same : k ≡ p = text_eq→eq k p t in
      rw (t, same) (elim (Bool-cases (text_eq p q)) [ inl u ↦ rw u refl | inr u ↦ rw u refl ])
  | inr t ↦ elim (Bool-cases (text_eq k q)) [
    | inl u ↦ let same : k ≡ q = text_eq→eq k q u in rw (t, u, text_eq_flip q p (rw same at t)) refl
    | inr u ↦ rw (t, u) (targets-add_dependency q p v g)
  ]
]

pub member-put_location :
    (q p : Text) (l : Location) (items : List (Text × Location))
    → member q (paths (put_location p l items)) ≡ (text_eq q p || member q (paths items))
unfolding member put_location
member-put_location q p l [] = refl
member-put_location q p l ((k, m) ∷ items) = elim (Bool-cases (text_eq k p)) [
  | inl t ↦ let same : k ≡ p = text_eq→eq k p t in rw (t, same) (ground arith)
  | inr t ↦ rw t (ground (arith, member-put_location q p l items))
]

-- The sets are in order, only located paths have dependencies, every dependency is located or the path that is
-- about to be, and what waits is located.
pub record Nearly (p : Text) (d : Discoveries) : Type 0 where
  pub ordered : (q : Text) → is_ascending (targets d.dependencies q) ≡ true
  pub outside : (q : Text) → member q (paths d.locations) ≡ false → targets d.dependencies q ≡ []
  pub inside : (q v : Text) → In v (targets d.dependencies q) → (v ≡ p) ⊎ In v (paths d.locations)
  pub queued : All (λ (l : Location). In l.canonical_path (paths d.locations)) d.queue

pub record Keeps (d : Discoveries) : Type 0 where
  pub ordered : (q : Text) → is_ascending (targets d.dependencies q) ≡ true
  pub outside : (q : Text) → member q (paths d.locations) ≡ false → targets d.dependencies q ≡ []
  pub inside : (q v : Text) → In v (targets d.dependencies q) → In v (paths d.locations)
  pub queued : All (λ (l : Location). In l.canonical_path (paths d.locations)) d.queue

pub Keeps-Nearly : (p : Text) (d : Discoveries) → Keeps d → Nearly p d
Keeps-Nearly p d k = record {
  ordered = k.ordered;
  outside = k.outside;
  inside = λ q v h. inr (k.inside q v h);
  queued = k.queued;
}

-- A path that is located for the first time had no dependencies.
targets-fresh :
    (p : Text) (d : Discoveries)
    → Nearly p d
    → member p (paths d.locations) ≡ false
    → (q : Text) → targets (put_empty p d.dependencies) q ≡ targets d.dependencies q
targets-fresh p d n fresh q = targets-put_empty q p d.dependencies ∙ at_path
  where
    at_path : (if text_eq p q then [] else targets d.dependencies q) ≡ targets d.dependencies q
    at_path = elim (Bool-cases (text_eq p q)) [
      | inl t ↦
          let same : p ≡ q = text_eq→eq p q t in
          rw (← same, text_eq_refl p) (sym (n.outside p fresh))
      | inr t ↦ rw t refl
    ]

located_more :
    (p : Text) (l : Location) (items : List (Text × Location)) (ls : List Location)
    → All (λ (m : Location). In m.canonical_path (paths items)) ls
    → All (λ (m : Location). In m.canonical_path (paths (put_location p l items))) ls
located_more p l items [] h = tt
located_more p l items (m ∷ ls) (h, hs) = (
  member-put_location m.canonical_path p l items ∙ rw h (true_right (text_eq m.canonical_path p)),
  located_more p l items ls hs,
)
  where
    true_right : (b : Bool) → (b || true) ≡ true
    true_right true = refl
    true_right false = refl

pub locate-Keeps : (l : Location) (d : Discoveries) → Nearly l.canonical_path d → Keeps (locate l d)
unfolding locate
locate-Keeps l d n = elim (Bool-cases (member l.canonical_path (paths d.locations))) [
  | inl t ↦ rw t (record {
    ordered = n.ordered;
    outside = n.outside;
    inside = λ q v h. known t v (n.inside q v h);
    queued = n.queued;
  })
  | inr t ↦
      let same = targets-fresh l.canonical_path d n t in
      rw t (record {
        ordered = λ q. rw (same q) (n.ordered q);
        outside = λ q h. same q ∙ n.outside q (earlier q h);
        inside = λ q v h. located v (n.inside q v (rw (same q) at h));
        queued = queue_more t;
      })
]
  where
    known :
        In l.canonical_path (paths d.locations)
        → (v : Text) → (v ≡ l.canonical_path) ⊎ In v (paths d.locations)
        → In v (paths d.locations)
    known t v (inl e) = rw e t
    known t v (inr h) = h

    earlier :
        (q : Text)
        → member q (paths (put_location l.canonical_path l d.locations)) ≡ false
        → member q (paths d.locations) ≡ false
    earlier q h = ground (arith, member-put_location q l.canonical_path l d.locations)

    located :
        (v : Text)
        → (v ≡ l.canonical_path) ⊎ In v (paths d.locations)
        → In v (paths (put_location l.canonical_path l d.locations))
    located v (inl e) =
        member-put_location v l.canonical_path l d.locations
        ∙ rw (e, text_eq_refl l.canonical_path) refl
    located v (inr h) = ground (arith, member-put_location v l.canonical_path l d.locations)

    queue_more :
        member l.canonical_path (paths d.locations) ≡ false
        → All
            (λ (m : Location).
              In m.canonical_path (paths (put_location l.canonical_path l d.locations)))
            (d.queue ++ (l ∷ []))
    queue_more t =
        All-append
          (λ (m : Location).
            In m.canonical_path (paths (put_location l.canonical_path l d.locations)))
          d.queue (l ∷ []) (located_more l.canonical_path l d.locations d.queue n.queued)
          (located l.canonical_path (inl refl), tt)

-- A dependency on a path that is about to be located.
pub depend-Nearly :
    (p v : Text) (d : Discoveries) → In p (paths d.locations) → Keeps d → Nearly v (depend p v d)
depend-Nearly p v d h k = record {
  ordered = λ q. rw (targets-add_dependency q p v d.dependencies) (in_order q);
  outside = λ q n. targets-add_dependency q p v d.dependencies ∙ untouched q n;
  inside = λ q w i. from q w (rw (targets-add_dependency q p v d.dependencies) at i);
  queued = k.queued;
}
  where
    in_order :
        (q : Text)
        → is_ascending (
            if text_eq p q
            then insert_text v (targets d.dependencies q)
            else targets d.dependencies q)
          ≡ true
    in_order q = elim (Bool-cases (text_eq p q)) [
      | inl t ↦ rw t (insert_text-ascending v (targets d.dependencies q) (k.ordered q))
      | inr t ↦ rw t (k.ordered q)
    ]

    untouched :
        (q : Text)
        → member q (paths d.locations) ≡ false
        → (if text_eq p q
            then insert_text v (targets d.dependencies q)
            else targets d.dependencies q)
          ≡ []
    untouched q n = elim (Bool-cases (text_eq p q)) [
      | inl t ↦ let same : p ≡ q = text_eq→eq p q t in cc (rw same at h)
      | inr t ↦ rw t (k.outside q n)
    ]

    from :
        (q w : Text)
        → In w (
            if text_eq p q
            then insert_text v (targets d.dependencies q)
            else targets d.dependencies q)
        → (w ≡ v) ⊎ In w (paths d.locations)
    from q w i = elim (Bool-cases (text_eq p q)) [
      | inr t ↦ inr (k.inside q w (rw t at i))
      | inl t ↦ elim (Bool-cases (text_eq w v)) [
        | inl u ↦ inl (text_eq→eq w v u)
        | inr u ↦ inr (
            k.inside q w
              (in_rest u (sym (member-insert_text w v (targets d.dependencies q)) ∙ (rw t at i))))
      ]
    ]
      where
        in_rest : {b : Bool} → text_eq w v ≡ false → (text_eq w v || b) ≡ true → b ≡ true
        in_rest u h = rw u at h
