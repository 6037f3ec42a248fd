-- ===== src/RuleCache/Discovery/Ends.antt =====
-- A discovery ends, and its graph is one that a record can be made of.
use sql_server_analyze.Common.{
  ℕ, zero, suc, ◌+◌, ◌<◌, ◌≡◌, inl, inr, refl, ap, ◌∙◌, false, List, [], ◌∷◌, Option, some, arith,
  if◌then◌else◌, Bool-cases, length, All,
}
use sql_server_analyze.Text.{Text, text_eq, text_eq_refl, member}
use sql_server_analyze.RuleCache.Texts.{In, not-In-nil, sorted_set}
use sql_server_analyze.RuleCache.Graph.{Graph, targets}
use sql_server_analyze.RuleCache.Capture.{Location, Discovered}
use sql_server_analyze.RuleCache.Capture.Valid.{IsDiscovery}
use sql_server_analyze.RuleCache.Discovery.{
  Discoveries, paths, put_location, put_empty, chain_locations, chain_graph, of_chain, Files,
  add_extras, popped, process_source, discovery_loop, discover_sources,
}
use sql_server_analyze.RuleCache.Discovery.Ascending.{sorted_set-ascending}
use sql_server_analyze.RuleCache.Discovery.Kept.{Keeps, targets-put_empty, member-put_location}
use sql_server_analyze.RuleCache.Discovery.Steps.{
  unlocated_bound, weight, Step-process_source, Step-extras,
}

-- The start: the chain is located, without dependencies.
targets-chain_graph :
    (chain : List Location) (g : Graph)
    → ((q : Text) → targets g q ≡ [])
    → (q : Text) → targets (chain_graph chain g) q ≡ []
targets-chain_graph [] g h q = h q
targets-chain_graph (l ∷ chain) g h q =
    targets-chain_graph chain (put_empty l.canonical_path g)
      (λ r. targets-put_empty r l.canonical_path g ∙ at_path r) q
  where
    at_path : (r : Text) → (if text_eq l.canonical_path r then [] else targets g r) ≡ []
    at_path r = elim (Bool-cases (text_eq l.canonical_path r)) [
      | inl t ↦ rw t refl
      | inr t ↦ rw t (h r)
    ]

no_targets : (r : Text) → targets [] r ≡ []
unfolding targets
no_targets r = refl

chain_locations-more :
    (chain : List Location) (items : List (Text × Location)) (q : Text)
    → In q (paths items)
    → In q (paths (chain_locations chain items))
chain_locations-more [] items q h = h
chain_locations-more (l ∷ chain) items q h =
    chain_locations-more chain (put_location l.canonical_path l items) q
      (ground (arith, member-put_location q l.canonical_path l items))

chain_located :
    (chain : List Location) (items : List (Text × Location))
    → All (λ (l : Location). In l.canonical_path (paths (chain_locations chain items))) chain
chain_located [] items = tt
chain_located (l ∷ chain) items = (
  chain_locations-more chain (put_location l.canonical_path l items) l.canonical_path (
      member-put_location l.canonical_path l.canonical_path l items
      ∙ rw (text_eq_refl l.canonical_path) refl),
  chain_located chain (put_location l.canonical_path l items),
)

of_chain-Keeps : (chain : List Location) → Keeps (of_chain chain)
of_chain-Keeps chain = record {
  ordered = λ q. rw (empty q) refl;
  outside = λ q h. empty q;
  inside = λ q v h. absurd (not-In-nil v (rw (empty q) at h));
  queued = chain_located chain [];
}
  where
    empty : (q : Text) → targets (chain_graph chain []) q ≡ []
    empty q = targets-chain_graph chain [] no_targets q

-- The source in front of the queue is taken out of it.
popped-Keeps :
    (l : Location) (queue : List Location) (d : Discoveries)
    → d.queue ≡ (l ∷ queue)
    → Keeps d
    → Keeps (popped queue d) × In l.canonical_path (paths d.locations)
popped-Keeps l queue d e k =
    let waiting : All (λ (m : Location). In m.canonical_path (paths d.locations)) (l ∷ queue) =
      rw e at k.queued in
    (
      record { ordered = k.ordered; outside = k.outside; inside = k.inside; queued = waiting.1 },
      waiting.0,
    )

-- What a discovery has found: the set of every source is in order, only located sources have dependencies,
-- every dependency is located, and so is the chain.
pub record IsFound (chain : List Location) (d : Discoveries) : Type 0 where
  pub ordered : (q : Text) → sorted_set (targets d.dependencies q) ≡ targets d.dependencies q
  pub outside : (q : Text) → member q (paths d.locations) ≡ false → targets d.dependencies q ≡ []
  pub inside : (q v : Text) → In v (targets d.dependencies q) → In v (paths d.locations)
  pub chained : All (λ (l : Location). In l.canonical_path (paths d.locations)) chain

module _ (universe : List Text) (files : Files)
    (within : (s r p : Text) → files.resolve s r ≡ some p → In p universe) where
  -- How the loop ends.
  abbrev Ends : Discoveries → Option Discoveries → Type 0
  Ends d r =
      (e : Discoveries) × (r ≡ some e)
      × Keeps e
      × ((q : Text) → In q (paths d.locations) → In q (paths e.locations))

  loop-Ends :
      (fuel : ℕ) (processed : List Text) (d : Discoveries) (queue : List Location)
      → d.queue ≡ queue
      → Keeps d
      → weight universe d < fuel
      → Ends d (discovery_loop files fuel processed d queue)
  unfolding discovery_loop
  loop-Ends zero processed d queue e k h = elim h [ ]
  loop-Ends (suc fuel) processed d [] e k h = (d, refl, k, λ q i. i)
  loop-Ends (suc fuel) processed d (l ∷ queue) e k h =
      let (kept, known) = popped-Keeps l queue d e k in
      let lighter : weight universe (popped queue d) < fuel = popped_lighter in
      elim (Bool-cases (member l.canonical_path processed)) [
        | inl t ↦
            rw (t, discovery_loop)
              (loop-Ends fuel processed (popped queue d) queue refl kept lighter)
        | inr t ↦
            let step = Step-process_source universe files within l (popped queue d) known kept in
            let next = process_source files l (popped queue d) in
            let (r, er, kr, more) =
              loop-Ends fuel (l.canonical_path ∷ processed) next next.queue refl step.keeps
                (omega (arith, step.lighter)) in
            rw (t, discovery_loop) (r, er, kr, λ q i. more q (step.more q i))
      ]
    where
      popped_lighter : weight universe (popped queue d) < fuel
      popped_lighter = let sized : length d.queue ≡ suc (length queue) = ap length e in omega arith

  -- Where every reference resolves to one of finitely many files, the search for sources ends:
  -- fuel for more turns than the chain and the files have items is enough, whatever the
  -- references are. In what it finds, only located sources have dependencies, each dependency
  -- is located, and the chain is.
  pub discover_sources-IsFound :
      (chain : List Location) (extra_rules : List Text) (fuel : ℕ)
      → length chain + length universe < fuel
      → (d : Discoveries) × (discover_sources files fuel chain extra_rules ≡ some d)
        × IsFound chain d
  unfolding discover_sources
  discover_sources-IsFound chain extra_rules fuel h =
      let start = of_chain chain in
      let step = Step-extras universe files within extra_rules start (of_chain-Keeps chain) in
      let begun = add_extras files extra_rules start in
      let enough : weight universe begun < fuel =
        omega (arith, step.lighter, unlocated_bound universe start.locations) in
      let (d, e, k, more) = loop-Ends fuel [] begun begun.queue refl step.keeps enough in
      (
        d,
        e,
        record {
          ordered = λ q. sorted_set-ascending (targets d.dependencies q) (k.ordered q);
          outside = k.outside;
          inside = k.inside;
          chained = all_more _ _ (λ q i. more q (step.more q i)) chain (chain_located chain []);
        },
      )
    where
      all_more :
          (xs ys : List (Text × Location))
          → ((q : Text) → In q (paths xs) → In q (paths ys))
          → (ls : List Location) → All (λ (l : Location). In l.canonical_path (paths xs)) ls
          → All (λ (l : Location). In l.canonical_path (paths ys)) ls
      all_more xs ys f [] a = tt
      all_more xs ys f (l ∷ ls) (a, rest) = (f l.canonical_path a, all_more xs ys f ls rest)

-- The locations and the graph that were found are those that a record is made of.
pub IsFound-IsDiscovery :
    (chain : List Location) (d : Discoveries) (x : Discovered)
    → IsFound chain d
    → x.locations ≡ d.locations
    → x.graph ≡ d.dependencies
    → IsDiscovery x
IsFound-IsDiscovery chain d x f e g = record {
  ordered = λ q. rw g (f.ordered q);
  outside = λ q h. rw g (f.outside q (rw e at h));
}
