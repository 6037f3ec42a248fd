-- ===== src/RuleCache/Graph.antt =====
-- `_transitive_dependencies` and `_dependent_closure`.
pub mod Reaching
pub mod Transitive
pub mod Scanning
pub mod Dependents
use sql_server_analyze.Common.{
  ℕ, zero, suc, ◌+◌, ◌-◌, ◌*◌, ◌/◌, ◌%◌, ◌^◌, ◌≤◌, ◌<◌, min, max, String, ◌≡◌, ◌≢◌, ◌↔◌, ◌⊎◌, inl,
  inr, refl, sym, ap, ◌∙◌, subst, ◌&&◌, ◌||◌, not, Bool, true, false, List, [], ◌∷◌, ◌++◌, map,
  reverse, append-nil, append_assoc, Option, none, some, arith, ◌==◌, ltb, leb, if◌then◌else◌,
  Bool-cases, &&_left, &&_right, ==→eq, ==_refl, pos→nonzero, nonzero→pos, ltb→lt, lt→ltb, leb→le,
  le→leb, length, length-append, get_elem?, take, drop, is_empty, any, all, select, All, Some,
  All-append, Some-append, Some-reverse, All-reverse, ⊎-map, ⊎-map_left, ⊎-comm, ⊎-assoc, ⊎-unassoc,
  ⊎-rotate,
}
use sql_server_analyze.Text.{Text, text_eq, member}

-- The dependencies of each source, one entry for a source.
abbrev pub Graph : Type 0
Graph = List (Text × List Text)

-- `graph.get(path, set())`
unfoldable pub targets : Graph → Text → List Text
targets [] path = []
targets ((k, ds) ∷ g) path = let rest = targets g path in if text_eq k path then ds else rest

-- The dependencies listed, over all sources.
pub edges : Graph → ℕ
edges [] = 0
edges ((k, ds) ∷ g) = length ds + edges g

-- The `while pending` loop, with fuel; the next item to pop stands first.
pub search_loop : (Text → List Text) → ℕ → List Text → List Text → Option (List Text)
search_loop deps zero pending result = none
search_loop deps (suc fuel) [] result = some result
search_loop deps (suc fuel) (current ∷ pending) result = elim (member current result) [
  | true ↦ search_loop deps fuel pending result
  | false ↦ search_loop deps fuel (deps current ++ pending) (current ∷ result)
]

-- `result.discard(path)`
abbrev pub discard : Text → List Text → List Text
discard path = select (λ t. not (text_eq t path))

abbrev pub discarded : Text → Option (List Text) → Option (List Text)
discarded path none = none
discarded path (some result) = some (discard path result)

unfoldable pub transitive_dependencies : Text → Graph → Option (List Text)
unfolding search_loop targets edges
transitive_dependencies path g =
    discarded path
      (search_loop (targets g) (suc (length (targets g path) + edges g)) (targets g path) [])

-- One `for path, source in sources.items()`: the paths invalidated so far, and `progress`.
pub scan_sources : Graph → List Text → Bool → List Text × Bool
scan_sources [] invalidated progress = (invalidated, progress)
scan_sources ((path, deps) ∷ sources) invalidated progress =
    let skipped = scan_sources sources invalidated progress in
    let added = scan_sources sources (path ∷ invalidated) true in
    if member path invalidated
    then skipped
    else if any (λ d. member d invalidated) deps
    then added
    else skipped

-- The `while progress` loop, with fuel.
pub closure_loop : Graph → ℕ → List Text → Option (List Text)
closure_loop sources zero invalidated = none
closure_loop sources (suc fuel) invalidated =
    let (next, progress) = scan_sources sources invalidated false in
    elim progress [ true ↦ closure_loop sources fuel next | false ↦ some next ]

-- A round with progress adds a source, so the rounds are one more than the sources at most.
unfoldable pub dependent_closure : List Text → Graph → Option (List Text)
unfolding closure_loop scan_sources
dependent_closure changed sources = closure_loop sources (suc (length sources)) changed
