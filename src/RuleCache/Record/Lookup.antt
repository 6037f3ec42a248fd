-- ===== src/RuleCache/Record/Lookup.antt =====
-- The lookup of a source by its path.
use sql_server_analyze.Common.{
  ◌≡◌, inl, inr, refl, false, List, [], ◌∷◌, Option, none, some, arith, Bool-cases,
}
use sql_server_analyze.Text.{Text, text_eq, text_eq→eq, text_eq_refl, member}
use sql_server_analyze.RuleCache.Texts.{In, text_eq_flip}
use sql_server_analyze.RuleCache.Graph.{targets}
use sql_server_analyze.RuleCache.Record.{Source, Sources, lookup, paths_of, graph_of}

pub In-lookup : (q : Text) (s : Sources) → In q (paths_of s) → (x : Source) × (lookup q s ≡ some x)
unfolding member lookup
In-lookup q [] h = cc
In-lookup q ((k, x) ∷ s) h = elim (Bool-cases (text_eq k q)) [
  | inl t ↦ (x, rw t refl)
  | inr t ↦ let (y, e) = In-lookup q s (rw (text_eq_flip k q t) at h) in (y, rw t e)
]

pub not-In-lookup : (q : Text) (s : Sources) → member q (paths_of s) ≡ false → lookup q s ≡ none
unfolding member lookup
not-In-lookup q [] h = refl
not-In-lookup q ((k, x) ∷ s) h = elim (Bool-cases (text_eq k q)) [
  | inl t ↦ let same : k ≡ q = text_eq→eq k q t in cc (rw (same, text_eq_refl q) at h)
  | inr t ↦ rw t (not-In-lookup q s (ground arith))
]

abbrev pub dependencies_at : Option Source → List Text
dependencies_at none = []
dependencies_at (some s) = s.dependencies

pub targets-graph_of :
    (q : Text) (s : Sources) → targets (graph_of s) q ≡ dependencies_at (lookup q s)
unfolding targets lookup
targets-graph_of q [] = refl
targets-graph_of q ((k, x) ∷ s) = elim (Bool-cases (text_eq k q)) [
  | inl t ↦ rw t refl
  | inr t ↦ rw t (targets-graph_of q s)
]
