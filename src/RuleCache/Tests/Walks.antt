-- ===== src/RuleCache/Tests/Walks.antt =====
-- The discovery of the repository of two files.
use sql_server_analyze.Common.{
  ◌≡◌, inl, inr, refl, true, List, [], ◌∷◌, Option, none, some, arith, if◌then◌else◌, Bool-cases,
}
use sql_server_analyze.Text.{Text, codes, text_eq, member, split, starts_with, ends_with}
use sql_server_analyze.RuleCache.Texts.{In}
use sql_server_analyze.RuleCache.Capture.{Location}
use sql_server_analyze.RuleCache.Discovery.{
  url_match, source_kind_of, looks_like_rule_path, is_foreign, Discoveries, paths, Files,
  discover_sources,
}
use sql_server_analyze.RuleCache.Discovery.Ends.{IsFound, discover_sources-IsFound}
use sql_server_analyze.RuleCache.Tests.{a_path, b_path, located_file}

schema_kind : source_kind_of (codes ".ai/schemas/a.json") ≡ codes "schema"
unfolding source_kind_of split starts_with ends_with member
schema_kind = refl

rule_paths : looks_like_rule_path (codes "Docs/Rules.MD#part") ≡ true
unfolding looks_like_rule_path split ends_with starts_with
rule_paths = refl

foreign_paths : is_foreign (codes "https://a.org") ≡ true
unfolding is_foreign url_match starts_with
foreign_paths = refl

abbrev resolve_b : Text → Text → Option Text
resolve_b source reference = if text_eq reference b_path then some b_path else none

abbrev two_references : Files
two_references = record {
  resolve = resolve_b;
  references = λ l.
      if text_eq l.canonical_path a_path
      then some ((b_path, true) ∷ (codes "c.md", true) ∷ [])
      else some [];
}

resolve_b-within : (s r p : Text) → resolve_b s r ≡ some p → In p (b_path ∷ [])
unfolding member
resolve_b-within s r p h = elim (Bool-cases (text_eq r b_path)) [
  | inl t ↦ let same : b_path ≡ p = some-eq b_path p (rw t at h) in rw (← same) refl
  | inr t ↦ cc (rw t at h)
]
  where
    some-eq : (x y : Text) → some x ≡ some y → x ≡ y
    some-eq x y e = cc

abbrev chain_of_one : List Location
chain_of_one = located_file a_path true ∷ []

abbrev paths_found : Option Discoveries → List Text × List Text
paths_found none = ([], [])
paths_found (some d) = (paths d.locations, d.reasons)

walked :
    paths_found (discover_sources two_references 3 chain_of_one [])
    ≡ (a_path ∷ b_path ∷ [], codes "UNRESOLVED_REFERENCE" ∷ [])
unfolding discover_sources
walked = refl

discover_sources-IsFound_example :
    (d : Discoveries) × (discover_sources two_references 3 chain_of_one [] ≡ some d)
    × IsFound chain_of_one d
discover_sources-IsFound_example =
    discover_sources-IsFound (b_path ∷ []) two_references resolve_b-within chain_of_one [] 3
      (omega arith)
