-- ===== src/RuleCache/Record/Fingerprints.antt =====
-- Records whose entries agree have the same fingerprints, and the same analysis keys.
use sql_server_analyze.Common.{
  ℕ, suc, ◌≡◌, refl, sym, ◌∙◌, subst, List, [], ◌∷◌, Option, none, some,
}
use sql_server_analyze.Text.{Text}
use sql_server_analyze.RuleCache.Texts.{In, In-here, In-there}
use sql_server_analyze.RuleCache.Graph.{targets}
use sql_server_analyze.RuleCache.Record.{
  Source, Sources, Body, Hashed, InstructionFingerprint, DependencyFingerprint, of_context,
  of_source, lookup, graph_of, closure_of, instruction_entry, instruction_fingerprints,
  dependency_entry, dependency_fingerprints, scope_context, expected_key,
}
use sql_server_analyze.RuleCache.Record.Closure.{closure_of-targets}

-- The chain stands in the record, with its positions as precedences.
abbrev pub IsOrdered : ℕ → List Text → Sources → Type 0
IsOrdered n [] sources = Unit
IsOrdered n (path ∷ chain) sources =
    ((s : Source) × (lookup path sources ≡ some s) × (s.precedence ≡ some n))
    × IsOrdered (suc n) chain sources

-- What a reader of a record relies on: the keys are those of the contents.
pub record IsKeyed (sha256_json : Hashed → Text) (b : Body) : Type 0 where
  pub ordered : IsOrdered 0 b.scope.instruction_chain b.sources
  pub keyed :
      (path : Text) (s : Source)
      → lookup path b.sources ≡ some s
      → s.analysis_key ≡ expected_key sha256_json b path s

-- Two lookups of a path give entries that agree, or none.
abbrev pub Agree : Option Source → Option Source → Type 0
Agree (some o) (some n) =
    (o.semantic_sha256 ≡ n.semantic_sha256) × (o.dependencies ≡ n.dependencies)
Agree none none = Unit
Agree _ _ = ⊥

module _ (old new : Sources) where
  pub dependency_fingerprints-Agree :
      (closure : List Text)
      → ((q : Text) → In q closure → Agree (lookup q old) (lookup q new))
      → dependency_fingerprints closure old ≡ dependency_fingerprints closure new
  unfolding dependency_fingerprints
  dependency_fingerprints-Agree [] h = refl
  dependency_fingerprints-Agree (q ∷ closure) h =
      entry_eq q (lookup q old) (lookup q new) (h q (In-here q closure))
        (dependency_fingerprints-Agree closure (λ x i. h x (In-there x q closure i)))
    where
      entry_eq :
          (q : Text) (a b : Option Source)
          → Agree a b
          → {xs ys : List DependencyFingerprint} → xs ≡ ys
          → dependency_entry q a xs ≡ dependency_entry q b ys
      entry_eq q none none h e = e
      entry_eq q none (some n) h e = absurd h
      entry_eq q (some o) none h e = absurd h
      entry_eq q (some o) (some n) (s, d) e =
          λ i. record { path = q; semantic_sha256 = s i; dependencies = d i } ∷ e i

  pub instruction_fingerprints-Agree :
      (n : ℕ) (chain : List Text)
      → IsOrdered n chain old
      → IsOrdered n chain new
      → ((q : Text) → In q chain → Agree (lookup q old) (lookup q new))
      → instruction_fingerprints chain old ≡ instruction_fingerprints chain new
  unfolding instruction_fingerprints
  instruction_fingerprints-Agree n [] p q h = refl
  instruction_fingerprints-Agree n (x ∷ chain) ((a, ea, pa), p) ((b, eb, pb), q) h =
      let rest =
        instruction_fingerprints-Agree (suc n) chain p q (λ y i. h y (In-there y x chain i)) in
      let both : Agree (some a) (some b) = rw (ea, eb) at (h x (In-here x chain)) in
      rw (ea, eb) (entry_eq x a b both.0 (pa ∙ sym pb) rest)
    where
      entry_eq :
          (x : Text) (a b : Source)
          → a.semantic_sha256 ≡ b.semantic_sha256
          → a.precedence ≡ b.precedence
          → {xs ys : List InstructionFingerprint} → xs ≡ ys
          → instruction_entry x (some a) xs ≡ instruction_entry x (some b) ys
      entry_eq x a b s p e = λ i. record { path = x; semantic_sha256 = s i; precedence = p i } ∷ e i

-- What two records must share for a source to have the same key in both.
pub record SameKey (old new : Body) (path : Text) (o n : Source) : Type 0 where
  pub cwd : old.scope.cwd ≡ new.scope.cwd
  pub discovery : old.scope.discovery ≡ new.scope.discovery
  pub chain :
      instruction_fingerprints old.scope.instruction_chain old.sources
      ≡ instruction_fingerprints new.scope.instruction_chain new.sources
  pub content : o.semantic_sha256 ≡ n.semantic_sha256
  pub graph : targets (graph_of old.sources) ≡ targets (graph_of new.sources)
  pub closure :
      (q : Text)
      → In q (closure_of path (graph_of new.sources))
      → Agree (lookup q old.sources) (lookup q new.sources)

pub expected_key-SameKey :
    (sha256_json : Hashed → Text) (old new : Body) (path : Text) (o n : Source)
    → SameKey old new path o n
    → expected_key sha256_json old path o ≡ expected_key sha256_json new path n
unfolding expected_key scope_context
expected_key-SameKey sha256_json old new path o n s =
    let closures = closure_of-targets path (graph_of old.sources) (graph_of new.sources) s.graph in
    let fingerprints =
      subst
        (λ (c : List Text).
          dependency_fingerprints c old.sources
          ≡ dependency_fingerprints (closure_of path (graph_of new.sources)) new.sources)
        (sym closures)
        (dependency_fingerprints-Agree old.sources new.sources
          (closure_of path (graph_of new.sources)) s.closure) in
    λ i. sha256_json (
      of_source (sha256_json (of_context (s.cwd i) (s.chain i) (s.discovery i))) path (s.content i)
        (fingerprints i))
