-- ===== src/RuleCache/Compare/Cases.antt =====
-- The branches of `compare_records`: a full miss, or records that agree but for the contents.
use sql_server_analyze.Common.{
  ◌≡◌, ◌⊎◌, inl, inr, refl, sym, ◌&&◌, not, Bool, true, false, List, [], ◌++◌, map, Option, some,
  arith, if◌then◌else◌, Bool-cases, &&_left, &&_right, is_empty,
}
use sql_server_analyze.Text.{Text, text_eq, text_eq→eq, option_text_eq→eq}
use sql_server_analyze.RuleCache.Texts.{texts_eq, texts_eq→eq}
use sql_server_analyze.RuleCache.Record.{Source, Discovery, Body, Hashed}
use sql_server_analyze.RuleCache.Compare.Lookups.{SamePaths}
use sql_server_analyze.RuleCache.Compare.{
  bool_eq, discovery_eq, reason_if, identity_reasons, dependency_test, content_test, git_test,
  changed_paths, without, common, Snapshot, plan_payload, compare_records, full_miss,
  compare_contents, compare_same_paths, compare_sources, compare_previous, Plan,
}

-- The paths that a comparison finds changed.
abbrev pub changed_of : Body → Body → List Text
changed_of previous current =
    changed_paths content_test previous.sources current.sources
    ++ changed_paths git_test previous.sources current.sources

-- What is the same in two records whose contents are compared.
pub record IsComparable (previous current : Body) : Type 0 where
  pub cwd_same : previous.scope.cwd ≡ current.scope.cwd
  pub discovery_same : previous.scope.discovery ≡ current.scope.discovery
  pub chain_same : previous.scope.instruction_chain ≡ current.scope.instruction_chain
  pub paths_same : SamePaths previous.sources current.sources
  pub dependencies_same :
      is_empty (changed_paths dependency_test previous.sources current.sources) ≡ true
  pub instructions_same :
      is_empty (common (changed_of previous current) current.scope.instruction_chain) ≡ true

reason_if-empty :
    (b : Bool) (reason : Text) (rest : List Text)
    → is_empty (reason_if (not b) reason ++ rest) ≡ true
    → (b ≡ true) × (is_empty rest ≡ true)
reason_if-empty true reason rest h = (refl, h)
reason_if-empty false reason rest h = cc

reason_if-last : (b : Bool) (reason : Text) → is_empty (reason_if (not b) reason) ≡ true → b ≡ true
reason_if-last true reason h = refl
reason_if-last false reason h = cc

bool_eq→eq : (a b : Bool) → bool_eq a b ≡ true → a ≡ b
bool_eq→eq true b h = sym h
bool_eq→eq false true h = cc
bool_eq→eq false false h = refl

discovery_eq→eq : (a b : Discovery) → discovery_eq a b ≡ true → a ≡ b
discovery_eq→eq a b h =
    let global = bool_eq→eq a.global_scope_included b.global_scope_included (ground arith) in
    let names = texts_eq→eq a.fallback_filenames b.fallback_filenames (ground arith) in
    let bytes : a.project_doc_max_bytes ≡ b.project_doc_max_bytes = ground arith in
    let tag =
      option_text_eq→eq a.discovery_config_tag_sha256 b.discovery_config_tag_sha256
        (ground arith) in
    λ i. record {
      global_scope_included = global i;
      fallback_filenames = names i;
      project_doc_max_bytes = bytes i;
      discovery_config_tag_sha256 = tag i;
    }

record SameScope (previous current : Body) : Type 0 where
  cwd : previous.scope.cwd ≡ current.scope.cwd
  discovery : previous.scope.discovery ≡ current.scope.discovery
  chain : previous.scope.instruction_chain ≡ current.scope.instruction_chain

identity_reasons-SameScope :
    (previous current : Body)
    → is_empty (identity_reasons previous current) ≡ true
    → SameScope previous current
unfolding identity_reasons
identity_reasons-SameScope previous current h =
    let p = previous.repository in
    let c = current.repository in
    let (_, h1) = reason_if-empty (text_eq p.repository_id c.repository_id) _ _ h in
    let (_, h2) =
      reason_if-empty (text_eq p.canonical_root_digest c.canonical_root_digest) _ _ h1 in
    let (_, h3) = reason_if-empty (text_eq p.worktree_id c.worktree_id) _ _ h2 in
    let (_, h4) =
      reason_if-empty (text_eq p.git_common_dir_digest c.git_common_dir_digest) _ _ h3 in
    let (e5, h5) = reason_if-empty (text_eq previous.scope.cwd current.scope.cwd) _ _ h4 in
    let (e6, h6) =
      reason_if-empty (discovery_eq previous.scope.discovery current.scope.discovery) _ _ h5 in
    let e7 =
      reason_if-last (texts_eq previous.scope.instruction_chain current.scope.instruction_chain) _
        h6 in
    record {
      cwd = text_eq→eq _ _ e5;
      discovery = discovery_eq→eq _ _ e6;
      chain = texts_eq→eq _ _ e7;
    }

else_branch : (b : Bool) (x y : Plan) → b ≡ false → (if b then x else y) ≡ y
else_branch b x y e = rw e refl

not_branch : (b : Bool) (x y : Plan) → b ≡ false → (if not b then x else y) ≡ x
not_branch b x y e = rw e refl

module _ (sha256_json : Hashed → Text) (current previous : Body) where
  -- The plan reads everything again, or the records are comparable and their contents are compared.
  abbrev pub Outcome : Plan → Type 0
  Outcome p =
      ((reasons : List Text) × (p ≡ full_miss sha256_json current reasons))
      ⊎ (IsComparable previous current × (p ≡ compare_contents sha256_json current previous))

  same_paths_outcome :
      SameScope previous current
      → SamePaths previous.sources current.sources
      → Outcome (compare_same_paths sha256_json current previous)
  unfolding compare_same_paths
  same_paths_outcome scope paths =
      elim (Bool-cases
        (is_empty (changed_paths dependency_test previous.sources current.sources))) [
          | inr t ↦ inl (_, not_branch _ _ _ t)
          | inl t ↦
              elim (Bool-cases
                (is_empty (common (changed_of previous current) current.scope.instruction_chain))) [
                  | inr u ↦ rw t (inl (_, not_branch _ _ _ u))
                  | inl u ↦ inr (
                    record {
                      cwd_same = scope.cwd;
                      discovery_same = scope.discovery;
                      chain_same = scope.chain;
                      paths_same = paths;
                      dependencies_same = t;
                      instructions_same = u;
                    },
                    rw (t, u) refl,
                  )
                ]
        ]

  sources_outcome :
      SameScope previous current → Outcome (compare_sources sha256_json current previous)
  unfolding compare_sources
  sources_outcome scope =
      let added =
        without (map (λ (x : Text × Source). x.0) current.sources)
          (map (λ (x : Text × Source). x.0) previous.sources) in
      let removed =
        without (map (λ (x : Text × Source). x.0) previous.sources)
          (map (λ (x : Text × Source). x.0) current.sources) in
      elim (Bool-cases (is_empty added && is_empty removed)) [
        | inr t ↦ inl (_, else_branch _ _ _ t)
        | inl t ↦ rw t (
            same_paths_outcome scope (record {
              no_added = &&_left (is_empty added) (is_empty removed) t;
              no_removed = &&_right (is_empty added) (is_empty removed) t;
            }))
      ]

  pub compare_outcome : Outcome (compare_previous sha256_json current previous)
  unfolding compare_previous
  compare_outcome = elim (Bool-cases (is_empty (identity_reasons previous current))) [
    | inr t ↦ inl (_, else_branch _ _ _ t)
    | inl t ↦ rw t (sources_outcome (identity_reasons-SameScope previous current t))
  ]

pub full_miss-reuse :
    (sha256_json : Hashed → Text) (current : Body) (reasons : List Text)
    → (full_miss sha256_json current reasons).reuse ≡ []
unfolding full_miss plan_payload
full_miss-reuse sha256_json current reasons = refl

pub compare_records-cases :
    (sha256_json : Hashed → Text) (previous : Body) (current : Snapshot) (reason : Option Text)
    → ((reasons : List Text) × (compare_records sha256_json (some previous) current reason
          ≡ full_miss sha256_json current.captured.body reasons))
      ⊎ (compare_records sha256_json (some previous) current reason
          ≡ compare_previous sha256_json current.captured.body previous)
unfolding compare_records
compare_records-cases sha256_json previous current reason = elim (Bool-cases current.complete) [
  | inl t ↦ inr (rw t refl)
  | inr t ↦ inl (current.reason_codes, rw t refl)
]
