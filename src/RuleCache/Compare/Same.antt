-- ===== src/RuleCache/Compare/Same.antt =====
-- A record compared with itself: nothing has to be read again.
use sql_server_analyze.Common.{
  ◌≡◌, refl, not, Bool, true, false, List, [], ◌∷◌, Option, none, some, ==_refl, select,
}
use sql_server_analyze.Text.{Text, text_eq_refl, option_text_eq_refl, member}
use sql_server_analyze.RuleCache.Texts.{In, In-here, In-there, texts_eq}
use sql_server_analyze.RuleCache.Record.{
  GitFingerprint, Source, Sources, Discovery, Body, Hashed, lookup, paths_of,
}
use sql_server_analyze.RuleCache.Compare.{
  Status, bool_eq, discovery_eq, git_eq, identity_reasons, differs, changed_paths, without,
  dependency_test, content_test, git_test, Plan, Snapshot, plan_payload, compare_same_paths,
  compare_sources, compare_previous, compare_records,
}

texts_eq_refl : (ts : List Text) → texts_eq ts ts ≡ true
texts_eq_refl [] = refl
texts_eq_refl (t ∷ ts) = rw (text_eq_refl t) (texts_eq_refl ts)

bool_eq_refl : (b : Bool) → bool_eq b b ≡ true
bool_eq_refl true = refl
bool_eq_refl false = refl

discovery_eq_refl : (d : Discovery) → discovery_eq d d ≡ true
discovery_eq_refl d =
    rw
      (
        bool_eq_refl d.global_scope_included,
        texts_eq_refl d.fallback_filenames,
        ==_refl d.project_doc_max_bytes,
      )
      (option_text_eq_refl d.discovery_config_tag_sha256)

git_eq_refl : (g : GitFingerprint) → git_eq g g ≡ true
git_eq_refl g =
    rw (option_text_eq_refl g.head_blob_id, option_text_eq_refl g.index_blob_id)
      (texts_eq_refl g.working_tree_state)

identity_reasons_refl : (b : Body) → identity_reasons b b ≡ []
unfolding identity_reasons
identity_reasons_refl b =
    rw
      (
        text_eq_refl b.repository.repository_id,
        text_eq_refl b.repository.canonical_root_digest,
        text_eq_refl b.repository.worktree_id,
        text_eq_refl b.repository.git_common_dir_digest,
        text_eq_refl b.scope.cwd,
        discovery_eq_refl b.scope.discovery,
        texts_eq_refl b.scope.instruction_chain,
      )
      refl

select-nothing :
    (p : Text → Bool) (xs : List Text) → ((x : Text) → In x xs → p x ≡ false) → select p xs ≡ []
select-nothing p [] h = refl
select-nothing p (x ∷ xs) h =
    rw (h x (In-here x xs)) (select-nothing p xs (λ y i. h y (In-there y x xs i)))

without_refl : (xs : List Text) → without xs xs ≡ []
without_refl xs = select-nothing (λ t. not (member t xs)) xs (λ x i. rw i refl)

differs_refl :
    (test : Source → Source → Bool)
    → ((s : Source) → test s s ≡ false)
    → (a : Option Source) → differs test a a ≡ false
differs_refl test h none = refl
differs_refl test h (some s) = h s

changed_paths_refl :
    (test : Source → Source → Bool)
    → ((s : Source) → test s s ≡ false)
    → (s : Sources) → changed_paths test s s ≡ []
changed_paths_refl test h s =
    select-nothing (λ path. differs test (lookup path s) (lookup path s)) (paths_of s)
      (λ x i. differs_refl test h (lookup x s))

content_test_refl : (s : Source) → content_test s s ≡ false
content_test_refl s = rw (text_eq_refl s.semantic_sha256, text_eq_refl s.normalization) refl

git_test_refl : (s : Source) → git_test s s ≡ false
git_test_refl s = rw (git_eq_refl s.git) refl

dependency_test_refl : (s : Source) → dependency_test s s ≡ false
dependency_test_refl s = rw (text_eq_refl s.source_kind, texts_eq_refl s.dependencies) refl

-- The check says that the record holds, and that nothing is to be read again.
pub record IsHit (plan : Plan) : Type 0 where
  pub hit : plan.status ≡ Status.cache_hit
  pub nothing_again : plan.reanalyze ≡ []

module _ (sha256_json : Hashed → Text) (b : Body) where
  same_paths-IsHit : IsHit (compare_same_paths sha256_json b b)
  unfolding compare_same_paths plan_payload
  same_paths-IsHit =
      rw
        (
          changed_paths_refl dependency_test dependency_test_refl b.sources,
          changed_paths_refl content_test content_test_refl b.sources,
          changed_paths_refl git_test git_test_refl b.sources,
        )
        (record { hit = refl; nothing_again = refl })

  sources-IsHit : IsHit (compare_sources sha256_json b b)
  unfolding compare_sources
  sources-IsHit = rw (without_refl (paths_of b.sources)) same_paths-IsHit

  pub compare_previous-IsHit : IsHit (compare_previous sha256_json b b)
  unfolding compare_previous
  compare_previous-IsHit = rw (identity_reasons_refl b) sources-IsHit

pub compare_records-IsHit :
    (sha256_json : Hashed → Text) (s : Snapshot) (reason : Option Text)
    → s.complete ≡ true
    → IsHit (compare_records sha256_json (some s.captured.body) s reason)
unfolding compare_records
compare_records-IsHit sha256_json s reason c =
    rw c (compare_previous-IsHit sha256_json s.captured.body)
