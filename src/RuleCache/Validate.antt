-- ===== src/RuleCache/Validate.antt =====
-- `_validate_record_shape` and the tests it uses, on a record whose fields have their types.
pub mod Record
pub mod Keyed
use sql_server_analyze.Common.{
  ℕ, zero, suc, ◌+◌, ◌-◌, ◌*◌, ◌/◌, ◌%◌, ◌^◌, ◌≤◌, ◌<◌, min, max, String, ◌≡◌, ◌≢◌, ◌↔◌, ◌⊎◌, inl,
  inr, refl, sym, ap, ◌∙◌, subst, ◌&&◌, ◌||◌, not, Bool, true, false, List, [], ◌∷◌, ◌++◌, map,
  reverse, append-nil, append_assoc, Option, none, some, arith, ◌==◌, ltb, leb, if◌then◌else◌,
  Bool-cases, &&_left, &&_right, ==→eq, ==_refl, pos→nonzero, nonzero→pos, ltb→lt, lt→ltb, leb→le,
  le→leb, length, length-append, get_elem?, take, drop, is_empty, any, all, select, All, Some,
  All-append, Some-append, Some-reverse, All-reverse, ⊎-map, ⊎-map_left, ⊎-comm, ⊎-assoc, ⊎-unassoc,
  ⊎-rotate,
}
use sql_server_analyze.Text.{Text, codes, text_eq, member, contains, split, starts_with, is_digit}
use sql_server_analyze.RuleCache.Texts.{sorted_set, texts_eq}
use sql_server_analyze.RuleCache.Record.{
  GitFingerprint, Source, Sources, Repository, Discovery, Scope, Body, CacheRecord, Hashed,
  of_worktree, of_cwd, of_body, lookup, paths_of, expected_key,
}

-- `[0-9a-f]`
abbrev pub is_hex : ℕ → Bool
is_hex c = is_digit c || (leb b'a' c && leb c b'f')

-- `_is_digest`: `HEX64_RE.fullmatch`.
unfoldable pub is_digest : Text → Bool
is_digest t = (length t == 64) && all is_hex t

-- `_is_git_object`
unfoldable pub is_git_object : Option Text → Bool
is_git_object none = true
is_git_object (some t) = ((length t == 40) || (length t == 64)) && all is_hex t

-- `WINDOWS_ABSOLUTE_RE.match`
unfoldable pub windows_absolute : Text → Bool
windows_absolute (c ∷ d ∷ e ∷ t) =
    ((leb b'A' c && leb c b'Z') || (leb b'a' c && leb c b'z'))
    && (d == b':')
    && ((e == 92) || (e == b'/'))
windows_absolute _ = false

abbrev pub global_prefix : Text
global_prefix = codes "@global/"

-- `_is_record_path`
unfoldable pub is_record_path : (allow_global : Bool) → Text → Bool
unfolding windows_absolute starts_with member split
is_record_path allow_global value =
    if is_empty value || contains 92 value || starts_with (codes "/") value
    then false
    else if windows_absolute value
    then false
    else if starts_with global_prefix value
    then allow_global
      && member value (codes "@global/AGENTS.override.md" ∷ codes "@global/AGENTS.md" ∷ [])
    else all (λ part. not (member part ([] ∷ codes "." ∷ codes ".." ∷ []))) (split b'/' value)

-- `_record_digest_is_valid`
unfoldable pub record_digest_is_valid : (Hashed → Text) → CacheRecord → Bool
unfolding is_digest
record_digest_is_valid sha256_json r =
    if not (is_digest r.record_digest)
    then false
    else text_eq r.record_digest (sha256_json (of_body r.body))

-- `list(dict.fromkeys(items))`: each item where it stands first.
pub from_keys : List Text → List Text
from_keys [] = []
from_keys (t ∷ ts) = t ∷ select (λ x. not (text_eq x t)) (from_keys ts)

-- The tests on `repository`.
unfoldable pub repository_is_valid : (Hashed → Text) → Repository → Bool
unfolding is_digest member
repository_is_valid sha256_json r =
    member r.identity_method
      (codes "origin_and_root_commits_sha256" ∷ codes "unborn_root_digest_sha256" ∷ [])
    && (is_digest r.repository_id
        && is_digest r.canonical_root_digest
        && is_digest r.worktree_id
        && is_digest r.git_common_dir_digest)
    && text_eq r.worktree_id
        (sha256_json (of_worktree r.canonical_root_digest r.git_common_dir_digest))

abbrev pub digest_or_none : Option Text → Bool
digest_or_none none = true
digest_or_none (some t) = is_digest t

-- The tests on `discovery`.
unfoldable pub discovery_is_valid : Discovery → Bool
unfolding from_keys is_digest member
discovery_is_valid d =
    texts_eq d.fallback_filenames (from_keys d.fallback_filenames)
    && not (
        any
          (λ name.
            is_empty name
            || contains b'/' name
            || contains 92 name
            || member name (codes "AGENTS.override.md" ∷ codes "AGENTS.md" ∷ []))
          d.fallback_filenames)
    && not (d.project_doc_max_bytes == 0)
    && digest_or_none d.discovery_config_tag_sha256

-- The test on `scope_id`.
unfoldable pub scope_id_is_valid : (Hashed → Text) → Scope → Bool
unfolding is_digest
scope_id_is_valid sha256_json s =
    is_digest s.scope_id && text_eq s.scope_id (sha256_json (of_cwd s.cwd))

-- The other tests on `scope`.
unfoldable pub scope_is_valid : Scope → Bool
unfolding is_record_path from_keys discovery_is_valid
scope_is_valid s =
    (text_eq s.cwd (codes ".") || is_record_path false s.cwd)
    && (not (is_empty s.instruction_chain)
        && texts_eq s.instruction_chain (from_keys s.instruction_chain)
        && all (is_record_path true) s.instruction_chain)
    && discovery_is_valid s.discovery

abbrev pub is_instruction : Source → Bool
is_instruction s = text_eq s.source_kind (codes "instruction")

abbrev pub present {ℓ} : {A : Type ℓ} → Option A → Bool
present none = false
present (some a) = true

-- `set(source) != expected_keys`: an instruction has a scope and a precedence, the others have neither.
abbrev pub has_expected_keys : Source → Bool
has_expected_keys s =
    if is_instruction s
    then present s.instruction_scope && present s.precedence
    else not (present s.instruction_scope) && not (present s.precedence)

abbrev pub option_is : Option Text → Text → Bool
option_is none t = false
option_is (some s) t = text_eq s t

unfoldable pub git_is_valid : GitFingerprint → Bool
unfolding is_git_object member
git_is_valid g =
    is_git_object g.head_blob_id
    && is_git_object g.index_blob_id
    && not (is_empty g.working_tree_state)
    && texts_eq g.working_tree_state (sorted_set g.working_tree_state)
    && all
        (λ state. member state (
          codes "TRACKED_CLEAN"
          ∷ codes "STAGED"
          ∷ codes "UNSTAGED"
          ∷ codes "UNTRACKED"
          ∷ codes "EXTERNAL_GLOBAL"
          ∷ []))
        g.working_tree_state

-- One turn of `for path, source in sources.items()`; the analysis key is a digest too.
unfoldable pub source_is_valid : Sources → Text → Source → Bool
unfolding member is_digest git_is_valid starts_with
source_is_valid sources path s =
    has_expected_keys s
    && member s.source_kind (
        codes "instruction"
        ∷ codes "rule"
        ∷ codes "rule_index"
        ∷ codes "schema"
        ∷ codes "context"
        ∷ [])
    && (is_digest s.raw_sha256
        && is_digest s.semantic_sha256
        && member s.normalization (codes "UTF8_CRLF_LF_NORMALIZED" ∷ codes "BYTE_EXACT" ∷ []))
    && (texts_eq s.dependencies (sorted_set s.dependencies)
        && all (λ d. member d (paths_of sources)) s.dependencies)
    && git_is_valid s.git
    && (if starts_with global_prefix path
        then option_is s.instruction_scope (codes "global")
          && texts_eq s.git.working_tree_state (codes "EXTERNAL_GLOBAL" ∷ [])
        else not (member (codes "EXTERNAL_GLOBAL") s.git.working_tree_state))
