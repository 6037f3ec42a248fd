-- ===== src/RuleCache/Fingerprint.antt =====
-- `_logical_content`, `_git_fingerprint` and `_fingerprint_source`.
pub mod States
pub mod Valid
mod Tests
use sql_server_analyze.Common.{
  ℕ, zero, suc, ◌+◌, ◌-◌, ◌*◌, ◌/◌, ◌%◌, ◌^◌, ◌≤◌, ◌<◌, min, max, String, ◌≡◌, ◌≢◌, ◌↔◌, ◌⊎◌, inl,
  inr, refl, sym, ap, ◌∙◌, subst, ◌&&◌, ◌||◌, not, Bool, true, false, List, [], ◌∷◌, ◌++◌, map,
  reverse, append-nil, append_assoc, Option, none, some, arith, ◌==◌, ltb, leb, if◌then◌else◌,
  Bool-cases, &&_left, &&_right, ==→eq, ==_refl, pos→nonzero, nonzero→pos, ltb→lt, lt→ltb, leb→le,
  le→leb, length, length-append, get_elem?, take, drop, is_empty, any, all, select, All, Some,
  All-append, Some-append, Some-reverse, All-reverse, ⊎-map, ⊎-map_left, ⊎-comm, ⊎-assoc, ⊎-unassoc,
  ⊎-rotate,
}
use sql_server_analyze.Text.{Text, codes, text_eq, contains, starts_with, head_is}
use sql_server_analyze.Reader.Pidfd.{split_lines, unicode_words}
use sql_server_analyze.RuleCache.Texts.{sorted_set}
use sql_server_analyze.RuleCache.Record.{GitFingerprint, Source}
use sql_server_analyze.RuleCache.Validate.{global_prefix, is_instruction}
use sql_server_analyze.RuleCache.Capture.{Location}

-- `text.replace("\r\n", "\n")`
unfoldable pub normalize_newlines : Text → Text
normalize_newlines [] = []
normalize_newlines (c ∷ s) =
    let rest = normalize_newlines s in
    if (c == 13) && head_is (λ d. d == 10) s then rest else c ∷ rest

-- What is used of the codec and the hash: `decode` is none for a `UnicodeDecodeError`.
pub record Encoding : Type 0 where
  pub decode : List ℕ → Option Text
  pub encode : Text → List ℕ
  pub sha256_bytes : List ℕ → Text

abbrev pub decoded_content : Encoding → List ℕ → Option Text → Text × Text
decoded_content e content none = (codes "BYTE_EXACT", e.sha256_bytes content)
decoded_content e content (some text) =
    if contains 0 text
    then (codes "BYTE_EXACT", e.sha256_bytes content)
    else (codes "UTF8_CRLF_LF_NORMALIZED", e.sha256_bytes (e.encode (normalize_newlines text)))

-- `_logical_content`: the normalization, and the hash.
unfoldable pub logical_content : Encoding → List ℕ → Text × Text
unfolding normalize_newlines
logical_content e content = decoded_content e content (e.decode content)

-- What Git answers for a path: the output of `rev-parse` and of `ls-files`, where they succeed, and that of
-- `status`, where it succeeds.
pub record GitAnswers : Type 0 where
  pub head_blob : Option Text
  pub stage : Option Text
  pub status : Option Text

-- `fields[1]` where `fields[2] == "0"`
abbrev pub staged_blob : List Text → Option Text
staged_blob (mode ∷ blob ∷ number ∷ fields) = if text_eq number (codes "0") then some blob else none
staged_blob _ = none

abbrev pub or_else : Option Text → Option Text → Option Text
or_else none later = later
or_else (some t) later = some t

-- `for line in stage.splitlines()`; the first hit ends the loop.
unfoldable pub index_blob : List Text → Option Text
unfolding unicode_words
index_blob [] = none
index_blob (line ∷ lines) = or_else (staged_blob (unicode_words line)) (index_blob lines)

abbrev pub status_states : Text → List Text
status_states (x ∷ y ∷ line) =
    if (x == b'?') && (y == b'?')
    then codes "UNTRACKED" ∷ []
    else (if x == 32 then [] else codes "STAGED" ∷ [])
      ++ (if y == 32 then [] else codes "UNSTAGED" ∷ [])
status_states _ = []

-- `for line in status.stdout.splitlines()`
unfoldable pub states_of : List Text → List Text
states_of [] = []
states_of (line ∷ lines) = status_states line ++ states_of lines

abbrev pub lines_of : Option Text → List Text
lines_of none = []
lines_of (some output) = split_lines output

-- `if not states`
abbrev pub states_or : List Text → Option Text → List Text
states_or [] none = codes "UNTRACKED" ∷ []
states_or [] (some blob) =
    if is_empty blob then codes "UNTRACKED" ∷ [] else codes "TRACKED_CLEAN" ∷ []
states_or (s ∷ states) blob = s ∷ states

-- `head_blob or None`
abbrev pub not_blank : Option Text → Option Text
not_blank none = none
not_blank (some t) = if is_empty t then none else some t

-- `_git_fingerprint`
unfoldable pub git_fingerprint : GitAnswers → Text → GitFingerprint
unfolding index_blob states_of split_lines sorted_set starts_with
git_fingerprint answers canonical_path =
    if starts_with global_prefix canonical_path
    then record {
      head_blob_id = none;
      index_blob_id = none;
      working_tree_state = codes "EXTERNAL_GLOBAL" ∷ [];
    }
    else record {
      head_blob_id = not_blank answers.head_blob;
      index_blob_id = index_blob (lines_of answers.stage);
      working_tree_state =
          sorted_set
            (states_or (states_of (lines_of answers.status)) (index_blob (lines_of answers.stage)));
    }

-- `_fingerprint_source`, for the bytes of the file.
unfoldable pub fingerprint_source : Encoding → List ℕ → GitAnswers → Location → Source
unfolding logical_content git_fingerprint
fingerprint_source e content answers l =
    let (normalization, semantic_hash) = logical_content e content in
    record {
      source_kind = l.source_kind;
      raw_sha256 = e.sha256_bytes content;
      semantic_sha256 = semantic_hash;
      size_bytes = length content;
      normalization = normalization;
      git = git_fingerprint answers l.canonical_path;
      dependencies = [];
      analysis_key = [];
      instruction_scope =
          if text_eq l.source_kind (codes "instruction") then l.instruction_scope else none;
      precedence = if text_eq l.source_kind (codes "instruction") then l.precedence else none;
    }
