-- ===== src/RuleCache/Chain.antt =====
-- `_instruction_chain`: the instructions that apply to a working directory.
pub mod Listed
pub mod Directories
pub mod Numbered
mod Tests
use sql_server_analyze.Common.{
  ℕ, zero, suc, ◌+◌, ◌-◌, ◌*◌, ◌/◌, ◌%◌, ◌^◌, ◌≤◌, ◌<◌, min, max, String, ◌≡◌, ◌≢◌, ◌↔◌, ◌⊎◌, inl,
  inr, refl, sym, ap, ◌∙◌, subst, ◌&&◌, ◌||◌, not, Bool, true, false, List, [], ◌∷◌, ◌++◌, map,
  reverse, append-nil, append_assoc, Option, none, some, arith, ◌==◌, ltb, leb, if◌then◌else◌,
  Bool-cases, &&_left, &&_right, ==→eq, ==_refl, pos→nonzero, nonzero→pos, ltb→lt, lt→ltb, leb→le,
  le→leb, length, length-append, get_elem?, take, drop, is_empty, any, all, select, All, Some,
  All-append, Some-append, Some-reverse, All-reverse, ⊎-map, ⊎-map_left, ⊎-comm, ⊎-assoc, ⊎-unassoc,
  ⊎-rotate,
}
use sql_server_analyze.Text.{Text, codes, text_eq}
use sql_server_analyze.RuleCache.Capture.{Location}

-- What the file system answers: for a name in the home of Codex, whether the file has contents; for a
-- path of the repository, whether it stays inside when it is resolved, exists, has contents, and its size.
pub record ChainFiles : Type 0 where
  pub global_nonempty : Text → Bool
  pub inside : Text → Bool
  pub exists : Text → Bool
  pub nonempty : Text → Bool
  pub size : Text → ℕ

-- The options that the chain depends on; the parts of the working directory below the root.
pub record ChainOptions : Type 0 where
  pub include_global : Bool
  pub codex_home_known : Bool
  pub fallback_filenames : List Text
  pub project_doc_max_bytes : ℕ
  pub parts : List Text

abbrev pub instruction_names : List Text
instruction_names = codes "AGENTS.override.md" ∷ codes "AGENTS.md" ∷ []

-- `directory / name`, from the root of the repository.
abbrev pub child_path : Text → Text → Text
child_path [] name = name
child_path (c ∷ directory) name = (c ∷ directory) ++ (b'/' ∷ name)

-- `directories` behind the first one.
abbrev pub directories_below : Text → List Text → List Text
directories_below cursor [] = []
directories_below cursor (part ∷ parts) =
    child_path cursor part ∷ directories_below (child_path cursor part) parts

abbrev pub instruction_at : (path scope : Text) → ℕ → Location
instruction_at path scope precedence = record {
  canonical_path = path;
  source_kind = codes "instruction";
  instruction_scope = some scope;
  precedence = some precedence;
}

-- The chain and the reasons so far.
pub record ChainState : Type 0 where
  pub chain : List Location
  pub reasons : List Text

-- `chain.append(...)`, with `precedence=len(chain)`.
abbrev pub append_instruction : (path scope : Text) → ChainState → ChainState
append_instruction path scope s = record {
  chain = s.chain ++ (instruction_at path scope (length s.chain) ∷ []);
  reasons = s.reasons;
}

abbrev pub append_reason : Text → ChainState → ChainState
append_reason reason s = record { chain = s.chain; reasons = s.reasons ++ (reason ∷ []) }

-- The first global instruction that has contents.
unfoldable pub append_global : ChainFiles → List Text → ChainState → ChainState
append_global files [] s = s
append_global files (name ∷ names) s =
    let rest = append_global files names s in
    if files.global_nonempty name
    then append_instruction (codes "@global/" ++ name) (codes "global") s
    else rest

-- `for name in names`, in one directory.
unfoldable pub append_directory :
    ChainFiles → (directory : Text) → List Text → ChainState → ChainState
append_directory files directory [] s = s
append_directory files directory (name ∷ names) s =
    let candidate = child_path directory name in
    let outside =
      append_directory files directory names
        (append_reason (codes "INSTRUCTION_OUTSIDE_REPOSITORY") s) in
    let rest = append_directory files directory names s in
    if not (files.inside candidate)
    then (if files.exists candidate then outside else rest)
    else if not (files.nonempty candidate)
    then rest
    else append_instruction candidate (codes "repository") s

-- `for directory in directories`
unfoldable pub append_directories : ChainFiles → List Text → List Text → ChainState → ChainState
unfolding append_directory
append_directories files [] names s = s
append_directories files (directory ∷ directories) names s =
    append_directories files directories names (append_directory files directory names s)

abbrev pub is_project : Location → Bool
is_project l = elim l.instruction_scope [
  | none ↦ false
  | some scope ↦ text_eq scope (codes "repository")
]

-- The bytes of the project instructions, with two between one and the next.
abbrev pub combined_size : ChainFiles → Bool → List Location → ℕ
combined_size files first [] = 0
combined_size files first (l ∷ chain) =
    if is_project l
    then files.size l.canonical_path + (if first then 0 else 2) + combined_size files false chain
    else combined_size files first chain

abbrev pub reason_when : Bool → Text → ChainState → ChainState
reason_when true reason s = append_reason reason s
reason_when false reason s = s

abbrev pub start_chain : ChainFiles → ChainOptions → ChainState
start_chain files o =
    let empty : ChainState = record { chain = []; reasons = [] } in
    if not o.include_global
    then empty
    else if not o.codex_home_known
    then append_reason (codes "GLOBAL_DISCOVERY_UNAVAILABLE") empty
    else append_global files instruction_names empty

-- `_instruction_chain`
unfoldable pub instruction_chain : ChainFiles → ChainOptions → ChainState
unfolding append_global append_directories
instruction_chain files o =
    let s =
      append_directories files ([] ∷ directories_below [] o.parts)
        (instruction_names ++ o.fallback_filenames) (start_chain files o) in
    reason_when (not (any is_project s.chain)) (codes "REPOSITORY_INSTRUCTION_CHAIN_EMPTY") (
      reason_when (ltb o.project_doc_max_bytes (combined_size files true s.chain))
        (codes "DISCOVERY_SIZE_LIMIT_EXCEEDED") s)
