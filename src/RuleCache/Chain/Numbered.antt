-- ===== src/RuleCache/Chain/Numbered.antt =====
-- The chain against a plain description of it: which files it lists, and that they fit.
use sql_server_analyze.Common.{
  ℕ, suc, ◌+◌, ◌-◌, ◌*◌, ◌≤◌, ◌≡◌, refl, ap, ◌∙◌, subst, not, Bool, true, false, List, [], ◌∷◌,
  ◌++◌, map, arith, ltb, length, is_empty, any,
}
use sql_server_analyze.Text.{Text, codes}
use sql_server_analyze.RuleCache.Capture.{Location}
use sql_server_analyze.RuleCache.Chain.{
  ChainFiles, ChainOptions, ChainState, instruction_names, directories_below, append_directories,
  is_project, combined_size, reason_when, start_chain, instruction_chain,
}
use sql_server_analyze.RuleCache.Chain.Listed.{
  numbered, global_entry, project_entry, global_names, paths_in, Lists, append_directories-Lists,
  start_chain-Lists,
}
use sql_server_analyze.RuleCache.Chain.Directories.{working_directories, directories-working}

-- The instructions of the repository, from the root down to the working directory.
abbrev pub project_paths : ChainFiles → ChainOptions → List Text
project_paths files o =
    paths_in files (instruction_names ++ o.fallback_filenames) (working_directories o)

abbrev pub total_size : ChainFiles → List Text → ℕ
total_size files [] = 0
total_size files (path ∷ paths) = files.size path + total_size files paths

-- Behind the first instruction of the repository, each one counts two bytes more than it has.
combined_size-later :
    (files : ChainFiles) (n : ℕ) (paths : List Text)
    → combined_size files false (numbered n (map project_entry paths))
      ≡ total_size files paths + 2 * length paths
combined_size-later files n [] = refl
combined_size-later files n (path ∷ paths) = omega (arith, combined_size-later files (suc n) paths)

combined_size-total :
    (files : ChainFiles) (n : ℕ) (names paths : List Text)
    → combined_size files true (numbered n (map global_entry names ++ map project_entry paths))
      ≡ total_size files paths + 2 * (length paths - 1)
combined_size-total files n (name ∷ names) paths = combined_size-total files (suc n) names paths
combined_size-total files n [] [] = refl
combined_size-total files n [] (path ∷ paths) =
    omega (arith, combined_size-later files (suc n) paths)

any_project :
    (n : ℕ) (names paths : List Text)
    → any is_project (numbered n (map global_entry names ++ map project_entry paths)) ≡ true
    → 1 ≤ length paths
any_project n (name ∷ names) paths h = any_project (suc n) names paths h
any_project n [] [] h = cc
any_project n [] (path ∷ paths) h = omega arith

reason_when-chain :
    (b : Bool) (reason : Text) (s : ChainState) → (reason_when b reason s).chain ≡ s.chain
reason_when-chain true reason s = refl
reason_when-chain false reason s = refl

append-nonempty : (xs : List Text) (x : Text) → is_empty (xs ++ (x ∷ [])) ≡ false
append-nonempty [] x = refl
append-nonempty (y ∷ xs) x = refl

-- No reason was added, and there was none before.
no_reason-added :
    (b : Bool) (reason : Text) (s : ChainState)
    → is_empty (reason_when b reason s).reasons ≡ true
    → (b ≡ false) × (is_empty s.reasons ≡ true)
no_reason-added true reason s h = cc (append-nonempty s.reasons reason)
no_reason-added false reason s h = (refl, h)

-- What a chain is that is found without a reason against it.
pub record IsApplicable (files : ChainFiles) (o : ChainOptions) (chain : List Location)
    : Type 0 where
  pub listed :
      chain
      ≡ numbered 0
          (map global_entry (global_names files o) ++ map project_entry (project_paths files o))
  pub has_project : 1 ≤ length (project_paths files o)
  pub fits :
      total_size files (project_paths files o) + 2 * (length (project_paths files o) - 1)
      ≤ o.project_doc_max_bytes

-- Where no part of the working directory is empty, a chain that is found without a reason against
-- it lists, numbered from 0, the global instruction (the first of the two names with contents, if
-- it is asked for and the home is known), then for the root and for each directory down to the
-- working directory the first name whose file is inside of the repository and has contents, if
-- there is one. At least one instruction is of the repository, and their sizes, with two bytes
-- more for each but one, add up to the limit of bytes at most.
pub instruction_chain-IsApplicable :
    (files : ChainFiles) (o : ChainOptions)
    → any is_empty o.parts ≡ false
    → is_empty (instruction_chain files o).reasons ≡ true
    → IsApplicable files o (instruction_chain files o).chain
unfolding instruction_chain
instruction_chain-IsApplicable files o parts h =
    let names = instruction_names ++ o.fallback_filenames in
    let directories = [] ∷ directories_below [] o.parts in
    let s = append_directories files directories names (start_chain files o) in
    let large = ltb o.project_doc_max_bytes (combined_size files true s.chain) in
    let bare = not (any is_project s.chain) in
    let sized = reason_when large (codes "DISCOVERY_SIZE_LIMIT_EXCEEDED") s in
    let (project, before) =
      no_reason-added bare (codes "REPOSITORY_INSTRUCTION_CHAIN_EMPTY") sized h in
    let (fits, _) = no_reason-added large (codes "DISCOVERY_SIZE_LIMIT_EXCEEDED") s before in
    let globals = global_names files o in
    let lists : Lists s (map global_entry globals ++ map project_entry (project_paths files o)) =
      append_directories-Lists files directories names (start_chain files o)
        (map global_entry globals) (start_chain-Lists files o)
      ∙ ap
          (λ ds.
            numbered 0 (map global_entry globals ++ map project_entry (paths_in files names ds)))
          (directories-working o parts) in
    record {
      listed =
          reason_when-chain bare (codes "REPOSITORY_INSTRUCTION_CHAIN_EMPTY") sized
          ∙ reason_when-chain large (codes "DISCOVERY_SIZE_LIMIT_EXCEEDED") s
          ∙ lists;
      has_project =
          any_project 0 globals (project_paths files o)
            (subst (λ c. any is_project c ≡ true) lists (ground (arith, project)));
      fits =
          subst (λ k. k ≤ o.project_doc_max_bytes)
            (ap (combined_size files true) lists
              ∙ combined_size-total files 0 globals (project_paths files o))
            (ground (arith, fits));
    }
