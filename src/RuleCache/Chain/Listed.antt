-- ===== src/RuleCache/Chain/Listed.antt =====
-- The entries of a chain, described directory by directory, and that the loops list them.
use sql_server_analyze.Common.{
  ℕ, suc, ◌+◌, ◌≡◌, inl, inr, refl, sym, ap, ◌∙◌, ◌&&◌, Bool, List, [], ◌∷◌, ◌++◌, map, append-nil,
  append_assoc, arith, if◌then◌else◌, Bool-cases, length, take, select,
}
use sql_server_analyze.Text.{Text, codes}
use sql_server_analyze.RuleCache.Capture.{Location}
use sql_server_analyze.RuleCache.Chain.{
  ChainFiles, ChainOptions, ChainState, instruction_names, child_path, instruction_at,
  append_instruction, append_reason, append_global, append_directory, append_directories,
  start_chain,
}

-- An entry: its path and its scope.
abbrev pub ChainEntry : Type 0
ChainEntry = Text × Text

-- The entries as instructions, numbered from `n` on.
abbrev pub numbered : ℕ → List ChainEntry → List Location
numbered n [] = []
numbered n ((path, scope) ∷ entries) = instruction_at path scope n ∷ numbered (suc n) entries

-- The first name that passes the test, if there is one.
abbrev pub first_of : (Text → Bool) → List Text → List Text
first_of p names = take 1 (select p names)

abbrev pub global_entry : Text → ChainEntry
global_entry name = (codes "@global/" ++ name, codes "global")

abbrev pub project_entry : Text → ChainEntry
project_entry path = (path, codes "repository")

-- The instruction of the home of Codex: the first one with contents, if it is asked for and the home is known.
abbrev pub global_names : ChainFiles → ChainOptions → List Text
global_names files o =
    if o.include_global && o.codex_home_known
    then first_of files.global_nonempty instruction_names
    else []

abbrev pub is_usable : ChainFiles → (directory name : Text) → Bool
is_usable files directory name =
    files.inside (child_path directory name) && files.nonempty (child_path directory name)

-- In each directory, the first name whose file is inside of the repository and has contents.
abbrev pub paths_in : ChainFiles → (names directories : List Text) → List Text
paths_in files names [] = []
paths_in files names (directory ∷ directories) =
    map (child_path directory) (first_of (is_usable files directory) names)
    ++ paths_in files names directories

-- The chain lists the entries.
abbrev pub Lists : ChainState → List ChainEntry → Type 0
Lists s entries = s.chain ≡ numbered 0 entries

length-numbered : (n : ℕ) (xs : List ChainEntry) → length (numbered n xs) ≡ length xs
length-numbered n [] = refl
length-numbered n (x ∷ xs) = ap suc (length-numbered (suc n) xs)

numbered-append :
    (n k : ℕ) (xs : List ChainEntry) (path scope : Text)
    → k ≡ n + length xs
    → numbered n (xs ++ ((path, scope) ∷ [])) ≡ numbered n xs ++ (instruction_at path scope k ∷ [])
numbered-append n k [] path scope e = ap (λ m. instruction_at path scope m ∷ []) (omega arith)
numbered-append n k ((p, q) ∷ xs) path scope e =
    ap (λ l. instruction_at p q n ∷ l) (numbered-append (suc n) k xs path scope (omega arith))

append_instruction-Lists :
    (path scope : Text) (s : ChainState) (xs : List ChainEntry)
    → Lists s xs
    → Lists (append_instruction path scope s) (xs ++ ((path, scope) ∷ []))
append_instruction-Lists path scope s xs h =
    ap (λ c. c ++ (instruction_at path scope (length c) ∷ [])) h
    ∙ sym (
        numbered-append 0 (length (numbered 0 xs)) xs path scope
          (omega (arith, length-numbered 0 xs)))

append_nothing : (s : ChainState) (xs : List ChainEntry) → Lists s xs → Lists s (xs ++ [])
append_nothing s xs h = rw append-nil h

append_global-Lists :
    (files : ChainFiles) (names : List Text) (s : ChainState) (xs : List ChainEntry)
    → Lists s xs
    → Lists
        (append_global files names s)
        (xs ++ map global_entry (first_of files.global_nonempty names))
unfolding append_global
append_global-Lists files [] s xs h = append_nothing s xs h
append_global-Lists files (name ∷ names) s xs h = elim (Bool-cases (files.global_nonempty name)) [
  | inl t ↦ rw t (append_instruction-Lists (codes "@global/" ++ name) (codes "global") s xs h)
  | inr t ↦ rw t (append_global-Lists files names s xs h)
]

append_directory-Lists :
    (files : ChainFiles) (directory : Text) (names : List Text) (s : ChainState)
    (xs : List ChainEntry)
    → Lists s xs
    → Lists (append_directory files directory names s) (
        xs
        ++ map project_entry
            (map (child_path directory) (first_of (is_usable files directory) names)))
unfolding append_directory
append_directory-Lists files directory [] s xs h = append_nothing s xs h
append_directory-Lists files directory (name ∷ names) s xs h =
    let candidate = child_path directory name in
    elim (Bool-cases (files.inside candidate)) [
      | inr t ↦ elim (Bool-cases (files.exists candidate)) [
        | inl u ↦
            rw (t, u)
              (append_directory-Lists files directory names
                (append_reason (codes "INSTRUCTION_OUTSIDE_REPOSITORY") s) xs h)
        | inr u ↦ rw (t, u) (append_directory-Lists files directory names s xs h)
      ]
      | inl t ↦ elim (Bool-cases (files.nonempty candidate)) [
        | inl u ↦ rw (t, u) (append_instruction-Lists candidate (codes "repository") s xs h)
        | inr u ↦ rw (t, u) (append_directory-Lists files directory names s xs h)
      ]
    ]

map-append {ℓ κ} :
    {A : Type ℓ} {B : Type κ} (f : A → B) (xs ys : List A) → map f (xs ++ ys) ≡ map f xs ++ map f ys
map-append f [] ys = refl
map-append f (x ∷ xs) ys = ap (λ l. f x ∷ l) (map-append f xs ys)

pub append_directories-Lists :
    (files : ChainFiles) (directories names : List Text) (s : ChainState) (xs : List ChainEntry)
    → Lists s xs
    → Lists
        (append_directories files directories names s)
        (xs ++ map project_entry (paths_in files names directories))
unfolding append_directories
append_directories-Lists files [] names s xs h = append_nothing s xs h
append_directories-Lists files (directory ∷ directories) names s xs h =
    let here = map (child_path directory) (first_of (is_usable files directory) names) in
    let below = paths_in files names directories in
    append_directories-Lists files directories names _ (xs ++ map project_entry here)
      (append_directory-Lists files directory names s xs h)
    ∙ ap (numbered 0) (
        append_assoc xs (map project_entry here) (map project_entry below)
        ∙ ap (λ l. xs ++ l) (sym (map-append project_entry here below)))

pub start_chain-Lists :
    (files : ChainFiles) (o : ChainOptions)
    → Lists (start_chain files o) (map global_entry (global_names files o))
start_chain-Lists files o = elim (Bool-cases o.include_global) [
  | inr t ↦ rw t refl
  | inl t ↦ elim (Bool-cases o.codex_home_known) [
    | inr u ↦ rw (t, u) refl
    | inl u ↦
        rw (t, u)
          (append_global-Lists files instruction_names (record { chain = []; reasons = [] }) []
            refl)
  ]
]
