-- ===== src/RuleCache/Discovery.antt =====
-- `_discover_sources` and the tests on references that it uses.
pub mod Ascending
pub mod Kept
pub mod Steps
pub mod Ends
use sql_server_analyze.Common.{
  ℕ, zero, suc, ◌+◌, ◌-◌, ◌*◌, ◌/◌, ◌%◌, ◌^◌, ◌≤◌, ◌<◌, min, max, String, ◌≡◌, ◌≢◌, ◌↔◌, ◌⊎◌, inl,
  inr, refl, sym, ap, ◌∙◌, subst, ◌&&◌, ◌||◌, not, Bool, true, false, List, [], ◌∷◌, ◌++◌, map,
  reverse, append-nil, append_assoc, Option, none, some, arith, ◌==◌, ltb, leb, if◌then◌else◌,
  Bool-cases, &&_left, &&_right, ==→eq, ==_refl, pos→nonzero, nonzero→pos, ltb→lt, lt→ltb, leb→le,
  le→leb, length, length-append, get_elem?, take, drop, is_empty, any, all, select, All, Some,
  All-append, Some-append, Some-reverse, All-reverse, ⊎-map, ⊎-map_left, ⊎-comm, ⊎-assoc, ⊎-unassoc,
  ⊎-rotate,
}
use sql_server_analyze.Text.{Text, codes, text_eq, member, split, starts_with, ends_with, head_is}
use sql_server_analyze.RuleCache.Texts.{insert_text}
use sql_server_analyze.RuleCache.Graph.{Graph}
use sql_server_analyze.RuleCache.Validate.{windows_absolute, global_prefix}
use sql_server_analyze.RuleCache.Capture.{Location}

abbrev is_letter : ℕ → Bool
is_letter c = (leb b'A' c && leb c b'Z') || (leb b'a' c && leb c b'z')

abbrev is_scheme_char : ℕ → Bool
is_scheme_char c =
    is_letter c || (leb b'0' c && leb c b'9') || (c == b'+') || (c == b'.') || (c == b'-')

-- The rest of `URL_RE` behind its first letter.
abbrev url_rest : Text → Bool
url_rest [] = false
url_rest (c ∷ s) =
    let rest = url_rest s in if is_scheme_char c then rest else starts_with (codes "://") (c ∷ s)

-- `URL_RE.match`
unfoldable pub url_match : Text → Bool
unfolding starts_with
url_match [] = false
url_match (c ∷ s) = is_letter c && url_rest s

-- `.lower()` on the letters that a suffix may have; it leaves the other ones as they are.
abbrev lower : ℕ → ℕ
lower c = if leb b'A' c && leb c b'Z' then c + 32 else c

abbrev first_part : List Text → Text
first_part [] = []
first_part (p ∷ ps) = p

-- `text.split(sep, 1)[0]`
abbrev up_to : ℕ → Text → Text
up_to sep t = first_part (split sep t)

-- `_looks_like_rule_path`
unfoldable pub looks_like_rule_path : Text → Bool
unfolding split ends_with
looks_like_rule_path value =
    let lowered = up_to b'?' (up_to b'#' (map lower value)) in
    any (λ suffix. ends_with suffix lowered)
      (codes ".md" ∷ codes ".json" ∷ codes ".yaml" ∷ codes ".yml" ∷ codes ".toml" ∷ [])

-- A reference that the loop leaves out.
unfoldable pub is_foreign : Text → Bool
unfolding url_match starts_with windows_absolute
is_foreign reference =
    url_match reference
    || starts_with (codes "#") reference
    || starts_with (codes "/") reference
    || windows_absolute reference

-- The locals of `_discover_sources`; a set of dependencies is kept in order.
pub record Discoveries : Type 0 where
  pub locations : List (Text × Location)
  pub dependencies : Graph
  pub queue : List Location
  pub reasons : List Text

abbrev pub paths : List (Text × Location) → List Text
paths items = map (λ (x : Text × Location). x.0) items

-- `locations[path] = location`
pub put_location : Text → Location → List (Text × Location) → List (Text × Location)
put_location path l [] = (path, l) ∷ []
put_location path l ((k, m) ∷ items) =
    let rest = put_location path l items in if text_eq k path then (k, l) ∷ items else (k, m) ∷ rest

-- `dependencies[path] = set()`
pub put_empty : Text → Graph → Graph
put_empty path [] = (path, []) ∷ []
put_empty path ((k, ds) ∷ g) =
    let rest = put_empty path g in if text_eq k path then (k, []) ∷ g else (k, ds) ∷ rest

-- `dependencies.setdefault(path, set()).add(target)`
pub add_dependency : Text → Text → Graph → Graph
unfolding insert_text
add_dependency path target [] = (path, target ∷ []) ∷ []
add_dependency path target ((k, ds) ∷ g) =
    let rest = add_dependency path target g in
    if text_eq k path then (k, insert_text target ds) ∷ g else (k, ds) ∷ rest

abbrev pub add_reason : Text → Discoveries → Discoveries
add_reason reason d = record {
  locations = d.locations;
  dependencies = d.dependencies;
  queue = d.queue;
  reasons = d.reasons ++ (reason ∷ []);
}

-- A path that was not located yet is located, with no dependencies, and put into the queue.
unfoldable pub locate : Location → Discoveries → Discoveries
unfolding member put_location put_empty
locate l d = if member l.canonical_path (paths d.locations) then d else record {
  locations = put_location l.canonical_path l d.locations;
  dependencies = put_empty l.canonical_path d.dependencies;
  queue = d.queue ++ (l ∷ []);
  reasons = d.reasons;
}

abbrev pub depend : Text → Text → Discoveries → Discoveries
depend path target d = record {
  locations = d.locations;
  dependencies = add_dependency path target d.dependencies;
  queue = d.queue;
  reasons = d.reasons;
}

-- `locations` and `dependencies` of the chain.
abbrev pub chain_locations : List Location → List (Text × Location) → List (Text × Location)
chain_locations [] items = items
chain_locations (l ∷ chain) items = chain_locations chain (put_location l.canonical_path l items)

abbrev pub chain_graph : List Location → Graph → Graph
chain_graph [] g = g
chain_graph (l ∷ chain) g = chain_graph chain (put_empty l.canonical_path g)

abbrev pub of_chain : List Location → Discoveries
of_chain chain = record {
  locations = chain_locations chain [];
  dependencies = chain_graph chain [];
  queue = chain;
  reasons = [];
}

-- What a discovery asks of the repository: the file that a reference in a source names, and the
-- references of a source, each with whether it is a strong one, or none where the text cannot be decoded.
pub record Files : Type 0 where
  pub resolve : Text → Text → Option Text
  pub references : Location → Option (List (Text × Bool))

-- `needle in text`
abbrev pub contains_text : Text → Text → Bool
contains_text needle [] = is_empty needle
contains_text needle (c ∷ s) =
    let rest = contains_text needle s in starts_with needle (c ∷ s) || rest

-- `path.name`
abbrev pub last_part : List Text → Text
last_part [] = []
last_part (p ∷ []) = p
last_part (p ∷ q ∷ ps) = last_part (q ∷ ps)

-- `_source_kind`, for the path from the root of the repository.
unfoldable pub source_kind_of : Text → Text
unfolding split starts_with ends_with member
source_kind_of path =
    let name = last_part (split b'/' path) in
    if contains_text (codes "repo_map") name
    then codes "rule_index"
    else if contains_text (codes "/schemas/") (b'/' ∷ path) || ends_with (codes ".schema.json") name
    then codes "schema"
    else if member path (
        codes ".ai/PROJECT_STATUS.md"
        ∷ codes ".ai/HANDOVER.md"
        ∷ codes ".ai/BACKLOG.md"
        ∷ codes ".ai/ROADMAP.md"
        ∷ [])
    then codes "context"
    else codes "rule"

-- The location of a file of the repository.
abbrev pub child_at : Text → Location
child_at path = record {
  canonical_path = path;
  source_kind = source_kind_of path;
  instruction_scope = none;
  precedence = none;
}

abbrev pub add_extra : Option Text → Discoveries → Discoveries
add_extra none d = add_reason (codes "UNRESOLVED_REFERENCE") d
add_extra (some path) d = locate (child_at path) d

-- `for raw_rule in options.extra_rules`
unfoldable pub add_extras : Files → List Text → Discoveries → Discoveries
unfolding locate
add_extras files [] d = d
add_extras files (rule ∷ rules) d =
    add_extras files rules (add_extra (files.resolve (codes "AGENTS.md") rule) d)

abbrev pub follow_resolved :
    Files
    → Location
    → (reference : Text) → (strong : Bool) → Option Text
    → Discoveries
    → Discoveries
follow_resolved files l reference strong none d =
    if strong && looks_like_rule_path reference
    then add_reason (codes "UNRESOLVED_REFERENCE") d
    else d
follow_resolved files l reference strong (some path) d =
    locate (child_at path) (depend l.canonical_path path d)

-- `for reference, strong in references`
unfoldable pub follow_references : Files → Location → List (Text × Bool) → Discoveries → Discoveries
unfolding is_foreign looks_like_rule_path locate add_dependency
follow_references files l [] d = d
follow_references files l ((reference, strong) ∷ references) d =
    follow_references files l references (
      if is_foreign reference
      then d
      else follow_resolved files l reference strong (files.resolve l.canonical_path reference) d)

abbrev pub follow_text : Files → Location → Option (List (Text × Bool)) → Discoveries → Discoveries
follow_text files l none d =
    if member l.source_kind (codes "instruction" ∷ codes "rule_index" ∷ codes "context" ∷ [])
    then add_reason (codes "RULE_SOURCE_ENCODING_UNSUPPORTED") d
    else d
follow_text files l (some references) d = follow_references files l references d

abbrev pub popped : List Location → Discoveries → Discoveries
popped queue d = record {
  locations = d.locations;
  dependencies = d.dependencies;
  queue = queue;
  reasons = d.reasons;
}

-- One source of the queue that was not processed yet.
unfoldable pub process_source : Files → Location → Discoveries → Discoveries
unfolding follow_references starts_with member
process_source files l d =
    if starts_with global_prefix l.canonical_path
    then d
    else follow_text files l (files.references l) d

-- `while queue`, with fuel.
unfoldable pub discovery_loop :
    Files → ℕ → List Text → Discoveries → List Location → Option Discoveries
unfolding process_source member
discovery_loop files zero processed d queue = none
discovery_loop files (suc fuel) processed d [] = some d
discovery_loop files (suc fuel) processed d (l ∷ queue) =
    let next = process_source files l (popped queue d) in
    elim (member l.canonical_path processed) [
      | true ↦ discovery_loop files fuel processed (popped queue d) queue
      | false ↦ discovery_loop files fuel (l.canonical_path ∷ processed) next next.queue
    ]

-- `_discover_sources`
unfoldable pub discover_sources :
    Files → (fuel : ℕ) → List Location → (extra_rules : List Text) → Option Discoveries
unfolding add_extras discovery_loop put_location put_empty
discover_sources files fuel chain extra_rules =
    let d = add_extras files extra_rules (of_chain chain) in discovery_loop files fuel [] d d.queue
