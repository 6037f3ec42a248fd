-- ===== src/Reader/Mounts.antt =====
-- `_path_components`, `_relative_mount_path` and `_select_cgroup2_mount` of
-- Code/Tools/Linux_Cgroup_Reader.py.
pub mod Paths
pub mod Deepest
pub mod Selection
use sql_server_analyze.Common.{
  ℕ, zero, suc, ◌+◌, ◌-◌, ◌*◌, ◌/◌, ◌%◌, ◌^◌, ◌≤◌, ◌<◌, min, max, String, ◌≡◌, ◌≢◌, ◌↔◌, ◌⊎◌, inl,
  inr, refl, sym, ap, ◌∙◌, subst, ◌&&◌, ◌||◌, not, Bool, true, false, List, [], ◌∷◌, ◌++◌, map,
  reverse, append-nil, append_assoc, Option, none, some, arith, ◌==◌, ltb, leb, if◌then◌else◌,
  Bool-cases, &&_left, &&_right, ==→eq, ==_refl, pos→nonzero, nonzero→pos, ltb→lt, lt→ltb, leb→le,
  le→leb, length, length-append, get_elem?, take, drop, is_empty, any, all, select, All, Some,
  All-append, Some-append, Some-reverse, All-reverse, ⊎-map, ⊎-map_left, ⊎-comm, ⊎-assoc, ⊎-unassoc,
  ⊎-rotate,
}
use sql_server_analyze.Codes.{ParseState}
use sql_server_analyze.Text.{Text, codes, text_eq, contains, member, split, starts_with}
use sql_server_analyze.Text.Laws.{join}
use sql_server_analyze.Metadata.Mountinfo.{Mount, MountinfoResult, is_cgroup2}

-- `part in ("", ".", "..")`
abbrev pub unsafe_parts : List Text
unsafe_parts = [] ∷ codes "." ∷ codes ".." ∷ []

unfoldable pub path_components : Text → Option (List Text)
unfolding starts_with split member
path_components path =
    if not (starts_with (codes "/") path) || contains 0 path
    then none
    else if text_eq path (codes "/")
    then some []
    else if any (λ part. member part unsafe_parts) (split b'/' (drop 1 path))
    then none
    else some (split b'/' (drop 1 path))

-- `"/".join(parts) if parts else "."`
abbrev pub joined : Option (List Text) → Option Text
joined none = none
joined (some parts) = some (if is_empty parts then codes "." else join b'/' parts)

unfoldable pub relative_mount_path : Text → Option Text
unfolding path_components join
relative_mount_path path = joined (path_components path)

-- `a == b` on the components of paths.
abbrev pub parts_eq : List Text → List Text → Bool
parts_eq [] [] = true
parts_eq [] (t ∷ ts) = false
parts_eq (s ∷ ss) [] = false
parts_eq (s ∷ ss) (t ∷ ts) = text_eq s t && parts_eq ss ts

-- `(len(root_parts), mount)`
abbrev pub Candidate : Type 0
Candidate = ℕ × Mount

abbrev pub under_root : List Text → Mount → Option (List Text) → Option Candidate
under_root member_parts mount none = none
under_root member_parts mount (some root_parts) =
    if parts_eq (take (length root_parts) member_parts) root_parts
    then some (length root_parts, mount)
    else none

-- What the loop appends for a mount.
pub candidate : List Text → Mount → Option Candidate
candidate member_parts mount =
    if is_cgroup2 mount then under_root member_parts mount (path_components mount.root) else none

abbrev pub appended : Option Candidate → List Candidate → List Candidate
appended none cs = cs
appended (some c) cs = c ∷ cs

pub candidates : List Text → List Mount → List Candidate
unfolding candidate
candidates member_parts [] = []
candidates member_parts (m ∷ ms) = appended (candidate member_parts m) (candidates member_parts ms)

-- `max(depth for depth, _mount in candidates)`
pub best_depth : List Candidate → ℕ
best_depth [] = 0
best_depth (c ∷ cs) = max c.0 (best_depth cs)

-- `best[0] if len(best) == 1 else None`
abbrev pub only_one : List Candidate → Option Mount
only_one [] = none
only_one (c ∷ []) = some c.1
only_one (c ∷ d ∷ cs) = none

pub deepest : List Candidate → Option Mount
unfolding best_depth
deepest cs = only_one (select (λ c. c.0 == best_depth cs) cs)

abbrev pub among : Option (List Mount) → Option (List Text) → Option Mount
among (some ms) (some member_parts) = deepest (candidates member_parts ms)
among _ _ = none

abbrev pub is_valid : ParseState → Bool
is_valid ParseState.valid = true
is_valid _ = false

unfoldable pub select_cgroup2_mount : MountinfoResult → Text → Option Mount
unfolding deepest candidates path_components
select_cgroup2_mount info path =
    if is_valid info.parse_state then among info.mounts (path_components path) else none
