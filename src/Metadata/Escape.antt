-- ===== src/Metadata/Escape.antt =====
-- `_decode_mount_path` of Code/Tools/Linux_Cgroup_Metadata.py: the octal escapes of mountinfo.
use sql_server_analyze.Common.{
  ℕ, zero, suc, ◌≡◌, refl, ap, ◌∙◌, ◌&&◌, ◌||◌, not, Bool, false, [], ◌∷◌, ◌++◌, Option, none, some,
  arith, ◌==◌, if◌then◌else◌,
}
use sql_server_analyze.Text.{Text, codes, starts_with}

-- `(?!040|011|012|134)`: what may follow a backslash.
abbrev pub is_escape_tail : Text → Bool
is_escape_tail s =
    starts_with (codes "040") s
    || starts_with (codes "011") s
    || starts_with (codes "012") s
    || starts_with (codes "134") s

-- `_INVALID_MOUNT_ESCAPE.search(text)`
pub has_invalid_escape : Text → Bool
has_invalid_escape [] = false
has_invalid_escape (c ∷ s) = ((c == b'\\') && not (is_escape_tail s)) || has_invalid_escape s

-- `_MOUNT_ESCAPE_MAP`, where an escape begins at the head of the text.
abbrev pub escape_at : ℕ → Text → Option ℕ
escape_at c s =
    if not (c == b'\\')
    then none
    else if starts_with (codes "040") s
    then some 32
    else if starts_with (codes "011") s
    then some 9
    else if starts_with (codes "012") s
    then some 10
    else if starts_with (codes "134") s
    then some b'\\'
    else none

-- `_MOUNT_ESCAPE.sub(...)`: `skip` characters belong to the escape that was just replaced.
pub replace_escapes : ℕ → Text → Text
replace_escapes skip [] = []
replace_escapes (suc skip) (c ∷ s) = replace_escapes skip s
replace_escapes zero (c ∷ s) = elim (escape_at c s) [
  | some d ↦ d ∷ replace_escapes 3 s
  | none ↦ c ∷ replace_escapes 0 s
]

unfoldable pub decode_mount_path : Text → Option Text
unfolding has_invalid_escape replace_escapes starts_with
decode_mount_path s = if has_invalid_escape s then none else some (replace_escapes 0 s)

-- The escaped form of a path: each character that the map knows is written as its escape.
pub escape : ℕ → Text
escape c =
    if c == 32
    then codes "\\040"
    else if c == 9
    then codes "\\011"
    else if c == 10
    then codes "\\012"
    else if c == b'\\'
    then codes "\\134"
    else c ∷ []

unfoldable pub escape_path : Text → Text
unfolding escape
escape_path [] = []
escape_path (c ∷ s) = escape c ++ escape_path s

escape_replaced : (c : ℕ) (s : Text) → replace_escapes 0 (escape c ++ s) ≡ c ∷ replace_escapes 0 s
unfolding escape replace_escapes starts_with
escape_replaced c s = ground arith

escape_valid : (c : ℕ) (s : Text) → has_invalid_escape (escape c ++ s) ≡ has_invalid_escape s
unfolding escape has_invalid_escape starts_with
escape_valid c s = ground arith

escape_path_valid : (s : Text) → has_invalid_escape (escape_path s) ≡ false
unfolding escape_path
escape_path_valid [] = unfold has_invalid_escape in refl
escape_path_valid (c ∷ s) = escape_valid c (escape_path s) ∙ escape_path_valid s

escape_path_replaced : (s : Text) → replace_escapes 0 (escape_path s) ≡ s
unfolding escape_path
escape_path_replaced [] = unfold replace_escapes in refl
escape_path_replaced (c ∷ s) =
    escape_replaced c (escape_path s) ∙ ap (λ (t : Text). c ∷ t) (escape_path_replaced s)

-- Every path is read back from its escaped form.
pub decode_mount_path-escape_path : (s : Text) → decode_mount_path (escape_path s) ≡ some s
unfolding decode_mount_path
decode_mount_path-escape_path s = rw (escape_path_valid s) (ap some (escape_path_replaced s))
