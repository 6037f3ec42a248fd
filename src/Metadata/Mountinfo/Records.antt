-- ===== src/Metadata/Mountinfo/Records.antt =====
-- What `_parse_mountinfo_record` guarantees of a mount that it returns.
use sql_server_analyze.Common.{
  ℕ, ◌≤◌, ◌<◌, ◌≡◌, refl, subst, ◌&&◌, ◌||◌, not, true, false, List, [], ◌∷◌, ◌++◌, Option, none,
  some, arith, ◌==◌, is_empty, any,
}
use sql_server_analyze.Codes.{ReasonCode}
use sql_server_analyze.Text.{Text, codes, contains, split, split_runs, strip, starts_with}
use sql_server_analyze.U64.{U64Result, number, failed, u64_max, parse_u64}
use sql_server_analyze.U64.Laws.{parse_u64_sound}
use sql_server_analyze.Metadata.Parsed.{ok, >>=-eq-ok, >>-eq-ok}
use sql_server_analyze.Metadata.Escape.{decode_mount_path}
use sql_server_analyze.Metadata.Mountinfo.{
  Mount, is_blank_char, cut_at_dash, both, device_parts, bad_optional, decoded, build_mount,
  behind_dash, from_fields, first_empty, parse_mountinfo_record,
}

-- The ids are positive u64, the device numbers are u64, the paths are absolute and without NUL, and no
-- option is empty.
pub record IsWellFormed (m : Mount) : Type 0 where
  pub mount_id_pos : 0 < m.mount_id
  pub parent_id_pos : 0 < m.parent_id
  pub mount_id_fits : m.mount_id ≤ u64_max
  pub parent_id_fits : m.parent_id ≤ u64_max
  pub major_fits : m.major ≤ u64_max
  pub minor_fits : m.minor ≤ u64_max
  pub root_absolute : starts_with (codes "/") m.root ≡ true
  pub mount_point_absolute : starts_with (codes "/") m.mount_point ≡ true
  pub root_plain : contains 0 m.root ≡ false
  pub mount_point_plain : contains 0 m.mount_point ≡ false
  pub mount_options_full : any is_empty m.mount_options ≡ false
  pub super_options_full : any is_empty m.super_options ≡ false

both-ok : (u v : U64Result) (a b : ℕ) → both u v ≡ ok (a, b) → (u ≡ number a) × (v ≡ number b)
both-ok (failed r) v a b e = cc
both-ok (number x) (failed r) a b e = cc
both-ok (number x) (number y) a b e = ground arith

any-append : (xs ys : List Text) → any is_empty (xs ++ ys) ≡ (any is_empty xs || any is_empty ys)
any-append [] ys = refl
any-append (x ∷ xs) ys = ground (arith, any-append xs ys)

-- The checks that are left when the parts have been read.
mount_checks :
    (m : Mount)
    → not ((m.mount_id == 0) || (m.parent_id == 0)) ≡ true
    → not (contains 0 m.root || contains 0 m.mount_point) ≡ true
    → (starts_with (codes "/") m.root && starts_with (codes "/") m.mount_point) ≡ true
    → not (any is_empty (m.mount_options ++ m.super_options)) ≡ true
    → m.mount_id ≤ u64_max
    → m.parent_id ≤ u64_max
    → m.major ≤ u64_max
    → m.minor ≤ u64_max
    → IsWellFormed m
mount_checks m ids plain absolute full f g x y =
    ground (arith, any-append m.mount_options m.super_options)

build_mount-IsWellFormed :
    (n : ℕ) (id parent device root point options : Text) (optional : List Text) (fs super : Text)
    (m : Mount)
    → build_mount n id parent device root point options optional fs super ≡ ok m
    → IsWellFormed m
unfolding build_mount
build_mount-IsWellFormed n id parent device root point options optional fs super m e =
    let ((a, b), ids, e1) = >>=-eq-ok (both (parse_u64 id) (parse_u64 parent)) _ e in
    let (pos, e2) = >>-eq-ok (not ((a == 0) || (b == 0))) ReasonCode.invalid_id _ e1 in
    let (parts, dev, e3) = >>=-eq-ok (device_parts (split b':' device)) _ e2 in
    let ((major, minor), majors, e4) =
      >>=-eq-ok (both (parse_u64 parts.0) (parse_u64 parts.1)) _ e3 in
    let (opt, e5) = >>-eq-ok (not (any bad_optional optional)) ReasonCode.malformed_record _ e4 in
    let (r, er, e6) = >>=-eq-ok (decoded (decode_mount_path root)) _ e5 in
    let (p, ep, e7) = >>=-eq-ok (decoded (decode_mount_path point)) _ e6 in
    let (plain, e8) = >>-eq-ok (not (contains 0 r || contains 0 p)) ReasonCode.invalid_path _ e7 in
    let (absolute, e9) =
      >>-eq-ok (starts_with (codes "/") r && starts_with (codes "/") p) ReasonCode.invalid_path _
        e8 in
    let (full, e10) =
      >>-eq-ok (not (any is_empty (split b',' options ++ split b',' super)))
        ReasonCode.malformed_record _ e9 in
    let (ea, eb) = both-ok (parse_u64 id) (parse_u64 parent) a b ids in
    let (ec, ed) = both-ok (parse_u64 parts.0) (parse_u64 parts.1) major minor majors in
    subst IsWellFormed (ok-injective _ m e10) (
      mount_checks _ pos plain absolute full (parse_u64_sound id a ea).2
        (parse_u64_sound parent b eb).2 (parse_u64_sound parts.0 major ec).2
        (parse_u64_sound parts.1 minor ed).2)
  where
    ok-injective : (x y : Mount) → ok x ≡ ok y → x ≡ y
    ok-injective x y h = cc

behind-IsWellFormed :
    (n : ℕ) (a b c d x f : Text) (cut : Option (List Text × List Text)) (m : Mount)
    → behind_dash n a b c d x f cut ≡ ok m
    → IsWellFormed m
behind-IsWellFormed n a b c d x f none m e = cc
behind-IsWellFormed n a b c d x f (some (os, [])) m e = cc
behind-IsWellFormed n a b c d x f (some (os, p ∷ [])) m e = cc
behind-IsWellFormed n a b c d x f (some (os, p ∷ q ∷ [])) m e = cc
behind-IsWellFormed n a b c d x f (some (os, p ∷ q ∷ r ∷ s ∷ t)) m e = cc
behind-IsWellFormed n a b c d x f (some (os, p ∷ q ∷ r ∷ [])) m e =
    build_mount-IsWellFormed n a b c d x f os p r m e

fields-IsWellFormed :
    (n : ℕ) (fs : List Text) (m : Mount) → from_fields n fs ≡ ok m → IsWellFormed m
fields-IsWellFormed n [] m e = cc
fields-IsWellFormed n (a ∷ []) m e = cc
fields-IsWellFormed n (a ∷ b ∷ []) m e = cc
fields-IsWellFormed n (a ∷ b ∷ c ∷ []) m e = cc
fields-IsWellFormed n (a ∷ b ∷ c ∷ d ∷ []) m e = cc
fields-IsWellFormed n (a ∷ b ∷ c ∷ d ∷ x ∷ []) m e = cc
fields-IsWellFormed n (a ∷ b ∷ c ∷ d ∷ x ∷ f ∷ rest) m e =
    behind-IsWellFormed n a b c d x f (cut_at_dash rest) m e

-- Every mount that the record parser returns is well formed: its ids are positive, its ids and
-- device numbers have 64 bits at most, its root and mount point are absolute paths without NUL,
-- and none of its options is empty.
pub parse_mountinfo_record-IsWellFormed :
    (line : Text) (n : ℕ) (m : Mount) → parse_mountinfo_record line n ≡ ok m → IsWellFormed m
unfolding parse_mountinfo_record
parse_mountinfo_record-IsWellFormed line n m e =
    let (no_nul, e1) = >>-eq-ok (not (contains 0 line)) ReasonCode.invalid_token _ e in
    let fields = split_runs is_blank_char (strip is_blank_char line) in
    let (some_field, e2) = >>-eq-ok (not (first_empty fields)) ReasonCode.malformed_record _ e1 in
    fields-IsWellFormed n fields m e2
