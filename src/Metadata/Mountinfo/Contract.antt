-- ===== src/Metadata/Mountinfo/Contract.antt =====
-- The contract of `parse_cgroup2_mountinfo`.
use sql_server_analyze.Common.{
  ℕ, ◌≡◌, ◌↔◌, refl, ap, ◌∙◌, List, [], ◌∷◌, Option, none, some, length, select,
}
use sql_server_analyze.Codes.{ParseState, ReasonCode}
use sql_server_analyze.Text.{Text}
use sql_server_analyze.U64.{to_decimal}
use sql_server_analyze.Metadata.Input.{
  IsBounded, input_problem, input_problem-none_iff, input_problem-ne-valid, lines,
}
use sql_server_analyze.Metadata.Parsed.{Parsed, ok, reject}
use sql_server_analyze.Metadata.Mountinfo.{
  Mount, parse_mountinfo_record, Loop, keep, read_mounts, group, duplicate_lines, MountinfoResult,
  is_cgroup2, mounts_result, without_duplicates, conclude, checked, parse_cgroup2_mountinfo,
}
use sql_server_analyze.Metadata.Mountinfo.Distinct.{DistinctIds, duplicate_lines-nil_iff}

-- Every line is accepted, as the mount beside it.
abbrev pub Reads : List (ℕ × Text) → List Mount → Type 0
Reads [] [] = Unit
Reads [] (m ∷ ms) = ⊥
Reads (l ∷ ls) [] = ⊥
Reads ((o, line) ∷ ls) (m ∷ ms) = (parse_mountinfo_record line o ≡ ok m) × Reads ls ms

-- A short text whose lines are all accepted, with distinct mount ids.
pub record IsMountinfo (raw : Text) (ms : List Mount) : Type 0 where
  pub bounded : IsBounded raw
  pub read : Reads (lines raw) ms
  pub distinct : DistinctIds ms

abbrev all_read : List Mount → Loop
all_read ms = record { records = ms; malformed = [] }

Reads-read : (ls : List (ℕ × Text)) (ms : List Mount) → Reads ls ms → read_mounts ls ≡ all_read ms
unfolding read_mounts
Reads-read [] [] _ = refl
Reads-read [] (m ∷ ms) h = absurd h
Reads-read (l ∷ ls) [] h = absurd h
Reads-read ((o, line) ∷ ls) (m ∷ ms) (e, h) = rw e (ap (keep o (ok m)) (Reads-read ls ms h))

read-Reads : (ls : List (ℕ × Text)) (ms : List Mount) → read_mounts ls ≡ all_read ms → Reads ls ms
unfolding read_mounts
read-Reads [] [] e = tt
read-Reads [] (m ∷ ms) e = cc (ap (λ (l : Loop). l.records) e)
read-Reads ((o, line) ∷ ls) ms e = go (parse_mountinfo_record line o) refl ms e (read-Reads ls)
  where
    go :
        (p : Parsed Mount)
        → parse_mountinfo_record line o ≡ p
        → (ms : List Mount) → keep o p (read_mounts ls) ≡ all_read ms
        → ((ms : List Mount) → read_mounts ls ≡ all_read ms → Reads ls ms)
        → Reads ((o, line) ∷ ls) ms
    go (reject r) ep ms f ih = cc (ap (λ (l : Loop). l.malformed) f)
    go (ok m) ep [] f ih = cc (ap (λ (l : Loop). l.records) f)
    go (ok m) ep (x ∷ xs) f ih =
        let h1 = ap (λ (l : Loop). l.records) f in
        let h2 = ap (λ (l : Loop). l.malformed) f in
        let (a, b) = heads m x (read_mounts ls).records xs h1 in
        (ep ∙ ap (λ (y : Mount). ok y) a, ih xs (λ i. record { records = b i; malformed = h2 i }))
      where
        heads : (m x : Mount) (ys xs : List Mount) → m ∷ ys ≡ x ∷ xs → (m ≡ x) × (ys ≡ xs)
        heads m x ys xs h = (cc, cc)

conclude-valid :
    (records : List Mount) (malformed : List (ℕ × ReasonCode))
    → (conclude records malformed).parse_state ≡ ParseState.valid
    → (malformed ≡ []) × (duplicate_lines (group [] records) ≡ [])
conclude-valid records ((o, r) ∷ ms) e = cc
conclude-valid records [] e = (refl, go (duplicate_lines (group [] records)) e)
  where
    go :
        (ds : List Text)
        → (without_duplicates (to_decimal (length records)) records ds).parse_state
          ≡ ParseState.valid
        → ds ≡ []
    go [] f = refl
    go (d ∷ ds) f = cc

mounts_result-valid :
    (count : Text) (ms : List Mount)
    → ((mounts_result count ms).parse_state ≡ ParseState.valid)
      × ((mounts_result count ms).mounts ≡ some ms)
mounts_result-valid count [] = (refl, refl)
mounts_result-valid count (m ∷ ms) = (refl, refl)

-- The result lists the mounts of type cgroup2, in the order of their lines.
pub record IsCgroup2Listing (raw : Text) (x : MountinfoResult) : Type 0 where
  pub records : List Mount
  pub source : IsMountinfo raw records
  pub listed : x.mounts ≡ some (select is_cgroup2 records)

checked-valid :
    (raw : Text) (q : Option (ParseState × ReasonCode))
    → input_problem raw ≡ q
    → (checked raw q).parse_state ≡ ParseState.valid
    → IsCgroup2Listing raw (checked raw q)
checked-valid raw (some (p, r)) h e = absurd (input_problem-ne-valid raw p r h e)
checked-valid raw none h e =
    let ms = (read_mounts (lines raw)).records in
    let (no_bad, no_dups) = conclude-valid ms (read_mounts (lines raw)).malformed e in
    record {
      records = ms;
      source = record {
        bounded = (input_problem-none_iff raw).0 h;
        read = read-Reads (lines raw) ms (λ i. record { records = ms; malformed = no_bad i });
        distinct = (duplicate_lines-nil_iff ms).0 no_dups;
      };
      listed = rw (no_bad, no_dups) ((mounts_result-valid _ (select is_cgroup2 ms)).1);
    }

-- A valid result comes from a short text whose lines are all accepted, with distinct mount ids, and
-- lists exactly the cgroup2 mounts among them, in their order.
pub mountinfo_IsCgroup2Listing :
    (raw : Text)
    → (parse_cgroup2_mountinfo raw).parse_state ≡ ParseState.valid
    → IsCgroup2Listing raw (parse_cgroup2_mountinfo raw)
unfolding parse_cgroup2_mountinfo
mountinfo_IsCgroup2Listing raw = checked-valid raw (input_problem raw) refl

-- A mountinfo file is valid exactly when it can be encoded and is short (its encoding has at most
-- 512 KiB), every line is accepted, and no two records have one mount id.
pub parse_cgroup2_mountinfo-valid_iff :
    (raw : Text)
    → ((parse_cgroup2_mountinfo raw).parse_state ≡ ParseState.valid)
      ↔ ((ms : List Mount) × IsMountinfo raw ms)
parse_cgroup2_mountinfo-valid_iff raw = (
  (λ e. let x = mountinfo_IsCgroup2Listing raw e in (x.records, x.source)),
  (λ (ms, h).
      unfold parse_cgroup2_mountinfo in
      rw
        (
          (input_problem-none_iff raw).1 h.bounded,
          Reads-read (lines raw) ms h.read,
          (duplicate_lines-nil_iff ms).1 h.distinct,
        )
        ((mounts_result-valid _ (select is_cgroup2 ms)).0)),
)
