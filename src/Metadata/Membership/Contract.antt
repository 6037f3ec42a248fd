-- ===== src/Metadata/Membership/Contract.antt =====
-- The contract of `parse_v2_membership`: when a membership is found, and that its path is safe.
use sql_server_analyze.Common.{
  ℕ, ◌≡◌, ◌↔◌, inl, inr, refl, sym, ap, ◌∙◌, subst, not, Bool, true, false, List, [], ◌∷◌, Option,
  none, some, arith, ◌==◌, Bool-cases, &&_left, ==→eq, is_empty, select, All, Some,
}
use sql_server_analyze.Codes.{ParseState, ReasonCode}
use sql_server_analyze.Text.{Text, codes, starts_with}
use sql_server_analyze.U64.{to_decimal}
use sql_server_analyze.Metadata.Input.{
  IsBounded, input_problem, input_problem-none_iff, input_problem-ne-valid, lines,
}
use sql_server_analyze.Metadata.Parsed.{Parsed, ok, reject}
use sql_server_analyze.Metadata.Membership.{
  MembershipResult, MembershipRecord, has_dot_component, parse_membership_record, Loop, keep,
  read_lines, is_v2, v2_result, classify, conclude, checked, parse_v2_membership,
}
use sql_server_analyze.Metadata.Membership.Records.{IsRecordOf, parse_membership_record-IsRecordOf}

abbrev pub AllBlank : List (ℕ × Text) → Type 0
AllBlank = All (λ l. is_empty l.1 ≡ true)

-- One line is not blank; it has the ordinal, and is accepted as the record.
pub data OnlyLine : List (ℕ × Text) → ℕ → MembershipRecord → Type 0 where
  here :
      {o : ℕ} {line : Text} {ls : List (ℕ × Text)} {r : MembershipRecord}
      → is_empty line ≡ false
      → parse_membership_record line ≡ ok r
      → AllBlank ls
      → OnlyLine ((o, line) ∷ ls) o r
  below :
      {n o : ℕ} {line : Text} {ls : List (ℕ × Text)} {r : MembershipRecord}
      → is_empty line ≡ true
      → OnlyLine ls o r
      → OnlyLine ((n, line) ∷ ls) o r

abbrev one : ℕ → MembershipRecord → Loop
one o r = record { records = (o, r) ∷ []; malformed = [] }

abbrev nothing_read : Loop
nothing_read = record { records = []; malformed = [] }

read-AllBlank : (ls : List (ℕ × Text)) → AllBlank ls → read_lines ls ≡ nothing_read
unfolding read_lines
read-AllBlank [] _ = refl
read-AllBlank ((o, line) ∷ ls) (b, bs) = rw b (read-AllBlank ls bs)

read-OnlyLine :
    {ls : List (ℕ × Text)} {o : ℕ} {r : MembershipRecord}
    → OnlyLine ls o r
    → read_lines ls ≡ one o r
unfolding read_lines
read-OnlyLine (here {o = o} {ls = ls} n e b) = rw (n, e) (ap (keep o (ok _)) (read-AllBlank ls b))
read-OnlyLine (below b rest) = rw b (read-OnlyLine rest)

keep-nothing :
    (o : ℕ) (p : Parsed MembershipRecord) (rest : Loop) → keep o p rest ≡ nothing_read → ⊥
keep-nothing o (ok r) rest e = cc (ap (λ (l : Loop). l.records) e)
keep-nothing o (reject r) rest e = cc (ap (λ (l : Loop). l.malformed) e)

AllBlank-read : (ls : List (ℕ × Text)) → read_lines ls ≡ nothing_read → AllBlank ls
unfolding read_lines
AllBlank-read [] _ = tt
AllBlank-read ((o, line) ∷ ls) e = elim (Bool-cases (is_empty line)) [
  | inl b ↦ (b, AllBlank-read ls (rw b at e))
  | inr b ↦ absurd (keep-nothing o (parse_membership_record line) (read_lines ls) (rw b at e))
]

keep-one :
    (n o : ℕ) (p : Parsed MembershipRecord) (rest : Loop) (r : MembershipRecord)
    → keep n p rest ≡ one o r
    → (n ≡ o) × (p ≡ ok r) × (rest ≡ nothing_read)
keep-one n o (ok s) rest r e =
    let h1 = ap (λ (l : Loop). l.records) e in
    let h2 = ap (λ (l : Loop). l.malformed) e in
    let (a, b, c) = single n o s r rest.records h1 in
    (a, ap (λ (x : MembershipRecord). ok x) b, λ i. record { records = c i; malformed = h2 i })
  where
    single :
        (x y : ℕ) (a b : MembershipRecord) (l : List (ℕ × MembershipRecord))
        → (x, a) ∷ l ≡ (y, b) ∷ []
        → (x ≡ y) × (a ≡ b) × (l ≡ [])
    single x y a b l h = ground arith
keep-one n o (reject s) rest r e = cc (ap (λ (l : Loop). l.malformed) e)

OnlyLine-read :
    (ls : List (ℕ × Text)) (o : ℕ) (r : MembershipRecord)
    → read_lines ls ≡ one o r
    → OnlyLine ls o r
unfolding read_lines
OnlyLine-read [] o r e = cc (ap (λ (l : Loop). l.records) e)
OnlyLine-read ((n, line) ∷ ls) o r e = elim (Bool-cases (is_empty line)) [
  | inl b ↦ below b (OnlyLine-read ls o r (rw b at e))
  | inr b ↦
      let (en, ep, er) =
        keep-one n o (parse_membership_record line) (read_lines ls) r (rw b at e) in
      subst (λ k. OnlyLine ((n, line) ∷ ls) k r) en (here b ep (AllBlank-read ls er))
]

select_all {ℓ} :
    {A : Type ℓ} (p : A → Bool) (xs : List A) → select (λ x. not (p x)) xs ≡ [] → select p xs ≡ xs
select_all p [] e = refl
select_all p (x ∷ xs) e = ground (arith, select_all p xs)

-- A text with one record in it, of the unified hierarchy, that is not deleted.
pub record IsV2Only (raw : Text) (ordinal : ℕ) (r : MembershipRecord) : Type 0 where
  pub bounded : IsBounded raw
  pub only : OnlyLine (lines raw) ordinal r
  pub v2 : is_v2 (ordinal, r) ≡ true
  pub kept : r.deleted ≡ false

abbrev pub membership_found : ℕ → MembershipRecord → MembershipResult
membership_found ordinal r = v2_result (to_decimal 1) (ordinal, r)

-- Only one record, of the unified hierarchy and not deleted, makes the result valid.
classify-valid :
    (count : Text) (v2 legacy : List (ℕ × MembershipRecord))
    → (classify count v2 legacy).parse_state ≡ ParseState.valid
    → (a : ℕ × MembershipRecord) × (v2 ≡ a ∷ []) × (legacy ≡ []) × (a.1.deleted ≡ false)
classify-valid count (a ∷ b ∷ v2) legacy e = cc
classify-valid count (a ∷ []) (l ∷ legacy) e = cc
classify-valid count [] (l ∷ legacy) e = cc
classify-valid count [] [] e = cc
classify-valid count ((o, r) ∷ []) [] e = elim (Bool-cases r.deleted) [
  | inl d ↦ cc (rw d at e)
  | inr d ↦ ((o, r), refl, refl, d)
]

selected_v2 :
    (a : ℕ × MembershipRecord) → select (λ r. not (is_v2 r)) (a ∷ []) ≡ [] → is_v2 a ≡ true
selected_v2 a h = elim (Bool-cases (is_v2 a)) [ inl t ↦ t | inr t ↦ cc (rw t at h) ]

conclude-valid :
    (records : List (ℕ × MembershipRecord)) (malformed : List (ℕ × ReasonCode))
    → (conclude records malformed).parse_state ≡ ParseState.valid
    → (a : ℕ × MembershipRecord) × (records ≡ a ∷ [])
      × (malformed ≡ [])
      × (is_v2 a ≡ true)
      × (a.1.deleted ≡ false)
conclude-valid records ((o, reason) ∷ m) e = cc
conclude-valid records [] e =
    let (a, one_v2, no_legacy, kept) =
      classify-valid _ (select is_v2 records) (select (λ r. not (is_v2 r)) records) e in
    let whole = sym (select_all is_v2 records no_legacy) ∙ one_v2 in
    (
      a,
      whole,
      refl,
      selected_v2 a (subst (λ l. select (λ r. not (is_v2 r)) l ≡ []) whole no_legacy),
      kept,
    )

checked-valid :
    (raw : Text) (q : Option (ParseState × ReasonCode))
    → input_problem raw ≡ q
    → (checked raw q).parse_state ≡ ParseState.valid
    → (o : ℕ) × (r : MembershipRecord) × IsV2Only raw o r
checked-valid raw (some (p, reason)) h e = absurd (input_problem-ne-valid raw p reason h e)
checked-valid raw none h e =
    let l = read_lines (lines raw) in
    let ((o, r), records, malformed, v2, kept) = conclude-valid l.records l.malformed e in
    (
      o,
      r,
      record {
        bounded = (input_problem-none_iff raw).0 h;
        only =
            OnlyLine-read (lines raw) o r
              (λ i. record { records = records i; malformed = malformed i });
        v2 = v2;
        kept = kept;
      },
    )

-- A membership file is valid exactly when it can be encoded and is short (its encoding has at
-- most 512 KiB), one line of it and no more is not blank, and that line is accepted as a record
-- with id 0 and no controllers that is not deleted.
pub membership_valid_iff :
    (raw : Text)
    → ((parse_v2_membership raw).parse_state ≡ ParseState.valid)
      ↔ ((o : ℕ) × (r : MembershipRecord) × IsV2Only raw o r)
unfolding parse_v2_membership
membership_valid_iff raw = (checked-valid raw (input_problem raw) refl, complete)
  where
    complete :
        (o : ℕ) × (r : MembershipRecord) × IsV2Only raw o r
        → (checked raw (input_problem raw)).parse_state ≡ ParseState.valid
    complete (o, r, h) =
        rw ((input_problem-none_iff raw).1 h.bounded, read-OnlyLine h.only, h.v2, h.kept) refl

only_record :
    {ls : List (ℕ × Text)} {o : ℕ} {r : MembershipRecord}
    → OnlyLine ls o r
    → (line : Text) × (parse_membership_record line ≡ ok r)
      × Some (λ l. l.1 ≡ line) ls
      × (is_empty line ≡ false)
only_record (here {line = line} n e b) = (line, e, inl refl, n)
only_record (below b rest) = let (line, e, listed, n) = only_record rest in (line, e, inr listed, n)

found :
    (raw : Text) (o : ℕ) (r : MembershipRecord)
    → IsV2Only raw o r
    → parse_v2_membership raw ≡ membership_found o r
unfolding parse_v2_membership
found raw o r h = rw ((input_problem-none_iff raw).1 h.bounded, read-OnlyLine h.only, h.v2) refl

-- What a valid result gives for a text: the path of an accepted line of the text, absolute and without
-- dot components.
pub record IsSafeMembership (raw : Text) (x : MembershipResult) : Type 0 where
  pub line : Text
  pub of_text : Some (λ l. l.1 ≡ line) (lines raw)
  pub not_blank : is_empty line ≡ false
  pub membership : MembershipRecord
  pub from_line : IsRecordOf line membership
  pub path_field : x.membership_path ≡ some membership.path
  pub v2_hierarchy : x.hierarchy_id ≡ some (to_decimal 0)
  pub absolute : starts_with (codes "/") membership.path ≡ true
  pub no_dots : has_dot_component membership.path ≡ false

-- The path of a valid membership is that of a line of the text that is not blank, absolute and
-- without a `.` or `..` component, and belongs to hierarchy 0.
pub membership_IsSafe :
    (raw : Text)
    → (parse_v2_membership raw).parse_state ≡ ParseState.valid
    → IsSafeMembership raw (parse_v2_membership raw)
membership_IsSafe raw e =
    let (o, r, h) = (membership_valid_iff raw).0 e in
    let (line, ok_line, listed, full) = only_record h.only in
    let from = parse_membership_record-IsRecordOf line r ok_line in
    let same = found raw o r h in
    record {
      line = line;
      of_text = listed;
      not_blank = full;
      membership = r;
      from_line = from;
      path_field = ap (λ (x : MembershipResult). x.membership_path) same ∙ (rw h.kept refl);
      v2_hierarchy =
          ap (λ (x : MembershipResult). x.hierarchy_id) same
          ∙ (rw h.kept (
              ap (λ (n : ℕ). some (to_decimal n))
                (==→eq r.hierarchy_id 0
                  (&&_left (r.hierarchy_id == 0) (is_empty r.controllers) h.v2))));
      absolute = ap (starts_with (codes "/")) from.built.same_path ∙ from.built.absolute;
      no_dots = ap has_dot_component from.built.same_path ∙ from.built.no_dots;
    }
