-- ===== src/Metadata/Membership/Records.antt =====
-- What `_parse_membership_record` accepts: where the parts of a record stand in its line.
use sql_server_analyze.Common.{
  ℕ, ◌≡◌, inl, inr, refl, sym, ap, ◌∙◌, ◌||◌, not, Bool, true, false, List, [], ◌∷◌, ◌++◌, Option,
  none, some, arith, ◌==◌, Bool-cases, ==→eq, is_empty, all,
}
use sql_server_analyze.Codes.{ReasonCode}
use sql_server_analyze.Text.{Text, codes, contains, starts_with, ends_with}
use sql_server_analyze.U64.{U64Result, number, failed, parse_u64}
use sql_server_analyze.Metadata.Parsed.{ok, from_u64, >>=-eq-ok, >>-eq-ok}
use sql_server_analyze.Metadata.Membership.{
  cut_at, in_front, parsed_cut, cut_or_malformed, is_controller, has_dot_component,
  MembershipRecord, controllers_of, build_record, parse_membership_record,
}

some_pair :
    (x y a b : Text)
    → ◌≡◌ {A = Option (Text × Text)} (some (x, y)) (some (a, b))
    → (x ≡ a) × (y ≡ b)
some_pair x y a b e = (cc, cc)

-- The cut is at the separator, and none stands before it.
pub cut_at_sound :
    (sep : ℕ) (s a b : Text)
    → cut_at sep s ≡ some (a, b)
    → (s ≡ a ++ sep ∷ b) × (contains sep a ≡ false)
unfolding cut_at
cut_at_sound sep [] a b e = cc
cut_at_sound sep (c ∷ s) a b e = elim (Bool-cases (c == sep)) [
  | inl t ↦
      let (ea, eb) = some_pair [] s a b (rw t at e) in
      rw (← ea, ← eb) (ap (λ (d : ℕ). d ∷ s) (==→eq c sep t), refl)
  | inr t ↦ go (cut_at sep s) refl t (rw t at e) (cut_at_sound sep s)
]
  where
    go :
        (m : Option (Text × Text))
        → cut_at sep s ≡ m
        → (c == sep) ≡ false
        → in_front c m ≡ some (a, b)
        → ((a' b' : Text)
            → cut_at sep s ≡ some (a', b')
            → (s ≡ a' ++ sep ∷ b') × (contains sep a' ≡ false))
        → (c ∷ s ≡ a ++ sep ∷ b) × (contains sep a ≡ false)
    go none em t f ih = cc
    go (some (x, y)) em t f ih =
        let (p, q) = ih x y em in
        let (ea, eb) = some_pair (c ∷ x) y a b f in
        rw (← ea, ← eb) (ap (λ (u : Text). c ∷ u) p, rw t q)

pub cut_at-append :
    (sep : ℕ) (a b : Text) → contains sep a ≡ false → cut_at sep (a ++ sep ∷ b) ≡ some (a, b)
unfolding cut_at
cut_at-append sep [] b h = ground arith
cut_at-append sep (c ∷ a) b h = ground (arith, cut_at-append sep a b)

-- The parts of an accepted line.
pub record IsBuiltFrom (hierarchy_text controllers_text path : Text) (r : MembershipRecord)
    : Type 0 where
  pub hierarchy : parse_u64 hierarchy_text ≡ number r.hierarchy_id
  pub known : all is_controller (controllers_of controllers_text) ≡ true
  pub v2_or_named :
      (not (is_empty (controllers_of controllers_text)) || (r.hierarchy_id == 0)) ≡ true
  pub absolute : starts_with (codes "/") path ≡ true
  pub no_dots : has_dot_component path ≡ false
  pub controllers : r.controllers ≡ controllers_of controllers_text
  pub same_path : r.path ≡ path
  pub deletion : r.deleted ≡ ends_with (codes " (deleted)") path

-- The line is `id:controllers:path`, the first two parts without a colon.
pub record IsRecordOf (line : Text) (r : MembershipRecord) : Type 0 where
  pub no_nul : contains 0 line ≡ false
  pub hierarchy_text : Text
  pub controllers_text : Text
  pub path_text : Text
  pub shape : line ≡ hierarchy_text ++ b':' ∷ (controllers_text ++ b':' ∷ path_text)
  pub hierarchy_plain : contains b':' hierarchy_text ≡ false
  pub controllers_plain : contains b':' controllers_text ≡ false
  pub built : IsBuiltFrom hierarchy_text controllers_text path_text r

parsed_cut-some : (m : Option (Text × Text)) (p : Text × Text) → parsed_cut m ≡ ok p → m ≡ some p
parsed_cut-some none p e = cc
parsed_cut-some (some q) p e = cc

not-true : (b : Bool) → not b ≡ true → b ≡ false
not-true b h = ground arith

parse_u64-from : (s : Text) (n : ℕ) → from_u64 (parse_u64 s) ≡ ok n → parse_u64 s ≡ number n
parse_u64-from s n e = go (parse_u64 s) e
  where
    go : (v : U64Result) → from_u64 v ≡ ok n → v ≡ number n
    go (number m) f = cc
    go (failed r) f = cc

record_fields :
    (n : ℕ) (cs : List Text) (p : Text) (d : Bool) (r : MembershipRecord)
    → ok (record { hierarchy_id = n; controllers = cs; path = p; deleted = d }) ≡ ok r
    → (n ≡ r.hierarchy_id) × (r.controllers ≡ cs) × (r.path ≡ p) × (r.deleted ≡ d)
record_fields n cs p d r e = ground arith

build_record-IsBuiltFrom :
    (a c path : Text) (r : MembershipRecord) → build_record a c path ≡ ok r → IsBuiltFrom a c path r
unfolding build_record
build_record-IsBuiltFrom a c path r e =
    let (n, id, e1) = >>=-eq-ok (from_u64 (parse_u64 a)) _ e in
    let (known, e2) =
      >>-eq-ok (all is_controller (controllers_of c)) ReasonCode.malformed_record _ e1 in
    let (named, e3) =
      >>-eq-ok (not (is_empty (controllers_of c)) || (n == 0)) ReasonCode.malformed_record _ e2 in
    let (absolute, e4) = >>-eq-ok (starts_with (codes "/") path) ReasonCode.invalid_path _ e3 in
    let (no_dots, e5) = >>-eq-ok (not (has_dot_component path)) ReasonCode.invalid_path _ e4 in
    let (en, ec, ep, ed) = record_fields n _ path _ r e5 in
    record {
      hierarchy = parse_u64-from a n id ∙ ap number en;
      known = known;
      v2_or_named = ap (λ (m : ℕ). not (is_empty (controllers_of c)) || (m == 0)) (sym en) ∙ named;
      absolute = absolute;
      no_dots = not-true (has_dot_component path) no_dots;
      controllers = ec;
      same_path = ep;
      deletion = ed;
    }

-- An accepted line has the shape `id:controllers:path`, and the record holds its parts.
pub parse_membership_record-IsRecordOf :
    (line : Text) (r : MembershipRecord) → parse_membership_record line ≡ ok r → IsRecordOf line r
unfolding parse_membership_record
parse_membership_record-IsRecordOf line r e =
    let (no_nul, e1) = >>-eq-ok (not (contains 0 line)) ReasonCode.invalid_token _ e in
    let ((a, behind), cut1, e2) = >>=-eq-ok (cut_or_malformed b':' line) _ e1 in
    let (some_id, e3) = >>-eq-ok (not (is_empty a)) ReasonCode.malformed_record _ e2 in
    let ((c, path), cut2, e4) = >>=-eq-ok (cut_or_malformed b':' behind) _ e3 in
    let (shape1, plain1) = cut_at_sound b':' line a behind (parsed_cut-some _ _ cut1) in
    let (shape2, plain2) = cut_at_sound b':' behind c path (parsed_cut-some _ _ cut2) in
    record {
      no_nul = not-true (contains 0 line) no_nul;
      hierarchy_text = a;
      controllers_text = c;
      path_text = path;
      shape = shape1 ∙ ap (λ (u : Text). a ++ b':' ∷ u) shape2;
      hierarchy_plain = plain1;
      controllers_plain = plain2;
      built = build_record-IsBuiltFrom a c path r e4;
    }
