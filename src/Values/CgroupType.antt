-- ===== src/Values/CgroupType.antt =====
-- `parse_cgroup_type` of Code/Tools/Linux_Cgroup_Values.py: the kind of a cgroup, as observed.
use sql_server_analyze.Common.{
  ◌≡◌, ◌↔◌, inl, inr, refl, false, List, [], ◌∷◌, Option, none, some, if◌then◌else◌, Bool-cases,
  is_empty,
}
use sql_server_analyze.Codes.{ParseState, ReasonCode}
use sql_server_analyze.Text.{
  Text, codes, text_eq, text_eq→eq, contains, member, strip, is_outer_space,
}
use sql_server_analyze.Values.Input.{
  input_problem, IsBounded, input_problem-none, input_problem-IsBounded,
}

-- `layout_state`
pub data LayoutState : Type 0 where
  unverified supported_domain unsupported_layout : LayoutState

pub record TypeResult : Type 0 where
  pub raw_value : Text
  pub parse_state : ParseState
  pub reason_code : ReasonCode
  pub observed_type : Option Text
  pub layout_state : LayoutState

abbrev pub unverified_result : Text → ParseState → ReasonCode → TypeResult
unverified_result raw state reason = record {
  raw_value = raw;
  parse_state = state;
  reason_code = reason;
  observed_type = none;
  layout_state = LayoutState.unverified;
}

abbrev pub domain : Text
domain = codes "domain"

abbrev pub unsupported_types : List Text
unsupported_types =
    codes "threaded"
    ∷ codes "domain threaded"
    ∷ codes "domain invalid"
    ∷ codes "domain (invalid)"
    ∷ []

-- The classification of the stripped text.
abbrev pub classify : Text → Text → TypeResult
classify raw observed =
    if text_eq observed domain
    then record (unverified_result raw ParseState.valid ReasonCode.supported_domain) {
      observed_type = some observed;
      layout_state = LayoutState.supported_domain;
    }
    else if member observed unsupported_types
    then record (unverified_result raw ParseState.unsupported_layout
        ReasonCode.unsupported_layout) {
          observed_type = some observed;
          layout_state = LayoutState.unsupported_layout;
        }
    else record (unverified_result raw ParseState.type_unverified ReasonCode.type_unverified) {
      observed_type = if is_empty observed then none else some observed;
    }

abbrev pub checked : Text → Option (ParseState × ReasonCode) → TypeResult
checked raw (some (state, reason)) = unverified_result raw state reason
checked raw none =
    if contains 0 raw
    then unverified_result raw ParseState.invalid_value ReasonCode.invalid_token
    else classify raw (strip is_outer_space raw)

unfoldable pub parse_cgroup_type : Text → TypeResult
parse_cgroup_type raw = checked raw (input_problem raw)

-- The texts of a cgroup that the reader supports.
pub record IsDomain (raw : Text) : Type 0 where
  pub bounded : IsBounded raw
  pub no_nul : contains 0 raw ≡ false
  pub word : strip is_outer_space raw ≡ domain

layout : TypeResult → LayoutState
layout r = r.layout_state

classify-domain :
    (raw t : Text) → layout (classify raw t) ≡ LayoutState.supported_domain → t ≡ domain
unfolding layout
classify-domain raw t e = elim (Bool-cases (text_eq t domain)) [
  | inl d ↦ text_eq→eq t domain d
  | inr d ↦ elim (Bool-cases (member t unsupported_types)) [
    | inl m ↦ cc (rw (d, m) at e)
    | inr m ↦ cc (rw (d, m) at e)
  ]
]

checked-IsDomain :
    (raw : Text) (q : Option (ParseState × ReasonCode))
    → input_problem raw ≡ q
    → layout (checked raw q) ≡ LayoutState.supported_domain
    → IsDomain raw
unfolding layout
checked-IsDomain raw (some (p, r)) q e = cc
checked-IsDomain raw none q e = elim (Bool-cases (contains 0 raw)) [
  | inl n ↦ cc (rw n at e)
  | inr n ↦ record {
    bounded = input_problem-IsBounded raw q;
    no_nul = n;
    word = classify-domain raw (strip is_outer_space raw) (rw n at e);
  }
]

-- The layout is supported exactly on the word `domain` between white space, in a short text
-- that can be encoded and has no NUL.
pub cgroup_type_supported_iff :
    (raw : Text)
    → ((parse_cgroup_type raw).layout_state ≡ LayoutState.supported_domain) ↔ IsDomain raw
unfolding parse_cgroup_type
cgroup_type_supported_iff raw = (
  (λ e. checked-IsDomain raw (input_problem raw) refl (unfold layout in e)),
  (λ d. rw (input_problem-none raw d.bounded, d.no_nul, d.word) refl),
)
