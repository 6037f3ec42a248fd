-- ===== src/Efficiency/Session.antt =====
-- `SessionContext`: the analyses that a session holds.
pub mod Laws
pub mod Acknowledge
use sql_server_analyze.Common.{
  ℕ, zero, suc, ◌+◌, ◌-◌, ◌*◌, ◌/◌, ◌%◌, ◌^◌, ◌≤◌, ◌<◌, min, max, String, ◌≡◌, ◌≢◌, ◌↔◌, ◌⊎◌, inl,
  inr, refl, sym, ap, ◌∙◌, subst, ◌&&◌, ◌||◌, not, Bool, true, false, List, [], ◌∷◌, ◌++◌, map,
  reverse, append-nil, append_assoc, Option, none, some, arith, ◌==◌, ltb, leb, if◌then◌else◌,
  Bool-cases, &&_left, &&_right, ==→eq, ==_refl, pos→nonzero, nonzero→pos, ltb→lt, lt→ltb, leb→le,
  le→leb, length, length-append, get_elem?, take, drop, is_empty, any, all, select, All, Some,
  All-append, Some-append, Some-reverse, All-reverse, ⊎-map, ⊎-map_left, ⊎-comm, ⊎-assoc, ⊎-unassoc,
  ⊎-rotate,
}
use sql_server_analyze.Text.{Text, codes, text_eq, member}
use sql_server_analyze.RuleCache.Texts.{sorted_set}

-- What `capture_context` returns; the keys are those of a `dict`.
pub record Context : Type 0 where
  pub discovery_complete : Bool
  pub analysis_keys : List (Text × Text)

pub data SessionStatus : Type 0 where
  reuse_all partial read_all : SessionStatus

pub record SessionPlan : Type 0 where
  pub status : SessionStatus
  pub reuse : List Text
  pub reread : List Text
  pub reason : Text

pub data SessionError : Type 0 where
  value_error key_error : SessionError

-- `keys.get(source)`, for a `dict` with a value of any type.
unfoldable pub value_at {ℓ} : {A : Type ℓ} → Text → List (Text × A) → Option A
value_at k [] = none
value_at k ((x, a) ∷ items) = let rest = value_at k items in if text_eq x k then some a else rest

abbrev pub held {ℓ} : {A : Type ℓ} → Option A → Bool
held none = false
held (some a) = true

abbrev pub first_of : Text × Text → Text
first_of (p, k) = p

abbrev pub sources_of : Context → List Text
sources_of c = map first_of c.analysis_keys

module _ {A : Type 0} where
  -- `p for p, k in keys.items() if discovery_complete and k in available`
  abbrev pub available_paths : Bool → List (Text × A) → List (Text × Text) → List Text
  available_paths complete available [] = []
  available_paths complete available ((p, k) ∷ keys) =
      let rest = available_paths complete available keys in
      if complete && held (value_at k available) then p ∷ rest else rest

  -- `check`
  unfoldable pub check : List (Text × A) → Context → SessionPlan
  unfolding value_at
  check available snapshot =
      let reuse =
        sorted_set (available_paths snapshot.discovery_complete available snapshot.analysis_keys) in
      let reread = sorted_set (select (λ p. not (member p reuse)) (sources_of snapshot)) in
      record {
        status =
            if is_empty reread
            then SessionStatus.reuse_all
            else if is_empty reuse
            then SessionStatus.read_all
            else SessionStatus.partial;
        reuse = reuse;
        reread = reread;
        reason =
            if not snapshot.discovery_complete
            then codes "DISCOVERY_INCOMPLETE"
            else if is_empty reread
            then codes "ANALYSIS_AVAILABLE"
            else codes "ANALYSIS_REQUIRED";
      }

  -- The loop of `acknowledge`; a source without a key ends it, with what it stored before.
  unfoldable pub retain :
      List (Text × Text) → List (Text × A) → List (Text × A) → List (Text × A) × Option SessionError
  unfolding value_at
  retain keys available [] = (available, none)
  retain keys available ((source, analysis) ∷ analyses) = elim (value_at source keys) [
    | none ↦ (available, some SessionError.key_error)
    | some k ↦ retain keys ((k, analysis) ∷ available) analyses
  ]

  -- The analyses, where none is missing.
  unfoldable pub present_analyses : List (Text × Option A) → Option (List (Text × A))
  present_analyses [] = some []
  present_analyses ((source, none) ∷ analyses) = none
  present_analyses ((source, some a) ∷ analyses) = elim (present_analyses analyses) [
    | none ↦ none
    | some rest ↦ some ((source, a) ∷ rest)
  ]

  abbrev pub retain_present :
      List (Text × Text)
      → List (Text × A)
      → Option (List (Text × A))
      → List (Text × A) × Option SessionError
  retain_present keys available none = (available, some SessionError.value_error)
  retain_present keys available (some analyses) = retain keys available analyses

  -- `acknowledge`
  unfoldable pub acknowledge :
      List (Text × A) → Context → List (Text × Option A) → List (Text × A) × Option SessionError
  unfolding retain present_analyses
  acknowledge available snapshot analyses =
      if not snapshot.discovery_complete
      then (available, some SessionError.value_error)
      else retain_present snapshot.analysis_keys available (present_analyses analyses)

  abbrev pub analysis_at : List (Text × A) → Option Text → A ⊎ SessionError
  analysis_at available none = inr SessionError.key_error
  analysis_at available (some k) = elim (value_at k available) [
    | none ↦ inr SessionError.key_error
    | some a ↦ inl a
  ]

  -- `analysis_for`
  unfoldable pub analysis_for : List (Text × A) → Context → Text → A ⊎ SessionError
  unfolding value_at
  analysis_for available snapshot source =
      if not snapshot.discovery_complete
      then inr SessionError.value_error
      else analysis_at available (value_at source snapshot.analysis_keys)
