-- ===== src/Efficiency/Budget.antt =====
-- `budget_decision`, for amounts that are integers.
pub mod Turns
pub mod Laws
pub mod Allow
use sql_server_analyze.Common.{
  ℕ, zero, suc, ◌+◌, ◌-◌, ◌*◌, ◌/◌, ◌%◌, ◌^◌, ◌≤◌, ◌<◌, min, max, String, ◌≡◌, ◌≢◌, ◌↔◌, ◌⊎◌, inl,
  inr, refl, sym, ap, ◌∙◌, subst, ◌&&◌, ◌||◌, not, Bool, true, false, List, [], ◌∷◌, ◌++◌, map,
  reverse, append-nil, append_assoc, Option, none, some, arith, ◌==◌, ltb, leb, if◌then◌else◌,
  Bool-cases, &&_left, &&_right, ==→eq, ==_refl, pos→nonzero, nonzero→pos, ltb→lt, lt→ltb, leb→le,
  le→leb, length, length-append, get_elem?, take, drop, is_empty, any, all, select, All, Some,
  All-append, Some-append, Some-reverse, All-reverse, ⊎-map, ⊎-map_left, ⊎-comm, ⊎-assoc, ⊎-unassoc,
  ⊎-rotate,
}
use sql_server_analyze.Text.{Text, codes, text_eq, member}

-- An integer: `n`, or `-(n + 1)`.
pub data ℤ : Type 0 where
  pos negsuc : ℕ → ℤ

-- An entry of the ledger, with the fields that the shape asks for.
pub record Entry : Type 0 where
  pub invocation_id : Text
  pub actor : Text
  pub consumed : Option ℤ
  pub reserved : ℤ
  pub provenance : Text

pub record Request : Type 0 where
  pub schema_version : ℕ
  pub contract : Text
  pub wave_id : Text
  pub unit : Text
  pub soft_limit : Option ℤ
  pub hard_limit : Option ℤ
  pub next_reservation : ℤ
  pub entries : List Entry

pub data Action : Type 0 where
  allow_new_work budget_unverified stop_new_work checkpoint : Action

-- The state of the loop.
pub record Ledger : Type 0 where
  pub seen : List Entry
  pub measured : ℕ
  pub estimated : ℕ
  pub reserved : ℕ
  pub unknown : Bool
  pub has_estimates : Bool

pub record Decision : Type 0 where
  pub action : Action
  pub wave_id : Text
  pub unit : Text
  pub measured : ℕ
  pub estimated : ℕ
  pub reserved : ℕ
  pub projected : ℕ
  pub unknown_consumption : Bool
  pub unique_invocations : ℕ

-- A `ValueError`, by its text.
abbrev pub Checked : Type 0 → Type 0
Checked A = A ⊎ Text

abbrev pub and_then : {A B : Type 0} → Checked A → (A → Checked B) → Checked B
and_then (inr message) f = inr message
and_then (inl a) f = f a

-- `seen.get(invocation_id)`
unfoldable pub entry_at : Text → List Entry → Option Entry
entry_at k [] = none
entry_at k (e ∷ seen) =
    let rest = entry_at k seen in if text_eq e.invocation_id k then some e else rest

abbrev pub integer_eq : ℤ → ℤ → Bool
integer_eq (pos m) (pos n) = m == n
integer_eq (negsuc m) (negsuc n) = m == n
integer_eq (pos m) (negsuc n) = false
integer_eq (negsuc m) (pos n) = false

abbrev pub integer_leb : ℤ → ℤ → Bool
integer_leb (pos m) (pos n) = leb m n
integer_leb (negsuc m) (negsuc n) = leb n m
integer_leb (pos m) (negsuc n) = false
integer_leb (negsuc m) (pos n) = true

abbrev pub amount_eq : Option ℤ → Option ℤ → Bool
amount_eq none none = true
amount_eq (some m) (some n) = integer_eq m n
amount_eq none (some n) = false
amount_eq (some m) none = false

-- `previous == entry`
abbrev pub entry_eq : Entry → Entry → Bool
entry_eq a b =
    text_eq a.invocation_id b.invocation_id
    && text_eq a.actor b.actor
    && amount_eq a.consumed b.consumed
    && integer_eq a.reserved b.reserved
    && text_eq a.provenance b.provenance

abbrev pub is_none : Option ℤ → Bool
is_none none = true
is_none (some n) = false

-- The number that an amount is; it is asked for behind `_amount` only.
abbrev pub natural : ℤ → ℕ
natural (pos n) = n
natural (negsuc n) = 0

abbrev pub amount_or_zero : Option ℤ → ℕ
amount_or_zero none = 0
amount_or_zero (some n) = natural n

-- `_amount(value)` returns: the value is not negative, and `math.isfinite` does not raise, as it does
-- from the first integer on that is rounded to 2 ^ 1024 as a float.
unfoldable pub is_amount : ℤ → Bool
is_amount (negsuc n) = false
is_amount (pos value) = ltb value (2 ^ 1024 - 2 ^ 970)

-- `_amount(value, nullable=True)` returns.
abbrev pub is_amount_or_none : Option ℤ → Bool
is_amount_or_none none = true
is_amount_or_none (some value) = is_amount value

abbrev pub amount_error : Text
amount_error = codes "amount must be a finite nonnegative number"

-- The provenance is known, and says whether the consumption is.
abbrev pub provenance_agrees : Entry → Bool
provenance_agrees e =
    member e.provenance (codes "MEASURED" ∷ codes "ESTIMATED" ∷ codes "UNKNOWN" ∷ [])
    && (if is_none e.consumed
        then text_eq e.provenance (codes "UNKNOWN")
        else not (text_eq e.provenance (codes "UNKNOWN")))

abbrev pub is_measured : Entry → Bool
is_measured e = text_eq e.provenance (codes "MEASURED")

abbrev pub is_estimated : Entry → Bool
is_estimated e = text_eq e.provenance (codes "ESTIMATED")

abbrev pub with_entry : Entry → Ledger → Ledger
with_entry e l = record {
  seen = e ∷ l.seen;
  measured = if is_measured e then l.measured + amount_or_zero e.consumed else l.measured;
  estimated =
      if not (is_measured e) && is_estimated e
      then l.estimated + amount_or_zero e.consumed
      else l.estimated;
  reserved = l.reserved + natural e.reserved;
  unknown = l.unknown || (not (is_measured e) && not (is_estimated e));
  has_estimates = l.has_estimates || (not (is_measured e) && is_estimated e);
}

-- An entry that was not seen before.
unfoldable pub add_entry : Entry → Ledger → Checked Ledger
unfolding member
add_entry e l =
    if not (is_amount_or_none e.consumed && is_amount e.reserved)
    then inr amount_error
    else if not (provenance_agrees e)
    then inr (codes "consumption and provenance disagree")
    else inl (with_entry e l)

abbrev pub count_entry : Entry → Ledger → Option Entry → Checked Ledger
count_entry e l (some previous) =
    if not (entry_eq previous e) then inr (codes "conflicting duplicate invocation") else inl l
count_entry e l none = add_entry e l

-- One turn of `for entry in request["entries"]`.
unfoldable pub ledger_step : Entry → Ledger → Checked Ledger
unfolding entry_at add_entry
ledger_step e l =
    if is_empty e.invocation_id || is_empty e.actor
    then inr (codes "entry identity is required")
    else count_entry e l (entry_at e.invocation_id l.seen)

unfoldable pub ledger_loop : List Entry → Ledger → Checked Ledger
unfolding ledger_step
ledger_loop [] l = inl l
ledger_loop (e ∷ entries) l = and_then (ledger_step e l) (λ next. ledger_loop entries next)

abbrev pub empty_ledger : Ledger
empty_ledger = record {
  seen = [];
  measured = 0;
  estimated = 0;
  reserved = 0;
  unknown = false;
  has_estimates = false;
}

-- `limit is not None and projected >= limit`
abbrev pub reaches : ℕ → Option ℤ → Bool
reaches projected none = false
reaches projected (some (pos limit)) = leb limit projected
reaches projected (some (negsuc limit)) = true

-- The action, by the limits.
abbrev pub action_of : (soft hard : Option ℤ) → (unverified : Bool) → ℕ → Action
action_of soft hard unverified projected =
    if reaches projected hard
    then Action.stop_new_work
    else if not (is_none hard) && unverified
    then Action.budget_unverified
    else if reaches projected soft
    then Action.checkpoint
    else Action.allow_new_work

abbrev pub limits_agree : Option ℤ → Option ℤ → Bool
limits_agree (some soft) (some hard) = integer_leb soft hard
limits_agree _ _ = true

-- What the tests in front of the loop answer.
abbrev pub request_error : Request → Option Text
request_error r =
    if not (r.schema_version == 1)
    then some (codes "invalid budget request shape")
    else if not (text_eq r.contract (codes "foundation-processing-budget/v1"))
        || not (member r.unit (codes "TOKENS" ∷ codes "CREDITS" ∷ codes "USD" ∷ []))
    then some (codes "invalid budget contract or unit")
    else if is_empty r.wave_id
    then some (codes "wave identity is required")
    else if not (
        is_amount_or_none r.soft_limit
        && is_amount_or_none r.hard_limit
        && is_amount r.next_reservation)
    then some amount_error
    else if not (limits_agree r.soft_limit r.hard_limit)
    then some (codes "soft limit exceeds hard limit")
    else none

abbrev pub projected_of : Request → Ledger → ℕ
projected_of r l = l.measured + l.estimated + l.reserved + natural r.next_reservation

abbrev pub decision_of : Request → Ledger → Decision
decision_of r l = record {
  action = action_of r.soft_limit r.hard_limit (l.unknown || l.has_estimates) (projected_of r l);
  wave_id = r.wave_id;
  unit = r.unit;
  measured = l.measured;
  estimated = l.estimated;
  reserved = l.reserved;
  projected = projected_of r l;
  unknown_consumption = l.unknown;
  unique_invocations = length l.seen;
}

-- `_amount(measured + estimated + reserved + next_cost)`, and the decision.
abbrev pub decide : Request → Checked Ledger → Checked Decision
decide r (inr message) = inr message
decide r (inl l) =
    if not (is_amount (pos (projected_of r l))) then inr amount_error else inl (decision_of r l)

abbrev pub refuse_or_decide : Request → Option Text → Checked Decision
refuse_or_decide r (some message) = inr message
refuse_or_decide r none = decide r (ledger_loop r.entries empty_ledger)

-- `budget_decision`
unfoldable pub budget_decision : Request → Checked Decision
unfolding ledger_loop member
budget_decision r = refuse_or_decide r (request_error r)
