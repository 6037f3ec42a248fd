-- ===== src/Efficiency/Tests.antt =====
-- Budgets and sessions on concrete values, and instances of the theorems.
use sql_server_analyze.Common.{
  ◌^◌, ℕ, ◌≡◌, ◌↔◌, inl, inr, refl, true, false, List, [], ◌∷◌, none, some,
}
use sql_server_analyze.Text.{Text, codes, member}
use sql_server_analyze.RuleCache.Texts.{In, sorted_set}
use sql_server_analyze.Efficiency.Session.{Context, SessionStatus, check, acknowledge, analysis_for}
use sql_server_analyze.Efficiency.Session.Laws.{IsSplit, Returned, check-analysis_for}
use sql_server_analyze.Efficiency.Session.Acknowledge.{acknowledge-check}
use sql_server_analyze.Efficiency.Budget.{
  pos, negsuc, is_amount, amount_error, Entry, Request, Action, Decision, budget_decision,
}
use sql_server_analyze.Efficiency.Budget.Laws.{with_entries, budget_decision-repeated}
use sql_server_analyze.Efficiency.Budget.Allow.{IsCovered, budget_decision-IsCovered}

abbrev two_sources : Context
two_sources = record {
  discovery_complete = true;
  analysis_keys = (codes "b", codes "k2") ∷ (codes "a", codes "k1") ∷ [];
}

abbrev held_one : List (Text × ℕ)
held_one = (codes "k1", 7) ∷ []

partial_plan : (check held_one two_sources).status ≡ SessionStatus.partial
unfolding check sorted_set member
partial_plan = refl

check-analysis_for_example :
    IsSplit two_sources (check held_one two_sources)
    × ((p : Text)
        → In p (check held_one two_sources).reuse ↔ Returned (analysis_for held_one two_sources p))
unfolding member
check-analysis_for_example = check-analysis_for held_one two_sources (refl, (refl, tt))

abbrev held_two : List (Text × ℕ)
held_two = (codes "k2", 9) ∷ held_one

stored : acknowledge held_one two_sources ((codes "b", some 9) ∷ []) ≡ (held_two, none)
unfolding acknowledge
stored = refl

acknowledge-check_example : In (codes "b") (check held_two two_sources).reuse
unfolding member
acknowledge-check_example =
    acknowledge-check held_one held_two two_sources ((codes "b", some 9) ∷ []) (codes "b")
      (refl, (refl, tt)) stored refl

abbrev measured_entry : Entry
measured_entry = record {
  invocation_id = codes "i1";
  actor = codes "agent";
  consumed = some (pos 40);
  reserved = pos 10;
  provenance = codes "MEASURED";
}

abbrev one_wave : ℕ → Request
one_wave hard = record {
  schema_version = 1;
  contract = codes "foundation-processing-budget/v1";
  wave_id = codes "w";
  unit = codes "TOKENS";
  soft_limit = some (pos 90);
  hard_limit = some (pos hard);
  next_reservation = pos 20;
  entries = measured_entry ∷ [];
}

abbrev allowed : Decision
allowed = record {
  action = Action.allow_new_work;
  wave_id = codes "w";
  unit = codes "TOKENS";
  measured = 40;
  estimated = 0;
  reserved = 10;
  projected = 70;
  unknown_consumption = false;
  unique_invocations = 1;
}

is_allowed : budget_decision (one_wave 100) ≡ inl allowed
unfolding budget_decision member is_amount
is_allowed = refl

budget_decision-IsCovered_example : IsCovered (one_wave 100) allowed
budget_decision-IsCovered_example = budget_decision-IsCovered (one_wave 100) allowed is_allowed refl

budget_decision-repeated_example :
    budget_decision (with_entries (one_wave 100) (measured_entry ∷ measured_entry ∷ []))
    ≡ budget_decision (one_wave 100)
budget_decision-repeated_example = budget_decision-repeated (one_wave 100)

limits_out_of_order : budget_decision (one_wave 80) ≡ inr (codes "soft limit exceeds hard limit")
unfolding budget_decision member is_amount
limits_out_of_order = refl

-- `_amount` refuses a negative reservation, and a limit that no float can hold.
negative_reservation :
    budget_decision (record (one_wave 100) { next_reservation = negsuc 0 }) ≡ inr amount_error
unfolding budget_decision member is_amount
negative_reservation = refl

limit_out_of_range : budget_decision (one_wave (2 ^ 1024)) ≡ inr amount_error
unfolding budget_decision member is_amount
limit_out_of_range = refl
