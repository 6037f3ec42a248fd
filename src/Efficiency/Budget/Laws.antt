-- ===== src/Efficiency/Budget/Laws.antt =====
-- A ledger that repeats its entries.
use sql_server_analyze.Common.{
  ◌≡◌, inl, inr, refl, ap, ◌∙◌, ◌||◌, Bool, false, List, [], ◌∷◌, ◌++◌, Option, none, some,
  Bool-cases, is_empty, All,
}
use sql_server_analyze.Text.{Text}
use sql_server_analyze.Efficiency.Budget.{
  Entry, Request, Ledger, Checked, and_then, ledger_step, ledger_loop, empty_ledger, request_error,
  decide, refuse_or_decide, budget_decision,
}
use sql_server_analyze.Efficiency.Budget.Turns.{Seen, loop-cons, Seen-loop, Seen-own}

abbrev identified : Entry → Bool
identified e = is_empty e.invocation_id || is_empty e.actor

step_identified : (e : Entry) (l next : Ledger) → ledger_step e l ≡ inl next → identified e ≡ false
unfolding ledger_step
step_identified e l next h = elim (Bool-cases (identified e)) [ inl t ↦ cc (rw t at h) | inr t ↦ t ]

-- An entry that was seen changes nothing.
step-Seen : (e : Entry) (l : Ledger) → identified e ≡ false → Seen e l → ledger_step e l ≡ inl l
unfolding ledger_step
step-Seen e l i (p, found, same) = rw (i, found, same) refl

abbrev IsSettled : Ledger → Entry → Type 0
IsSettled l e = ledger_step e l ≡ inl l

loop-IsSettled :
    (es : List Entry) (l l' : Ledger) → ledger_loop es l ≡ inl l' → All (IsSettled l') es
loop-IsSettled [] l l' h = tt
loop-IsSettled (e ∷ es) l l' h =
    let (next, step, turn, rest) = loop-cons e es l l' h in
    (
      step-Seen e l' (step_identified e l next step)
          (Seen-loop e es next l' rest (Seen-own e l next turn)),
      loop-IsSettled es next l' rest,
    )

loop-again : (es : List Entry) (l : Ledger) → All (IsSettled l) es → ledger_loop es l ≡ inl l
unfolding ledger_loop
loop-again [] l h = refl
loop-again (e ∷ es) l (s, h) = rw (s, ledger_loop) (loop-again es l h)

and_then_assoc :
    {A B C : Type 0} (a : Checked A) (f : A → Checked C) (g : A → Checked B) (h : B → Checked C)
    → ((x : A) → f x ≡ and_then (g x) h)
    → and_then a f ≡ and_then (and_then a g) h
and_then_assoc (inr m) f g h e = refl
and_then_assoc (inl x) f g h e = e x

loop-append :
    (xs ys : List Entry) (l : Ledger)
    → ledger_loop (xs ++ ys) l ≡ and_then (ledger_loop xs l) (λ next. ledger_loop ys next)
unfolding ledger_loop
loop-append [] ys l = refl
loop-append (x ∷ xs) ys l =
    and_then_assoc (ledger_step x l) (λ next. ledger_loop (xs ++ ys) next)
      (λ next. ledger_loop xs next) (λ next. ledger_loop ys next) (λ next. loop-append xs ys next)

loop-twice : (es : List Entry) (l : Ledger) → ledger_loop (es ++ es) l ≡ ledger_loop es l
loop-twice es l = loop-append es es l ∙ on_result (ledger_loop es l) refl
  where
    on_result :
        (a : Checked Ledger) → ledger_loop es l ≡ a → and_then a (λ next. ledger_loop es next) ≡ a
    on_result (inr m) h = refl
    on_result (inl next) h = loop-again es next (loop-IsSettled es l next h)

abbrev pub with_entries : Request → List Entry → Request
with_entries r entries = record {
  schema_version = r.schema_version;
  contract = r.contract;
  wave_id = r.wave_id;
  unit = r.unit;
  soft_limit = r.soft_limit;
  hard_limit = r.hard_limit;
  next_reservation = r.next_reservation;
  entries = entries;
}

decide-with_entries :
    (r : Request) (es : List Entry) (a : Checked Ledger) → decide (with_entries r es) a ≡ decide r a
decide-with_entries r es (inl l) = refl
decide-with_entries r es (inr m) = refl

refuse-with_entries :
    (r : Request) (es : List Entry) (e : Option Text)
    → ledger_loop es empty_ledger ≡ ledger_loop r.entries empty_ledger
    → refuse_or_decide (with_entries r es) e ≡ refuse_or_decide r e
refuse-with_entries r es (some m) h = refl
refuse-with_entries r es none h =
    decide-with_entries r es (ledger_loop es empty_ledger) ∙ ap (decide r) h

-- Reporting every entry of the ledger a second time changes nothing: the decision, its totals and
-- the error of a refused request are the same.
pub budget_decision-repeated :
    (r : Request) → budget_decision (with_entries r (r.entries ++ r.entries)) ≡ budget_decision r
unfolding budget_decision
budget_decision-repeated r =
    refuse-with_entries r (r.entries ++ r.entries) (request_error r)
      (loop-twice r.entries empty_ledger)
