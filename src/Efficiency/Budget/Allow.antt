-- ===== src/Efficiency/Budget/Allow.antt =====
-- When a decision on a budget allows new work.
use sql_server_analyze.Common.{
  ℕ, ◌<◌, ◌≡◌, inl, inr, refl, subst, ◌&&◌, ◌||◌, not, Bool, true, false, List, [], ◌∷◌, Option,
  none, some, arith, if◌then◌else◌, Bool-cases, All,
}
use sql_server_analyze.Text.{Text, text_eq, text_eq→eq}
use sql_server_analyze.Efficiency.Budget.{
  Entry, Request, Action, Ledger, Decision, Checked, entry_at, entry_eq, is_none, is_measured,
  with_entry, ledger_loop, empty_ledger, reaches, ℤ, pos, negsuc, is_amount, request_error,
  projected_of, decision_of, decide, refuse_or_decide, budget_decision,
}
use sql_server_analyze.Efficiency.Budget.Turns.{Turn, known, added, inl-eq, loop-cons, added_eq}

abbrev flagged : Ledger → Bool
flagged l = l.unknown || l.has_estimates

abbrev Measured : Entry → Type 0
Measured e = is_measured e ≡ true

-- As long as nothing is flagged, all that was seen was measured.
abbrev Clean : Ledger → Type 0
Clean l = flagged l ≡ false → All Measured l.seen

flagged-with_entry :
    (e : Entry) (l : Ledger) → flagged (with_entry e l) ≡ false → (flagged l ≡ false) × Measured e
flagged-with_entry e l h = ground arith

entry_at-Measured :
    (k : Text) (seen : List Entry) (p : Entry)
    → entry_at k seen ≡ some p
    → All Measured seen
    → Measured p
unfolding entry_at
entry_at-Measured k [] p h a = cc
entry_at-Measured k (x ∷ seen) p h (m, a) = elim (Bool-cases (text_eq x.invocation_id k)) [
  | inl t ↦ let same : x ≡ p = some-eq x p (rw t at h) in rw (← same) m
  | inr t ↦ entry_at-Measured k seen p (rw t at h) a
]
  where
    some-eq : (x p : Entry) → some x ≡ some p → x ≡ p
    some-eq x p e = cc

entry_eq-Measured : (p e : Entry) → entry_eq p e ≡ true → Measured p → Measured e
entry_eq-Measured p e h m =
    let same : p.provenance ≡ e.provenance =
      text_eq→eq p.provenance e.provenance
        (last_of (text_eq p.invocation_id e.invocation_id) (text_eq p.actor e.actor) _ _ _ h) in
    rw (← same) m
  where
    last_of : (a b c d e : Bool) → (a && b && c && d && e) ≡ true → e ≡ true
    last_of a b c d e h = ground arith

-- A turn that leaves nothing flagged was given a measured entry, and had nothing flagged before.
Turn-Measured :
    (e : Entry) (l next : Ledger)
    → Turn e l next
    → Clean l
    → flagged next ≡ false
    → (flagged l ≡ false) × Measured e
Turn-Measured e l next (known (p, found, same) stay) c h =
    let before : flagged l ≡ false = rw stay at h in
    (
      before,
      entry_eq-Measured p e same (entry_at-Measured e.invocation_id l.seen p found (c before)),
    )
Turn-Measured e l next (added new add) c h =
    flagged-with_entry e l (rw (added_eq e l next add) at h)

Turn-Clean : (e : Entry) (l next : Ledger) → Turn e l next → Clean l → Clean next
Turn-Clean e l next (known k stay) c = rw stay c
Turn-Clean e l next (added new add) c =
    rw (added_eq e l next add) (λ h. let (before, m) = flagged-with_entry e l h in (m, c before))

loop-Measured :
    (es : List Entry) (l l' : Ledger)
    → ledger_loop es l ≡ inl l'
    → Clean l
    → flagged l' ≡ false
    → (flagged l ≡ false) × All Measured es
unfolding ledger_loop
loop-Measured [] l l' h c f = (rw (inl-eq l l' h) f, tt)
loop-Measured (e ∷ es) l l' h c f =
    let (next, step, turn, rest) = loop-cons e es l l' h in
    let (clear, measured) = loop-Measured es next l' rest (Turn-Clean e l next turn c) f in
    let (before, m) = Turn-Measured e l next turn c clear in (before, (m, measured))

abbrev pub IsBelow : ℕ → ℤ → Type 0
IsBelow projected (pos limit) = projected < limit
IsBelow projected (negsuc limit) = ⊥

reaches-IsBelow :
    (projected : ℕ) (limit : ℤ) → reaches projected (some limit) ≡ false → IsBelow projected limit
reaches-IsBelow projected (pos limit) h = ground arith
reaches-IsBelow projected (negsuc limit) h = cc

-- What stands behind a decision that allows new work.
pub record IsCovered (r : Request) (d : Decision) : Type 0 where
  pub under_hard : (hard : ℤ) → r.hard_limit ≡ some hard → IsBelow d.projected hard
  pub under_soft : (soft : ℤ) → r.soft_limit ≡ some soft → IsBelow d.projected soft
  pub measured : (hard : ℤ) → r.hard_limit ≡ some hard → All Measured r.entries

none_reached :
    (a b c : Bool)
    → (if a
        then Action.stop_new_work
        else if b
        then Action.budget_unverified
        else if c
        then Action.checkpoint
        else Action.allow_new_work)
      ≡ Action.allow_new_work
    → (a ≡ false) × (b ≡ false) × (c ≡ false)
none_reached true b c h = cc
none_reached false true c h = cc
none_reached false false true h = cc
none_reached false false false h = (refl, refl, refl)

ledger-IsCovered :
    (r : Request) (l : Ledger)
    → ledger_loop r.entries empty_ledger ≡ inl l
    → (decision_of r l).action ≡ Action.allow_new_work
    → IsCovered r (decision_of r l)
ledger-IsCovered r l loop h =
    let (hard, unverified, soft) =
      none_reached (reaches (projected_of r l) r.hard_limit)
        (not (is_none r.hard_limit) && flagged l) (reaches (projected_of r l) r.soft_limit) h in
    record {
      under_hard = λ limit e. reaches-IsBelow _ limit (rw e at hard);
      under_soft = λ limit e. reaches-IsBelow _ limit (rw e at soft);
      measured =
          λ limit e. (loop-Measured r.entries empty_ledger l loop (λ f. tt) (rw e at unverified)).1;
    }

decide-inl :
    (r : Request) (l : Ledger) (d : Decision) → decide r (inl l) ≡ inl d → decision_of r l ≡ d
decide-inl r l d h = elim (Bool-cases (is_amount (pos (projected_of r l)))) [
  | inl t ↦ inl-eq (decision_of r l) d (rw t at h)
  | inr t ↦ cc (rw t at h)
]

-- New work is allowed only where the projected use is below each limit that is set and, with a
-- hard limit, where the consumption of every entry was measured.
pub budget_decision-IsCovered :
    (r : Request) (d : Decision)
    → budget_decision r ≡ inl d
    → d.action ≡ Action.allow_new_work
    → IsCovered r d
unfolding budget_decision
budget_decision-IsCovered r d h a = of_error (request_error r) h
  where
    of_ledger :
        (x : Checked Ledger)
        → ledger_loop r.entries empty_ledger ≡ x
        → decide r x ≡ inl d
        → IsCovered r d
    of_ledger (inr m) e k = cc
    of_ledger (inl l) e k =
        let same : decision_of r l ≡ d = decide-inl r l d k in
        subst (λ (x : Decision). x.action ≡ Action.allow_new_work → IsCovered r x) same
          (ledger-IsCovered r l e) a

    of_error : (e : Option Text) → refuse_or_decide r e ≡ inl d → IsCovered r d
    of_error (some m) k = cc
    of_error none k = of_ledger (ledger_loop r.entries empty_ledger) refl k
