-- ===== src/Efficiency/Budget/Turns.antt =====
-- The turns of the loop over the ledger.
use sql_server_analyze.Common.{
  ◌≡◌, ◌⊎◌, inl, inr, refl, sym, ap, ◌||◌, true, List, [], ◌∷◌, Option, none, some, Bool-cases,
  ==_refl, is_empty, ◌&&◌,
}
use sql_server_analyze.Text.{Text, text_eq, text_eq→eq, text_eq_refl}
use sql_server_analyze.Efficiency.Budget.{
  Entry, Ledger, Checked, entry_at, entry_eq, amount_eq, ℤ, pos, negsuc, integer_eq, is_amount,
  is_amount_or_none, provenance_agrees, with_entry, and_then, add_entry, count_entry, ledger_step,
  ledger_loop,
}

-- The ledger holds the entry already.
abbrev pub Seen : Entry → Ledger → Type 0
Seen e l = (p : Entry) × (entry_at e.invocation_id l.seen ≡ some p) × (entry_eq p e ≡ true)

-- What a turn does: nothing for an entry that was seen, else the entry is added.
pub data Turn (e : Entry) (l : Ledger) (next : Ledger) : Type 0 where
  known : Seen e l → next ≡ l → Turn e l next
  added : entry_at e.invocation_id l.seen ≡ none → add_entry e l ≡ inl next → Turn e l next

pub inl-eq : {A : Type 0} (a b : A) → ◌≡◌ {A = A ⊎ Text} (inl a) (inl b) → a ≡ b
inl-eq a b h = cc

count-Turn :
    (e : Entry) (l next : Ledger) (a : Option Entry)
    → entry_at e.invocation_id l.seen ≡ a
    → count_entry e l a ≡ inl next
    → Turn e l next
count-Turn e l next none found h = Turn.added found h
count-Turn e l next (some p) found h = elim (Bool-cases (entry_eq p e)) [
  | inl t ↦ Turn.known (p, found, t) (sym (inl-eq l next (rw t at h)))
  | inr t ↦ cc (rw t at h)
]

step-Turn : (e : Entry) (l next : Ledger) → ledger_step e l ≡ inl next → Turn e l next
unfolding ledger_step
step-Turn e l next h = elim (Bool-cases (is_empty e.invocation_id || is_empty e.actor)) [
  | inl t ↦ cc (rw t at h)
  | inr t ↦ count-Turn e l next (entry_at e.invocation_id l.seen) refl (rw t at h)
]

pub added_eq : (e : Entry) (l next : Ledger) → add_entry e l ≡ inl next → next ≡ with_entry e l
unfolding add_entry
added_eq e l next h = elim (Bool-cases (is_amount_or_none e.consumed && is_amount e.reserved)) [
  | inr f ↦ cc (rw f at h)
  | inl f ↦ elim (Bool-cases (provenance_agrees e)) [
    | inl t ↦ sym (inl-eq (with_entry e l) next (rw (f, t) at h))
    | inr t ↦ cc (rw (f, t) at h)
  ]
]

and_then-inl :
    {A B : Type 0} (a : Checked A) (f : A → Checked B) (b : B)
    → and_then a f ≡ inl b
    → (x : A) × (a ≡ inl x) × (f x ≡ inl b)
and_then-inl (inl x) f b h = (x, refl, h)
and_then-inl (inr m) f b h = cc

pub loop-cons :
    (e : Entry) (es : List Entry) (l l' : Ledger)
    → ledger_loop (e ∷ es) l ≡ inl l'
    → (next : Ledger) × (ledger_step e l ≡ inl next)
      × Turn e l next
      × (ledger_loop es next ≡ inl l')
unfolding ledger_loop
loop-cons e es l l' h =
    let (next, step, rest) = and_then-inl (ledger_step e l) (λ x. ledger_loop es x) l' h in
    (next, step, step-Turn e l next step, rest)

-- What was seen stays seen.
Seen-cons :
    (x e : Entry) (l next : Ledger)
    → entry_at e.invocation_id l.seen ≡ none
    → next.seen ≡ (e ∷ l.seen)
    → Seen x l
    → Seen x next
unfolding entry_at
Seen-cons x e l next new grown (p, found, same) =
    elim (Bool-cases (text_eq e.invocation_id x.invocation_id)) [
      | inl t ↦
          let key : e.invocation_id ≡ x.invocation_id =
            text_eq→eq e.invocation_id x.invocation_id t in
          cc (found, rw key at new)
      | inr t ↦ (p, rw (grown, t) found, same)
    ]

Seen-Turn : (x e : Entry) (l next : Ledger) → Turn e l next → Seen x l → Seen x next
Seen-Turn x e l next (Turn.known k same) s = rw same s
Seen-Turn x e l next (Turn.added new add) s =
    Seen-cons x e l next new (ap (λ (r : Ledger). r.seen) (added_eq e l next add)) s

integer_eq_refl : (n : ℤ) → integer_eq n n ≡ true
integer_eq_refl (pos n) = ==_refl n
integer_eq_refl (negsuc n) = ==_refl n

amount_eq_refl : (a : Option ℤ) → amount_eq a a ≡ true
amount_eq_refl none = refl
amount_eq_refl (some n) = integer_eq_refl n

entry_eq_refl : (e : Entry) → entry_eq e e ≡ true
entry_eq_refl e =
    rw
      (
        text_eq_refl e.invocation_id,
        text_eq_refl e.actor,
        amount_eq_refl e.consumed,
        integer_eq_refl e.reserved,
        text_eq_refl e.provenance,
      )
      refl

pub Seen-own : (e : Entry) (l next : Ledger) → Turn e l next → Seen e next
unfolding entry_at
Seen-own e l next (Turn.known k same) = rw same k
Seen-own e l next (Turn.added new add) =
    let grown : next.seen ≡ (e ∷ l.seen) = ap (λ (r : Ledger). r.seen) (added_eq e l next add) in
    (e, rw (grown, text_eq_refl e.invocation_id) refl, entry_eq_refl e)

pub Seen-loop :
    (x : Entry) (es : List Entry) (l l' : Ledger) → ledger_loop es l ≡ inl l' → Seen x l → Seen x l'
unfolding ledger_loop
Seen-loop x [] l l' h s = rw (← inl-eq l l' h) s
Seen-loop x (e ∷ es) l l' h s =
    let (next, step, turn, rest) = loop-cons e es l l' h in
    Seen-loop x es next l' rest (Seen-Turn x e l next turn s)
