-- ===== src/Values/Cpuset/Items.antt =====
-- The items of a CPU list, described by their digits.
use sql_server_analyze.Common.{
  ℕ, ◌≤◌, ◌≡◌, ◌↔◌, ◌⊎◌, inl, inr, refl, sym, ◌∙◌, ◌&&◌, not, true, List, [], ◌∷◌, ◌++◌, arith,
  Bool-cases, &&_right, is_empty, all, All,
}
use sql_server_analyze.Text.{Text, is_digit, split}
use sql_server_analyze.Text.Laws.{join, join-split, split-join, split_whole, Lacks}
use sql_server_analyze.U64.{U64Result, number, failed, all_digits, int_from, parse_u64}
use sql_server_analyze.U64.Laws.{parse_u64_accepts, parse_u64_sound}
use sql_server_analyze.Values.Cpuset.{
  u31_max, Interval, match_parts, match_range, interval, check_range, item_numbers, item_groups,
  parse_item,
}

-- The text is one or more digits with the value `n`.
abbrev pub SpellsDigits : Text → ℕ → Type 0
SpellsDigits s n = (all_digits s ≡ true) × (int_from 0 s ≡ n)

-- A single number, or two numbers with a dash between them.
abbrev pub SpellsItem : Text → ℕ → ℕ → Type 0
SpellsItem item a b =
    (SpellsDigits item a × (b ≡ a))
    ⊎ ((x : Text) × (y : Text) × (item ≡ x ++ b'-' ∷ y) × SpellsDigits x a × SpellsDigits y b)

-- The item spells an ascending range of numbers of at most 31 bits.
pub record IsItem (item : Text) (a b : ℕ) : Type 0 where
  pub spelled : SpellsItem item a b
  pub ordered : a ≤ b
  pub small : b ≤ u31_max

check_range_sound :
    (x y a b : ℕ) → check_range x y ≡ interval (a, b) → (x ≡ a) × (y ≡ b) × (a ≤ b) × (b ≤ u31_max)
unfolding check_range
check_range_sound x y a b e = ground arith

numbers_sound :
    (x y : Text) (a b : ℕ)
    → item_numbers (parse_u64 x) (parse_u64 y) ≡ interval (a, b)
    → SpellsDigits x a × SpellsDigits y b × (a ≤ b) × (b ≤ u31_max)
numbers_sound x y a b e = go (parse_u64 x) (parse_u64 y) refl refl e
  where
    go :
        (u v : U64Result)
        → parse_u64 x ≡ u
        → parse_u64 y ≡ v
        → item_numbers u v ≡ interval (a, b)
        → SpellsDigits x a × SpellsDigits y b × (a ≤ b) × (b ≤ u31_max)
    go (failed r) v p q f = cc
    go (number m) (failed r) p q f = cc
    go (number m) (number n) p q f =
        let (em, en, o, s) = check_range_sound m n a b f in
        let (dx, vx, _) = parse_u64_sound x m p in
        let (dy, vy, _) = parse_u64_sound y n q in ((dx, sym vx ∙ em), (dy, sym vy ∙ en), o, s)

numbers_complete :
    (x y : Text) (a b : ℕ)
    → SpellsDigits x a
    → SpellsDigits y b
    → a ≤ b
    → b ≤ u31_max
    → item_numbers (parse_u64 x) (parse_u64 y) ≡ interval (a, b)
unfolding check_range
numbers_complete x y a b (dx, vx) (dy, vy) o s =
    rw (parse_u64_accepts x dx (omega arith), parse_u64_accepts y dy (omega arith), vx, vy)
      (ground arith)

digits-Lacks : (s : Text) → all is_digit s ≡ true → Lacks b'-' s
digits-Lacks [] h = tt
digits-Lacks (c ∷ s) h = (ground arith, digits-Lacks s (ground arith))

spelled-Lacks : (s : Text) (n : ℕ) → SpellsDigits s n → Lacks b'-' s
spelled-Lacks s n (d, _) = digits-Lacks s (&&_right (not (is_empty s)) (all is_digit s) d)

parts_sound :
    (item : Text) (a b : ℕ) (parts : List Text)
    → join b'-' parts ≡ item
    → item_groups (match_parts parts) ≡ interval (a, b)
    → IsItem item a b
unfolding join
parts_sound item a b [] j e = cc
parts_sound item a b (x ∷ []) j e = elim (Bool-cases (all_digits x)) [
  | inr t ↦ cc (rw t at e)
  | inl t ↦
      let (sx, sy, o, s) = numbers_sound x x a b (rw t at e) in
      rw (← j) (record { spelled = inl (sx, sym (sy.1) ∙ sx.1); ordered = o; small = s })
]
parts_sound item a b (x ∷ y ∷ []) j e = elim (Bool-cases (all_digits x && all_digits y)) [
  | inr t ↦ cc (rw t at e)
  | inl t ↦
      let (sx, sy, o, s) = numbers_sound x y a b (rw t at e) in
      record { spelled = inr (x, y, sym j, sx, sy); ordered = o; small = s }
]
parts_sound item a b (x ∷ y ∷ z ∷ parts) j e = cc

-- An item is read as the interval from `a` to `b` exactly when it is digits with the value `a`, `b`
-- being `a`, or digits with the values `a` and `b` and a dash between them, where `a` is at most
-- `b`, and `b` has at most 31 bits.
pub parse_item_iff : (item : Text) (a b : ℕ) → (parse_item item ≡ interval (a, b)) ↔ IsItem item a b
unfolding parse_item match_range
parse_item_iff item a b =
    ((λ e. parts_sound item a b (split b'-' item) (join-split b'-' item) e), complete)
  where
    complete : IsItem item a b → parse_item item ≡ interval (a, b)
    complete h = spelled_complete h.spelled
      where
        spelled_complete : SpellsItem item a b → parse_item item ≡ interval (a, b)
        spelled_complete (inl ((d, v), same)) =
            rw (split_whole b'-' item (spelled-Lacks item a (d, v)), d)
              (numbers_complete item item a b (d, v) (d, v ∙ sym same) h.ordered h.small)
        spelled_complete (inr (x, y, shape, sx, sy)) =
            let cut : split b'-' (x ++ b'-' ∷ y) ≡ x ∷ y ∷ [] =
              unfold join in
              split-join b'-' (x ∷ y ∷ []) (λ e. cc)
                (spelled-Lacks x a sx, (spelled-Lacks y b sy, tt)) in
            rw (shape, cut, sx.0, sy.0) (numbers_complete x y a b sx sy h.ordered h.small)

-- The item spells some range.
abbrev pub SpellsRange : Text → Type 0
SpellsRange item = (a : ℕ) × (b : ℕ) × IsItem item a b

pub read-SpellsRange :
    (items : List Text)
    → All (λ item. (i : Interval) × (parse_item item ≡ interval i)) items
    → All SpellsRange items
read-SpellsRange [] _ = tt
read-SpellsRange (item ∷ items) (((a, b), e), hs) =
    ((a, b, (parse_item_iff item a b).0 e), read-SpellsRange items hs)

pub SpellsRange-read :
    (items : List Text)
    → All SpellsRange items
    → All (λ item. (i : Interval) × (parse_item item ≡ interval i)) items
SpellsRange-read [] _ = tt
SpellsRange-read (item ∷ items) ((a, b, h), hs) =
    (((a, b), (parse_item_iff item a b).1 h), SpellsRange-read items hs)
