-- ===== src/Values/Cpuset/Parsing.antt =====
-- What `parse_cpuset_cpus_effective` returns, by the CPUs that the text names.
use sql_server_analyze.Common.{
  ℕ, ◌≤◌, ◌≡◌, ◌↔◌, ◌⊎◌, inl, inr, refl, sym, ◌∙◌, subst, List, [], ◌∷◌, Option, none, some, arith,
  All, Some,
}
use sql_server_analyze.Text.{Text}
use sql_server_analyze.U64.{U64Result, number, failed, parse_u64}
use sql_server_analyze.Values.Cpuset.{
  u31_max, Interval, match_range, ItemResult, interval, refused, check_range, item_numbers,
  item_groups, parse_item, ItemsResult, collected, stopped, add_item, parse_items, items_of,
}
use sql_server_analyze.Values.Cpuset.Sorting.{Within, Covers}

-- The item is read as an interval that holds the CPU `x`.
abbrev pub NamesCpu : ℕ → Text → Type 0
NamesCpu x item = (i : Interval) × (parse_item item ≡ interval i) × Within x i

-- One of the items between the commas names the CPU `x`.
abbrev pub Names : Text → ℕ → Type 0
Names raw x = Some (NamesCpu x) (items_of raw)

-- The item is read as an interval.
abbrev pub IsRead : Text → Type 0
IsRead item = (i : Interval) × (parse_item item ≡ interval i)

-- An interval that the loop appends: its ends in order, and a CPU number of at most 31 bits.
pub record IsCpuRange (i : Interval) : Type 0 where
  pub ordered : i.0 ≤ i.1
  pub small : i.1 ≤ u31_max

check_range-IsCpuRange : (a b : ℕ) (i : Interval) → check_range a b ≡ interval i → IsCpuRange i
unfolding check_range
check_range-IsCpuRange a b i e = ground arith

item_numbers-IsCpuRange :
    (u v : U64Result) (i : Interval) → item_numbers u v ≡ interval i → IsCpuRange i
item_numbers-IsCpuRange (failed r) v i e = cc
item_numbers-IsCpuRange (number a) (failed r) i e = cc
item_numbers-IsCpuRange (number a) (number b) i e = check_range-IsCpuRange a b i e

item_groups-IsCpuRange :
    (m : Option (Text × Option Text)) (i : Interval) → item_groups m ≡ interval i → IsCpuRange i
item_groups-IsCpuRange none i e = cc
item_groups-IsCpuRange (some (a, none)) i e =
    item_numbers-IsCpuRange (parse_u64 a) (parse_u64 a) i e
item_groups-IsCpuRange (some (a, some b)) i e =
    item_numbers-IsCpuRange (parse_u64 a) (parse_u64 b) i e

pub parse_item-IsCpuRange :
    (item : Text) (i : Interval) → parse_item item ≡ interval i → IsCpuRange i
unfolding parse_item
parse_item-IsCpuRange item i e = item_groups-IsCpuRange (match_range item) i e

-- What a completed loop has collected.
pub record IsCollected (items : List Text) (is : List Interval) : Type 0 where
  pub ranges : All IsCpuRange is
  pub all_read : All IsRead items
  pub names : (x : ℕ) → Covers is x ↔ Some (NamesCpu x) items

IsCollected-cons :
    (item : Text) (items : List Text) (i : Interval) (is : List Interval)
    → parse_item item ≡ interval i
    → IsCollected items is
    → IsCollected (item ∷ items) (i ∷ is)
IsCollected-cons item items i is e c = record {
  ranges = (parse_item-IsCpuRange item i e, c.ranges);
  all_read = ((i, e), c.all_read);
  names = λ x. (to x, from x);
}
  where
    to : (x : ℕ) → Within x i ⊎ Covers is x → NamesCpu x item ⊎ Some (NamesCpu x) items
    to x (inl w) = inl (i, e, w)
    to x (inr w) = inr ((c.names x).0 w)

    from : (x : ℕ) → NamesCpu x item ⊎ Some (NamesCpu x) items → Within x i ⊎ Covers is x
    from x (inl (j, f, w)) =
        let same : j ≡ i = interval-injective j i (sym f ∙ e) in inl (subst (Within x) same w)
      where
        interval-injective : (a b : Interval) → interval a ≡ interval b → a ≡ b
        interval-injective a b h = cc
    from x (inr w) = inr ((c.names x).1 w)

collected-injective : (a b : List Interval) → collected a ≡ collected b → a ≡ b
collected-injective a b e = cc

pub parse_items-IsCollected :
    (items : List Text) (is : List Interval)
    → parse_items items ≡ collected is
    → IsCollected items is
unfolding parse_items
parse_items-IsCollected [] is e =
    subst (IsCollected []) (collected-injective [] is e)
      (record { ranges = tt; all_read = tt; names = λ x. (λ h. h, λ h. h) })
parse_items-IsCollected (item ∷ items) is e =
    go (parse_item item) (parse_items items) refl refl e (parse_items-IsCollected items)
  where
    go :
        (u : ItemResult) (v : ItemsResult)
        → parse_item item ≡ u
        → parse_items items ≡ v
        → add_item u v ≡ collected is
        → ((js : List Interval) → parse_items items ≡ collected js → IsCollected items js)
        → IsCollected (item ∷ items) is
    go (refused r) v eu ev f ih = cc
    go (interval i) (stopped r) eu ev f ih = cc
    go (interval i) (collected js) eu ev f ih =
        subst (IsCollected (item ∷ items)) (collected-injective (i ∷ js) is f)
          (IsCollected-cons item items i js eu (ih js ev))

-- Where every item is read, the loop runs to its end.
pub parse_items-all_read :
    (items : List Text)
    → All IsRead items
    → (is : List Interval) × (parse_items items ≡ collected is)
unfolding parse_items
parse_items-all_read [] _ = ([], refl)
parse_items-all_read (item ∷ items) ((i, e), hs) =
    let (is, f) = parse_items-all_read items hs in (i ∷ is, rw (e, f) refl)
