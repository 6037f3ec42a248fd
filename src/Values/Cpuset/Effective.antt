-- ===== src/Values/Cpuset/Effective.antt =====
-- The contract of `parse_cpuset_cpus_effective`: when a text is valid, and which intervals and
-- which count it then yields.
use sql_server_analyze.Common.{
  ℕ, suc, ◌≤◌, ◌<◌, ◌≡◌, ◌↔◌, inl, inr, refl, sym, ap, ◌∙◌, false, List, [], ◌∷◌, map, Option, none,
  some, arith, Bool-cases, is_empty, All,
}
use sql_server_analyze.Codes.{ParseState, ReasonCode}
use sql_server_analyze.Text.{Text, contains, strip, is_outer_space}
use sql_server_analyze.U64.{to_decimal}
use sql_server_analyze.Values.Input.{
  input_problem, IsBounded, input_problem-none, input_problem-IsBounded, input_problem-ne-valid,
}
use sql_server_analyze.Values.Cpuset.{
  u31_max, Interval, CpusetResult, ItemsResult, collected, stopped, parse_items, sort, merge,
  text_interval, valid_result, finish, items_of, checked, parse_cpuset_cpus_effective,
}
use sql_server_analyze.Values.Cpuset.Sorting.{Covers, AllProper}
use sql_server_analyze.Values.Cpuset.Merging.{IsCompact, merge-IsCompact, merge-Covers}
use sql_server_analyze.Values.Cpuset.Counting.{count_below, covered, EndsBelow, count_below-covered}
use sql_server_analyze.Values.Cpuset.Canonical.{IsCompact-unique}
use sql_server_analyze.Values.Cpuset.Items.{SpellsRange, read-SpellsRange, SpellsRange-read}
use sql_server_analyze.Values.Cpuset.Parsing.{
  IsCpuRange, Names, IsCollected, parse_items-IsCollected, parse_items-all_read,
}

-- The texts that the parser accepts: short, without NUL, not blank, and every item a range.
pub record IsCpuList (raw : Text) : Type 0 where
  pub bounded : IsBounded raw
  pub no_nul : contains 0 raw ≡ false
  pub not_blank : is_empty (strip is_outer_space raw) ≡ false
  pub ranges : All SpellsRange (items_of raw)

IsCpuRange-proper : (is : List Interval) → All IsCpuRange is → AllProper is
IsCpuRange-proper [] _ = tt
IsCpuRange-proper (i ∷ is) (h, hs) = (h.ordered, IsCpuRange-proper is hs)

-- A valid result, with the intervals that stand behind its texts.
record IsParsed (raw : Text) (r : CpusetResult) : Type 0 where
  intervals : List Interval
  items : IsCollected (items_of raw) intervals
  list : IsCpuList raw
  written : r ≡ valid_result raw (merge (sort intervals))

state : CpusetResult → ParseState
state r = r.parse_state

finish-IsParsed :
    (raw : Text) (v : ItemsResult)
    → parse_items (items_of raw) ≡ v
    → state (finish raw v) ≡ ParseState.valid
    → (is : List Interval) × IsCollected (items_of raw) is
      × (finish raw v ≡ valid_result raw (merge (sort is)))
unfolding state
finish-IsParsed raw (stopped r) e f = cc
finish-IsParsed raw (collected is) e f = (is, parse_items-IsCollected (items_of raw) is e, refl)

checked-IsParsed :
    (raw : Text) (q : Option (ParseState × ReasonCode))
    → input_problem raw ≡ q
    → state (checked raw q) ≡ ParseState.valid
    → IsParsed raw (checked raw q)
unfolding state
checked-IsParsed raw (some (p, r)) e f = absurd (input_problem-ne-valid raw p r e f)
checked-IsParsed raw none e f = elim (Bool-cases (contains 0 raw)) [
  | inl n ↦ cc (rw n at f)
  | inr n ↦ elim (Bool-cases (is_empty (strip is_outer_space raw))) [
    | inl b ↦ cc (rw (n, b) at f)
    | inr b ↦
        let (is, items, same) =
          finish-IsParsed raw (parse_items (items_of raw)) refl (rw (n, b) at f) in
        rw (n, b)
          (record {
            intervals = is;
            items = items;
            list = record {
              bounded = input_problem-IsBounded raw e;
              no_nul = n;
              not_blank = b;
              ranges = read-SpellsRange (items_of raw) items.all_read;
            };
            written = same;
          })
  ]
]

parsed :
    (raw : Text)
    → state (parse_cpuset_cpus_effective raw) ≡ ParseState.valid
    → IsParsed raw (parse_cpuset_cpus_effective raw)
parsed raw f =
    unfold parse_cpuset_cpus_effective in
    checked-IsParsed raw (input_problem raw) refl (unfold parse_cpuset_cpus_effective in f)

-- A text is valid exactly when it can be encoded, is short, has no NUL, is not blank, and every item
-- between the commas spells a number, or an ascending range of numbers, of at most 31 bits.
pub cpuset_valid_iff :
    (raw : Text)
    → ((parse_cpuset_cpus_effective raw).parse_state ≡ ParseState.valid) ↔ IsCpuList raw
cpuset_valid_iff raw = (λ f. (parsed raw (unfold state in f)).list, complete)
  where
    complete : IsCpuList raw → (parse_cpuset_cpus_effective raw).parse_state ≡ ParseState.valid
    complete l =
        let (is, e) =
          parse_items-all_read (items_of raw) (SpellsRange-read (items_of raw) l.ranges) in
        unfold parse_cpuset_cpus_effective in
        rw (input_problem-none raw l.bounded, l.no_nul, l.not_blank, e) refl

-- The intervals of a valid result are apart and ascend, cover exactly the CPUs that the text names,
-- and the count is the number of these CPUs.
pub record IsCpuSetOf (raw : Text) (r : CpusetResult) : Type 0 where
  pub merged : List Interval
  pub interval_texts : r.intervals ≡ some (map text_interval merged)
  pub compact : IsCompact merged
  pub covers : (x : ℕ) → Covers merged x ↔ Names raw x
  pub count_text : r.cpu_count ≡ some (to_decimal (count_below (suc u31_max) (covered merged)))

Covers-bound : (is : List Interval) (x : ℕ) → All IsCpuRange is → Covers is x → x ≤ u31_max
Covers-bound [] x _ c = absurd c
Covers-bound (i ∷ is) x (h, hs) (inl w) = omega (arith, h.small)
Covers-bound (i ∷ is) x (h, hs) (inr c) = Covers-bound is x hs c

ends_below :
    (n : ℕ) (m : List Interval) → IsCompact m → ((x : ℕ) → Covers m x → x < n) → EndsBelow n m
ends_below n [] _ f = tt
ends_below n (i ∷ m) (p, after, c) f =
    (f i.1 (inl (p, omega arith)), ends_below n m c (λ x w. f x (inr w)))

-- The intervals of a valid result are compact (apart from one another, and ascending), they cover
-- exactly the CPUs that the text names, and the count is the number of these CPUs.
pub cpuset_IsCpuSetOf :
    (raw : Text)
    → (parse_cpuset_cpus_effective raw).parse_state ≡ ParseState.valid
    → IsCpuSetOf raw (parse_cpuset_cpus_effective raw)
cpuset_IsCpuSetOf raw f =
    let p = parsed raw (unfold state in f) in
    let is = p.intervals in
    let m = merge (sort is) in
    let proper = IsCpuRange-proper is p.items.ranges in
    let c = merge-IsCompact is proper in
    let below =
      ends_below (suc u31_max) m c
        (λ x w. omega (arith, Covers-bound is x p.items.ranges ((merge-Covers is x proper).0 w))) in
    record {
      merged = m;
      interval_texts = ap (λ (r : CpusetResult). r.intervals) p.written;
      compact = c;
      covers = λ x. (
        (λ w. (p.items.names x).0 ((merge-Covers is x proper).0 w)),
        (λ w. (merge-Covers is x proper).1 ((p.items.names x).1 w)),
      );
      count_text =
          ap (λ (r : CpusetResult). r.cpu_count) p.written
          ∙ ap (λ (k : ℕ). some (to_decimal k)) (sym (count_below-covered (suc u31_max) m c below));
    }

-- Two valid texts that name the same CPUs have the same intervals and the same count, whatever the
-- order of their items, and however these overlap.
pub cpuset_canonical :
    (raw raw' : Text)
    → (parse_cpuset_cpus_effective raw).parse_state ≡ ParseState.valid
    → (parse_cpuset_cpus_effective raw').parse_state ≡ ParseState.valid
    → ((x : ℕ) → Names raw x ↔ Names raw' x)
    → ((parse_cpuset_cpus_effective raw).intervals ≡ (parse_cpuset_cpus_effective raw').intervals)
      × ((parse_cpuset_cpus_effective raw).cpu_count ≡ (parse_cpuset_cpus_effective raw').cpu_count)
cpuset_canonical raw raw' f f' same =
    let a = cpuset_IsCpuSetOf raw f in
    let b = cpuset_IsCpuSetOf raw' f' in
    let eq = IsCompact-unique a.merged b.merged a.compact b.compact (λ x. (
      (λ w. (b.covers x).1 ((same x).0 ((a.covers x).0 w))),
      (λ w. (a.covers x).1 ((same x).1 ((b.covers x).0 w))),
    )) in
    (
      a.interval_texts
          ∙ ap (λ (m : List Interval). some (map text_interval m)) eq
          ∙ sym b.interval_texts,
      a.count_text
          ∙ ap (λ (m : List Interval). some (to_decimal (count_below (suc u31_max) (covered m)))) eq
          ∙ sym b.count_text,
    )
