-- ===== src/Values/Counters/Entries.antt =====
-- The lines of a counter file as a relation, against the loop over the lines.
use sql_server_analyze.Common.{
  ℕ, ◌≡◌, ◌≢◌, inl, inr, refl, sym, ap, ◌∙◌, subst, true, false, List, [], ◌∷◌, Bool-cases,
  is_empty,
}
use sql_server_analyze.Text.{Text, member, strip, split_runs, is_outer_space}
use sql_server_analyze.U64.{U64Result, number, failed, parse_u64}
use sql_server_analyze.Values.Counters.{
  Counter, Units, counter_of, LineResult, skipped, counted, refused, is_line_space, is_counter_key,
  line_value, line_tokens, parse_line, LoopResult, collected, stopped, add_counter, parse_lines,
}

-- The line is blank but for white space.
abbrev pub IsBlank : Text → Type 0
IsBlank line = is_empty (strip is_line_space line) ≡ true

-- The line is a key and a u64 between white space, and `c` is its counter.
pub record IsEntry (units : Units) (line : Text) (c : Counter) : Type 0 where
  pub not_blank : is_empty (strip is_line_space line) ≡ false
  pub key : Text
  pub numeric : Text
  pub n : ℕ
  pub two_tokens : split_runs is_outer_space (strip is_line_space line) ≡ key ∷ numeric ∷ []
  pub word : is_counter_key key ≡ true
  pub spelled : parse_u64 numeric ≡ number n
  pub made : c ≡ counter_of units key numeric n

-- The counters of the lines that are not blank, in their order.
pub data Entries (units : Units) : List Text → List Counter → Type 0 where
  done : Entries units [] []
  blank :
      {line : Text} {lines : List Text} {cs : List Counter}
      → IsBlank line
      → Entries units lines cs
      → Entries units (line ∷ lines) cs
  entry :
      {line : Text} {lines : List Text} {c : Counter} {cs : List Counter}
      → IsEntry units line c
      → Entries units lines cs
      → Entries units (line ∷ lines) (c ∷ cs)

-- No key stands twice, nor among those seen before.
abbrev pub DistinctFrom : List Text → List Counter → Type 0
DistinctFrom seen [] = Unit
DistinctFrom seen (c ∷ cs) = (member c.key seen ≡ false) × DistinctFrom (c.key ∷ seen) cs

line_value-counted :
    (units : Units) (key numeric : Text) (v : U64Result) (c : Counter)
    → line_value units key numeric v ≡ counted c
    → (n : ℕ) × (v ≡ number n) × (c ≡ counter_of units key numeric n)
line_value-counted units key numeric (failed r) c e = cc
line_value-counted units key numeric (number n) c e = (n, refl, cc)

abbrev FromTokens : Units → List Text → List Text → Counter → Type 0
FromTokens units seen ts c =
    (key : Text) × (numeric : Text) × (n : ℕ) × (ts ≡ key ∷ numeric ∷ [])
    × (is_counter_key key ≡ true)
    × (member key seen ≡ false)
    × (parse_u64 numeric ≡ number n)
    × (c ≡ counter_of units key numeric n)

line_tokens-counted :
    (units : Units) (seen ts : List Text) (c : Counter)
    → line_tokens units seen ts ≡ counted c
    → FromTokens units seen ts c
line_tokens-counted units seen [] c e = cc
line_tokens-counted units seen (a ∷ []) c e = cc
line_tokens-counted units seen (a ∷ b ∷ x ∷ ts) c e = cc
line_tokens-counted units seen (a ∷ b ∷ []) c e = elim (Bool-cases (is_counter_key a)) [
  | inr w ↦ cc (rw w at e)
  | inl w ↦ elim (Bool-cases (member a seen)) [
    | inl m ↦ cc (rw (w, m) at e)
    | inr m ↦
        let (n, spelled, made) = line_value-counted units a b (parse_u64 b) c (rw (w, m) at e) in
        (a, b, n, refl, w, m, spelled, made)
  ]
]

parse_line-counted :
    (units : Units) (seen : List Text) (line : Text) (c : Counter)
    → parse_line units seen line ≡ counted c
    → IsEntry units line c × (member c.key seen ≡ false)
unfolding parse_line
parse_line-counted units seen line c e = elim (Bool-cases (is_empty (strip is_line_space line))) [
  | inl b ↦ cc (rw b at e)
  | inr b ↦
      let (key, numeric, n, two, w, m, spelled, made) =
        line_tokens-counted units seen (split_runs is_outer_space (strip is_line_space line)) c
          (rw b at e) in
      (
        record {
          not_blank = b;
          key = key;
          numeric = numeric;
          n = n;
          two_tokens = two;
          word = w;
          spelled = spelled;
          made = made;
        },
        ap (λ (x : Counter). member x.key seen) made ∙ m,
      )
]

parse_line-skipped :
    (units : Units) (seen : List Text) (line : Text)
    → parse_line units seen line ≡ skipped
    → IsBlank line
unfolding parse_line
parse_line-skipped units seen line e = elim (Bool-cases (is_empty (strip is_line_space line))) [
  | inl b ↦ b
  | inr b ↦ absurd (go (split_runs is_outer_space (strip is_line_space line)) (rw b at e))
]
  where
    value : (key numeric : Text) (v : U64Result) → line_value units key numeric v ≢ skipped
    value key numeric (failed r) h = cc
    value key numeric (number n) h = cc

    go : (ts : List Text) → line_tokens units seen ts ≢ skipped
    go [] h = cc
    go (a ∷ []) h = cc
    go (a ∷ b ∷ x ∷ ts) h = cc
    go (a ∷ b ∷ []) h = elim (Bool-cases (is_counter_key a)) [
      | inr w ↦ cc (rw w at h)
      | inl w ↦ elim (Bool-cases (member a seen)) [
        | inl m ↦ cc (rw (w, m) at h)
        | inr m ↦ value a b (parse_u64 b) (rw (w, m) at h)
      ]
    ]

parse_line-entry :
    (units : Units) (seen : List Text) (line : Text) (c : Counter)
    → IsEntry units line c
    → member c.key seen ≡ false
    → parse_line units seen line ≡ counted c
unfolding parse_line
parse_line-entry units seen line c h m =
    let m' = sym (ap (λ (x : Counter). member x.key seen) h.made) ∙ m in
    rw (h.not_blank, h.two_tokens, h.word, m', h.spelled) (ap counted (sym h.made))

parse_line-blank :
    (units : Units) (seen : List Text) (line : Text)
    → IsBlank line
    → parse_line units seen line ≡ skipped
unfolding parse_line
parse_line-blank units seen line b = rw b refl

module _ (units : Units) where
  collected-injective : (a b : List Counter) → collected a ≡ collected b → a ≡ b
  collected-injective a b e = cc

  -- A loop that ends without an error has made the counters of its lines, with distinct keys.
  pub parse_lines-Entries :
      (lines : List Text) (seen : List Text) (cs : List Counter)
      → parse_lines units seen lines ≡ collected cs
      → Entries units lines cs × DistinctFrom seen cs
  unfolding parse_lines
  parse_lines-Entries [] seen cs e =
      subst (λ ds. Entries units [] ds × DistinctFrom seen ds) (collected-injective [] cs e)
        (done, tt)
  parse_lines-Entries (line ∷ lines) seen cs e =
      go (parse_line units seen line) refl (parse_lines-Entries lines)
    where
      Goal : List Counter → Type 0
      Goal ds = Entries units (line ∷ lines) ds × DistinctFrom seen ds

      add :
          (c : Counter) (v : LoopResult)
          → parse_line units seen line ≡ counted c
          → ((ds : List Counter)
              → v ≡ collected ds
              → Entries units lines ds × DistinctFrom (c.key ∷ seen) ds)
          → add_counter c v ≡ collected cs
          → Goal cs
      add c (stopped r) eu ih h = cc
      add c (collected ds) eu ih h =
          let (es, d) = ih ds refl in
          let (entered, fresh) = parse_line-counted units seen line c eu in
          subst Goal (collected-injective (c ∷ ds) cs h) (entry entered es, (fresh, d))

      go :
          (u : LineResult)
          → parse_line units seen line ≡ u
          → ((seen' : List Text) (ds : List Counter)
              → parse_lines units seen' lines ≡ collected ds
              → Entries units lines ds × DistinctFrom seen' ds)
          → Goal cs
      go skipped eu ih =
          let (es, d) = ih seen cs (rw (eu, parse_lines) at e) in
          (blank (parse_line-skipped units seen line eu) es, d)
      go (counted c) eu ih =
          add c (parse_lines units (c.key ∷ seen) lines) eu (ih (c.key ∷ seen))
            (rw (eu, parse_lines) at e)
      go (refused r) eu ih = cc (rw (eu, parse_lines) at e)

  -- Lines with distinct keys are read to the end.
  pub Entries-parse_lines :
      {lines : List Text} {cs : List Counter} (seen : List Text)
      → Entries units lines cs
      → DistinctFrom seen cs
      → parse_lines units seen lines ≡ collected cs
  unfolding parse_lines
  Entries-parse_lines seen done d = refl
  Entries-parse_lines seen (blank {line = l} b es) d =
      rw (parse_line-blank units seen l b, parse_lines) (Entries-parse_lines seen es d)
  Entries-parse_lines seen (entry {line = l} {c = c} h es) (m, d) =
      rw (parse_line-entry units seen l c h m, parse_lines)
        (ap (add_counter c) (Entries-parse_lines (c.key ∷ seen) es d))
