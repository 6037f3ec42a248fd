-- ===== src/Reader/Tokens.antt =====
-- `_u64_token` of Code/Tools/Linux_Cgroup_Reader.py, and the cuts that Python makes in bytes.
use sql_server_analyze.Common.{
  ℕ, suc, ◌+◌, ◌≤◌, ◌≡◌, refl, ap, ◌&&◌, ◌||◌, not, Bool, false, List, [], ◌∷◌, ◌++◌, Option, none,
  some, arith, ◌==◌, ltb, leb, if◌then◌else◌, ==_refl, length, take, drop, is_empty, select,
}
use sql_server_analyze.Text.{Text, contains, split_runs}
use sql_server_analyze.U64.{
  u64_max, number, all_digits, int_from, normalized, parse_u64, to_decimal,
}
use sql_server_analyze.U64.RoundTrip.{parse_u64-to_decimal}

-- `_PID_MAX`
abbrev pub pid_max : ℕ
pid_max = 2147483647

-- `_u64_token(numeric_bytes, maximum=maximum)`
unfoldable pub u64_token : Text → ℕ → Option Text
u64_token s maximum =
    if not (all_digits s)
    then none
    else if ltb 20 (length (normalized s))
    then none
    else if leb (int_from 0 (normalized s)) maximum
    then some (to_decimal (int_from 0 (normalized s)))
    else none

-- A token that both parsers of numbers accept has one value.
u64_token-number :
    (s : Text) (n maximum : ℕ)
    → parse_u64 s ≡ number n
    → n ≤ maximum
    → u64_token s maximum ≡ some (to_decimal n)
unfolding u64_token parse_u64
u64_token-number s n maximum e h = ground arith

-- The numeral of a number up to the maximum is kept as it is.
pub u64_token-to_decimal :
    (n maximum : ℕ)
    → n ≤ maximum
    → maximum ≤ u64_max
    → u64_token (to_decimal n) maximum ≡ some (to_decimal n)
u64_token-to_decimal n maximum h m =
    u64_token-number (to_decimal n) n maximum (parse_u64-to_decimal n (omega arith)) h

-- An index that is found behind `n` bytes.
abbrev pub behind : ℕ → Option ℕ → Option ℕ
behind n none = none
behind n (some i) = some (n + i)

-- `raw.find(byte)`; `none` is -1.
unfoldable pub find : ℕ → Text → Option ℕ
find b [] = none
find b (c ∷ s) = let rest = find b s in if c == b then some 0 else behind 1 rest

-- `raw.rfind(byte)`
unfoldable pub rfind : ℕ → Text → Option ℕ
rfind b [] = none
rfind b (c ∷ s) = elim (rfind b s) [
  | some i ↦ some (suc i)
  | none ↦ if c == b then some 0 else none
]

-- `raw.find(byte, start)`
unfoldable pub find_from : ℕ → ℕ → Text → Option ℕ
unfolding find
find_from b start s = behind start (find b (drop start s))

-- The white space of `raw.split()`: blank, and 9 to 13.
abbrev pub is_space : ℕ → Bool
is_space c = (c == 32) || (leb 9 c && leb c 13)

-- `raw.split()`: the parts between runs of white space, without empty ones at the ends.
unfoldable pub words : Text → List Text
unfolding split_runs
words s = select (λ w. not (is_empty w)) (split_runs is_space s)

pub find-append :
    (b : ℕ) (s t : Text) → contains b s ≡ false → find b (s ++ b ∷ t) ≡ some (length s)
unfolding find
find-append b [] t h = rw (==_refl b) refl
find-append b (c ∷ s) t h = ground (arith, find-append b s t)

rfind-none : (b : ℕ) (s : Text) → contains b s ≡ false → rfind b s ≡ none
unfolding rfind
rfind-none b [] h = refl
rfind-none b (c ∷ s) h = rw (rfind-none b s (ground arith)) (ground arith)

-- The last place of a byte that the rest does not hold.
pub rfind-append :
    (b : ℕ) (s t : Text) → contains b t ≡ false → rfind b (s ++ b ∷ t) ≡ some (length s)
unfolding rfind
rfind-append b [] t h = rw (rfind-none b t h) (ground arith)
rfind-append b (c ∷ s) t h = rw (rfind-append b s t h) refl

pub take-length {ℓ} : {A : Type ℓ} (xs ys : List A) → take (length xs) (xs ++ ys) ≡ xs
take-length [] ys = refl
take-length (x ∷ xs) ys = ap (λ (zs : List _). x ∷ zs) (take-length xs ys)

pub drop-length {ℓ} :
    {A : Type ℓ} (xs : List A) (y : A) (ys : List A) → drop (suc (length xs)) (xs ++ y ∷ ys) ≡ ys
drop-length [] y ys = refl
drop-length (x ∷ xs) y ys = drop-length xs y ys
