-- ===== src/Text.antt =====
-- Python text and the `str` operations that the parsers use. A text is the list of its code
-- points, so that lone surrogates can stand in it.
pub mod Laws
mod Tests
use Prim.Native.Char.{code}
use sql_server_analyze.Common.{
  ℕ, zero, suc, String, ◌≡◌, refl, ◌&&◌, ◌||◌, Bool, true, false, List, [], ◌∷◌, ◌++◌, reverse,
  Option, none, some, arith, ◌==◌, ltb, leb, if◌then◌else◌, ap, ◌↔◌, Bool-cases, &&_left, &&_right,
  ==→eq,
}

abbrev pub Text : Type 0
Text = List ℕ

-- A literal of the source.
abbrev pub codes : String → Text
codes String.[] = []
codes (String.◌∷◌ c s) = code c ∷ codes s

-- `a == b` on texts.
abbrev pub text_eq : Text → Text → Bool
text_eq [] [] = true
text_eq [] (d ∷ t) = false
text_eq (c ∷ s) [] = false
text_eq (c ∷ s) (d ∷ t) = (c == d) && text_eq s t

pub text_eq_refl : (s : Text) → text_eq s s ≡ true
text_eq_refl [] = refl
text_eq_refl (c ∷ s) = ground (arith, text_eq_refl s)

pub text_eq→eq : (s t : Text) → text_eq s t ≡ true → s ≡ t
text_eq→eq [] [] h = refl
text_eq→eq [] (d ∷ t) h = cc
text_eq→eq (c ∷ s) [] h = cc
text_eq→eq (c ∷ s) (d ∷ t) h = ground (arith, text_eq→eq s t)

pub text_eq_iff : (s t : Text) → (text_eq s t ≡ true) ↔ (s ≡ t)
text_eq_iff s t = (text_eq→eq s t, λ e. rw e (text_eq_refl t))

-- `a == b` on texts that may be missing.
abbrev pub option_text_eq : Option Text → Option Text → Bool
option_text_eq none none = true
option_text_eq none (some t) = false
option_text_eq (some s) none = false
option_text_eq (some s) (some t) = text_eq s t

pub option_text_eq_refl : (a : Option Text) → option_text_eq a a ≡ true
option_text_eq_refl none = refl
option_text_eq_refl (some s) = text_eq_refl s

pub option_text_eq→eq : (a b : Option Text) → option_text_eq a b ≡ true → a ≡ b
option_text_eq→eq none none h = refl
option_text_eq→eq none (some t) h = cc
option_text_eq→eq (some s) none h = cc
option_text_eq→eq (some s) (some t) h = ap some (text_eq→eq s t h)

-- `text in keys`, for a set of literals.
unfoldable pub member : Text → List Text → Bool
member k [] = false
member k (t ∷ ts) = text_eq k t || member k ts

-- `ch in text`
abbrev pub contains : ℕ → Text → Bool
contains c [] = false
contains c (d ∷ s) = (d == c) || contains c s

-- `text.lstrip(chars)` for the set of characters on which `p` holds.
unfoldable pub lstrip : (ℕ → Bool) → Text → Text
lstrip p [] = []
lstrip p (c ∷ s) = let rest = lstrip p s in if p c then rest else c ∷ s

unfoldable pub rstrip : (ℕ → Bool) → Text → Text
unfolding lstrip
rstrip p s = reverse (lstrip p (reverse s))

-- `text.strip(chars)`
unfoldable pub strip : (ℕ → Bool) → Text → Text
unfolding lstrip rstrip
strip p s = rstrip p (lstrip p s)

-- Puts a character in front of the first part.
abbrev pub cons_head : ℕ → List Text → List Text
cons_head c [] = (c ∷ []) ∷ []
cons_head c (p ∷ ps) = (c ∷ p) ∷ ps

-- `text.split(sep)` for one character.
unfoldable pub split : ℕ → Text → List Text
split sep [] = [] ∷ []
split sep (c ∷ s) = let rest = split sep s in if c == sep then [] ∷ rest else cons_head c rest

-- The first character is there and satisfies `p`.
abbrev pub head_is : (ℕ → Bool) → Text → Bool
head_is p [] = false
head_is p (c ∷ s) = p c

-- `re.split("[chars]+", text)`: a run of separators is one cut, also at the ends.
unfoldable pub split_runs : (ℕ → Bool) → Text → List Text
split_runs p [] = [] ∷ []
split_runs p (c ∷ s) =
    let rest = split_runs p s in
    let opened = if head_is p s then rest else [] ∷ rest in if p c then opened else cons_head c rest

-- `text.startswith(prefix)`
unfoldable pub starts_with : Text → Text → Bool
starts_with [] s = true
starts_with (c ∷ t) [] = false
starts_with (c ∷ t) (d ∷ s) = (c == d) && starts_with t s

-- `text.endswith(suffix)`
unfoldable pub ends_with : Text → Text → Bool
unfolding starts_with
ends_with t s = starts_with (reverse t) (reverse s)

-- The outer white space that the parsers strip: blank, tab, carriage return, line feed.
abbrev pub is_outer_space : ℕ → Bool
is_outer_space c = (c == 32) || (c == 9) || (c == 13) || (c == 10)

abbrev pub is_digit : ℕ → Bool
is_digit c = leb b'0' c && leb c b'9'

-- `[A-Za-z0-9_]`
abbrev pub is_word : ℕ → Bool
is_word c = is_digit c || (leb b'A' c && leb c b'Z') || (leb b'a' c && leb c b'z') || (c == b'_')
