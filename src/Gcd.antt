-- ===== src/Gcd.antt =====
-- `math.gcd`, which the parser of `cpu.max` calls: the common divisor by Euclid's algorithm, and
-- the facts on it that the standard library documents.
pub mod Laws
use sql_server_analyze.Common.{
  ℕ, zero, suc, ◌+◌, ◌-◌, ◌*◌, ◌/◌, ◌%◌, ◌^◌, ◌≤◌, ◌<◌, min, max, String, ◌≡◌, ◌≢◌, ◌↔◌, ◌⊎◌, inl,
  inr, refl, sym, ap, ◌∙◌, subst, ◌&&◌, ◌||◌, not, Bool, true, false, List, [], ◌∷◌, ◌++◌, map,
  reverse, append-nil, append_assoc, Option, none, some, arith, ◌==◌, ltb, leb, if◌then◌else◌,
  Bool-cases, &&_left, &&_right, ==→eq, ==_refl, ltb→lt, lt→ltb, leb→le, le→leb, length,
  length-append, get_elem?, take, drop, is_empty, any, all, select, All, Some, All-append,
  Some-append, Some-reverse, All-reverse, ⊎-map, ⊎-map_left, ⊎-comm, ⊎-assoc, ⊎-unassoc, ⊎-rotate,
}

-- Euclid's algorithm with fuel; `b` falls in every round.
gcd_fuel : ℕ → ℕ → ℕ → ℕ
gcd_fuel zero a b = a
gcd_fuel (suc fuel) a b = let next = gcd_fuel fuel b (a % b) in if b == 0 then a else next

unfoldable pub gcd : ℕ → ℕ → ℕ
unfolding gcd_fuel
gcd a b = gcd_fuel (suc b) a b
