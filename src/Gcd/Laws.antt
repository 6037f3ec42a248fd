-- ===== src/Gcd/Laws.antt =====
-- The common divisor divides both numbers, is the greatest, and reduces a fraction.
use sql_server_analyze.Common.{
  ℕ, zero, suc, ◌+◌, ◌-◌, ◌*◌, ◌/◌, ◌%◌, ◌<◌, ◌≡◌, inl, inr, refl, ap, arith, ◌==◌, Bool-cases,
  ==→eq,
}
use native.Mathlib.Nat.{div-add-mod', mul_comm, mul-sub, mul-div_left}
use sql_server_analyze.Gcd.{gcd_fuel, gcd}

-- `d` divides `a`, with the quotient kept.
abbrev pub Divides : ℕ → ℕ → Type 0
Divides d a = (k : ℕ) × (a ≡ k * d)

Divides-zero : (d : ℕ) → Divides d 0
Divides-zero d = (0, omega arith)

Divides-of_mod : (d a b : ℕ) → Divides d b → Divides d (a % b) → Divides d a
Divides-of_mod d a b (x, ex) (y, ey) =
    ((a / b) * x + y, omega (arith, div-add-mod' a b, ap (λ (t : ℕ). a / b * t) ex))

Divides-mod : (d a b : ℕ) → Divides d a → Divides d b → Divides d (a % b)
Divides-mod d a b (x, ex) (y, ey) = (
  x - (a / b) * y,
  rw (mul_comm (x - a / b * y) d, mul-sub)
      (omega (arith, div-add-mod' a b, ap (λ (t : ℕ). a / b * t) ey)),
)

gcd_fuel-Divides :
    (fuel a b : ℕ) → b < fuel → Divides (gcd_fuel fuel a b) a × Divides (gcd_fuel fuel a b) b
unfolding gcd_fuel
gcd_fuel-Divides zero a b h = elim h [ ]
gcd_fuel-Divides (suc fuel) a b h = elim (Bool-cases (b == 0)) [
  | inl e ↦ rw e ((1, omega arith), rw (==→eq b 0 e) (Divides-zero a))
  | inr e ↦
      let (db, dm) = gcd_fuel-Divides fuel b (a % b) (ground arith) in
      rw e (Divides-of_mod (gcd_fuel fuel b (a % b)) a b db dm, db)
]

gcd_fuel-greatest :
    (fuel a b d : ℕ) → b < fuel → Divides d a → Divides d b → Divides d (gcd_fuel fuel a b)
unfolding gcd_fuel
gcd_fuel-greatest zero a b d h da db = elim h [ ]
gcd_fuel-greatest (suc fuel) a b d h da db = elim (Bool-cases (b == 0)) [
  | inl e ↦ rw e da
  | inr e ↦ rw e (gcd_fuel-greatest fuel b (a % b) d (ground arith) db (Divides-mod d a b da db))
]

pub gcd-Divides : (a b : ℕ) → Divides (gcd a b) a × Divides (gcd a b) b
unfolding gcd
gcd-Divides a b = gcd_fuel-Divides (suc b) a b (omega arith)

pub gcd-greatest : (a b d : ℕ) → Divides d a → Divides d b → Divides d (gcd a b)
unfolding gcd
gcd-greatest a b d = gcd_fuel-greatest (suc b) a b d (omega arith)

pos-of_multiple : (a k g : ℕ) → a ≡ k * g → 0 < a → 0 < g
pos-of_multiple a k zero e h = absurd (omega arith)
pos-of_multiple a k (suc g) e h = omega arith

pub gcd-pos_left : (a b : ℕ) → 0 < a → 0 < gcd a b
gcd-pos_left a b h = let (k, e) = (gcd-Divides a b).0 in pos-of_multiple a k (gcd a b) e h

quotient_back : (a k g : ℕ) → a ≡ k * g → 0 < g → a / g * g ≡ a
quotient_back a k g e h = rw (e, mul-div_left k h)

-- The quotients by the common divisor multiply back.
pub gcd-quotient_left : (a b : ℕ) → 0 < a → a / gcd a b * gcd a b ≡ a
gcd-quotient_left a b h =
    let (k, e) = (gcd-Divides a b).0 in quotient_back a k (gcd a b) e (gcd-pos_left a b h)

pub gcd-quotient_right : (a b : ℕ) → 0 < a → b / gcd a b * gcd a b ≡ b
gcd-quotient_right a b h =
    let (k, e) = (gcd-Divides a b).1 in quotient_back b k (gcd a b) e (gcd-pos_left a b h)

-- The reduced fraction has the value of the fraction.
pub gcd-ratio : (a b : ℕ) → 0 < a → a / gcd a b * b ≡ b / gcd a b * a
gcd-ratio a b h =
    let x = a / gcd a b in
    let y = b / gcd a b in
    omega (
      arith,
      ap (λ (t : ℕ). x * t) (gcd-quotient_right a b h),
      ap (λ (t : ℕ). y * t) (gcd-quotient_left a b h),
    )

no_double : (g m d : ℕ) → 0 < g → g ≡ m * (d * g) → d ≡ 1
no_double g m zero h e = absurd (omega arith)
no_double g m (suc zero) h e = refl
no_double g zero (suc (suc d)) h e = absurd (omega arith)
no_double g (suc m) (suc (suc d)) h e = absurd (omega arith)

Divides-scaled : (a q d g : ℕ) → q * g ≡ a → Divides d q → Divides (d * g) a
Divides-scaled a q d g e (k, f) = (k, omega (arith, e, ap (λ (t : ℕ). t * g) f))

-- The quotients by the common divisor have no common divisor but one.
pub gcd-coprime : (a b d : ℕ) → 0 < a → Divides d (a / gcd a b) → Divides d (b / gcd a b) → d ≡ 1
gcd-coprime a b d h da db =
    let g = gcd a b in
    let (m, e) =
      gcd-greatest a b (d * g) (Divides-scaled a (a / g) d g (gcd-quotient_left a b h) da)
        (Divides-scaled b (b / g) d g (gcd-quotient_right a b h) db) in
    no_double g m d (gcd-pos_left a b h) e
