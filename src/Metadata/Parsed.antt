-- ===== src/Metadata/Parsed.antt =====
-- A step of a record parser: a value, or the reason for which the line is refused.
use sql_server_analyze.Common.{ℕ, Bool, true, false, ◌≡◌, refl}
use sql_server_analyze.Codes.{ReasonCode}
use sql_server_analyze.U64.{U64Result, number, failed}

pub data Parsed {ℓ} (A : Type ℓ) : Type ℓ where
  reject : ReasonCode → Parsed A
  ok : A → Parsed A

-- `value, error = _parse_u64(text)` with `if error: return error`
abbrev pub from_u64 : U64Result → Parsed ℕ
from_u64 (number n) = ok n
from_u64 (failed reason) = reject reason

-- `if not test: return reason`
abbrev pub guard : Bool → ReasonCode → Parsed (Unit {0})
guard false reason = reject reason
guard true _ = ok tt

infixl 5 ◌>>=◌ ◌>>◌
-- An early return skips the rest of the function.
abbrev pub ◌>>=◌ {ℓ κ} : {V : Type ℓ} {W : Type κ} → Parsed V → (V → Parsed W) → Parsed W
reject reason >>= rest = reject reason
ok value >>= rest = rest value

abbrev pub ◌>>◌ {κ} : {W : Type κ} → Parsed (Unit {0}) → Parsed W → Parsed W
reject reason >> rest = reject reason
ok _ >> rest = rest

-- A test that was passed, and the rest of the function behind it.
pub >>-eq-ok {κ} :
    {W : Type κ} (test : Bool) (reason : ReasonCode) (rest : Parsed W) {w : W}
    → (guard test reason >> rest) ≡ ok w
    → (test ≡ true) × (rest ≡ ok w)
>>-eq-ok false reason rest e = cc
>>-eq-ok true reason rest e = (refl, e)

-- A step that gave a value, and the rest of the function behind it.
pub >>=-eq-ok {ℓ κ} :
    {V : Type ℓ} {W : Type κ} (step : Parsed V) (rest : V → Parsed W) {w : W}
    → (step >>= rest) ≡ ok w
    → (value : V) × (step ≡ ok value) × (rest value ≡ ok w)
>>=-eq-ok (reject reason) rest e = cc
>>=-eq-ok (ok value) rest e = (value, refl, e)
