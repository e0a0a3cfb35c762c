-- ===== src/Prelude/Results.antt =====
-- What a call returns or throws, and the CHECK_ macros of SkaleCommon.h.
use mathlib.Core.Bool.{Bool, true, false}
use mathlib.Core.Path.{◌≡◌, refl}

-- The exceptions of the source; `out_of_range` is the standard library's.
pub data Exception : Type 0 where
  invalid_argument invalid_state parsing network_protocol serialize out_of_range : Exception

pub data Result (A : Type 0) : Type 0 where
  ok : A → Result A
  throw : Exception → Result A

module _ {A B : Type 0} where
  abbrev pub and_then : Result A → (A → Result B) → Result B
  and_then (ok a) k = k a
  and_then (throw e) k = throw e

-- What holds of the value that a call returns.
abbrev pub OnOk : {A : Type 0} → (A → Type 0) → Result A → Type 0
OnOk P (ok a) = P a
OnOk P (throw e) = Unit

-- `catch ( ... ) { throw_with_nested( e ) }`
abbrev pub nest : {A : Type 0} → Exception → Result A → Result A
nest e (ok a) = ok a
nest e (throw x) = throw e

-- CHECK_ARGUMENT and CHECK_STATE, before what follows them.
abbrev pub check : {A : Type 0} → Bool → Exception → Result A → Result A
check true e k = k
check false e k = throw e

-- A check that passes.
pub check-true : {A : Type 0} (b : Bool) (e : Exception) (k : Result A) → b ≡ true → check b e k ≡ k
check-true b e k p = rw p

pub throw_not_ok : {A W : Type 0} {e : Exception} {a : A} → throw e ≡ ok a → W
throw_not_ok {W = W} {e = e} {a = a} p = absurd (apart p)
  where
    apart : throw e ≡ ok a → ⊥
    apart q = cc

-- What a call that returned has passed.
pub check-ok :
    {A : Type 0} (b : Bool) (e : Exception) (k : Result A) {a : A}
    → check b e k ≡ ok a
    → (b ≡ true) × (k ≡ ok a)
check-ok true e k p = (refl, p)
check-ok false e k p = throw_not_ok p

pub and_then-ok :
    {A B : Type 0} (r : Result A) (k : A → Result B) {b : B}
    → and_then r k ≡ ok b
    → (a : A) × (r ≡ ok a) × (k a ≡ ok b)
and_then-ok (ok a) k p = (a, refl, p)
and_then-ok (throw e) k p = throw_not_ok p

pub nest-ok : {A : Type 0} (e : Exception) (r : Result A) {a : A} → nest e r ≡ ok a → r ≡ ok a
nest-ok e (ok a) p = p
nest-ok e (throw x) p = throw_not_ok p

pub ok_injective : {A : Type 0} (a b : A) → ok a ≡ ok b → a ≡ b
ok_injective a b p = cc
