-- ===== src/Abi/Outcome.antt =====
-- What a kernel operation does: it returns `Ok`, returns an `Err`, or panics (a failed `assert!`,
-- `unwrap`, `expect` or index), which halts the kernel.
use beet_core.Common.{Option, none, some}
use beet_core.Abi.Error.{Error}

pub data Outcome {ℓ} (A : Type ℓ) : Type ℓ where
  ok : A → Outcome A
  err : Error → Outcome A
  panic : Outcome A

infixl 5 ◌>>=◌
abbrev pub ◌>>=◌ {ℓ κ} : {A : Type ℓ} {B : Type κ} → Outcome A → (A → Outcome B) → Outcome B
ok a >>= f = f a
err e >>= f = err e
panic >>= f = panic

-- `ok_or(e)?`
abbrev pub ok_or {ℓ} : {A : Type ℓ} → Option A → Error → Outcome A
ok_or none e = err e
ok_or (some a) e = ok a

-- `expect(..)` and `unwrap()` on an `Option`
abbrev pub expect {ℓ} : {A : Type ℓ} → Option A → Outcome A
expect none = panic
expect (some a) = ok a
