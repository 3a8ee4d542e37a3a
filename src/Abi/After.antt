-- ===== src/Abi/After.antt =====
-- What holds of the result of an operation that may panic.
use beet_core.Common.{◌≡◌, subst, sym}
use beet_core.Abi.Outcome.{Outcome, ok, err, panic, ◌>>=◌}

-- What holds of the result of an operation that returns.
abbrev pub After {ℓ κ} : {A : Type ℓ} → (A → Type κ) → Outcome A → Type κ
After P (ok a) = P a
After P (err e) = Unit
After P panic = Unit

pub After-bind {ℓ κ λ'} :
    {A : Type ℓ} {B : Type κ} (P : B → Type λ') (m : Outcome A) (f : A → Outcome B)
    → ((a : A) → After P (f a))
    → After P (m >>= f)
After-bind P (ok a) f h = h a
After-bind P (err e) f h = tt
After-bind P panic f h = tt

pub After-then {ℓ κ λ' μ} :
    {A : Type ℓ} {B : Type κ} (Q : A → Type μ) (P : B → Type λ') (m : Outcome A) (f : A → Outcome B)
    → After Q m
    → ((a : A) → Q a → After P (f a))
    → After P (m >>= f)
After-then Q P (ok a) f q h = h a q
After-then Q P (err e) f q h = tt
After-then Q P panic f q h = tt

pub After-map {ℓ κ λ'} :
    {A : Type ℓ} (Q : A → Type κ) (P : A → Type λ') (m : Outcome A)
    → After Q m
    → ((a : A) → Q a → P a)
    → After P m
After-map Q P (ok a) q h = h a q
After-map Q P (err e) q h = tt
After-map Q P panic q h = tt

pub After-ok {ℓ κ} :
    {A : Type ℓ} (P : A → Type κ) (m : Outcome A) (a : A) → After P m → m ≡ ok a → P a
After-ok P m a h e = subst (After P) e h

-- The operation returns, with a result of which `P` holds.
abbrev pub Returns {ℓ κ} : {A : Type ℓ} → (A → Type κ) → Outcome A → Type (ℓ ⊔ κ)
Returns P m = (a : _) × (m ≡ ok a) × P a

pub Returns-then {ℓ κ λ' μ} :
    {A : Type ℓ} {B : Type κ} (Q : A → Type μ) (P : B → Type λ') (m : Outcome A) (f : A → Outcome B)
    → Returns Q m
    → ((a : A) → Q a → Returns P (f a))
    → Returns P (m >>= f)
Returns-then Q P m f q h = subst (λ n. Returns P (n >>= f)) (sym (q.1)) (h (q.0) (q.2))

pub Returns-After {ℓ κ} : {A : Type ℓ} (P : A → Type κ) (m : Outcome A) → Returns P m → After P m
Returns-After P m r = subst (After P) (sym (r.1)) (r.2)
