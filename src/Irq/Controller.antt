-- ===== src/Irq/Controller.antt =====
-- The interrupt controller beside the table of xous/kernel/src/irq.rs: what each operation tells it.
use beet_core.Common.{
  ℕ, zero, suc, ◌+◌, ◌≡◌, ◌∙◌, refl, ap, sym, arith, Bool, true, false, List, [], ◌∷◌, ◌++◌,
  length-append, Option, none, some, length, set, ◌==◌, if◌then◌else◌, Bool-cases, inl, inr,
}
use beet_core.Irq.{
  IrqHandler, free, user, kernel, Command, enable_irq, disable_irq, Handlers, Step, claim_user_at,
  claim_kernel_at, free_at, is_of,
}

-- The controller: is each line enabled? A command out of its range changes nothing.
abbrev pub Lines : Type 0
Lines = List Bool

abbrev pub run : Command → Lines → Lines
run (enable_irq irq) lines = set lines irq true
run (disable_irq irq) lines = set lines irq false

abbrev pub run_all : List Command → Lines → Lines
run_all [] lines = lines
run_all (c ∷ cs) lines = run_all cs (run c lines)

abbrev pub is_taken : IrqHandler → Bool
is_taken free = false
is_taken (user pid pc arg) = true
is_taken (kernel f) = true

abbrev pub is_some_taken : Option IrqHandler → Bool
is_some_taken none = false
is_some_taken (some h) = is_taken h

-- The lines that have a handler.
abbrev pub taken : Handlers → Lines
taken [] = []
taken (h ∷ hs) = is_taken h ∷ taken hs

pub taken-set :
    (self : Handlers) (irq : ℕ) (h : IrqHandler)
    → taken (set self irq h) ≡ set (taken self) irq (is_taken h)
taken-set [] irq h = refl
taken-set (x ∷ xs) zero h = refl
taken-set (x ∷ xs) (suc irq) h = ap (λ t. is_taken x ∷ t) (taken-set xs irq h)

-- The enabled lines are still the ones that have a handler.
abbrev pub InStep : Lines → Handlers × List Command → Type 0
InStep lines step = run_all step.1 lines ≡ taken step.0

abbrev pub state : Step → Handlers × List Command
state step = (step.0, step.1)

pub claim_user_at-InStep :
    (self : Handlers) (irq pid pc : ℕ) (arg : Option ℕ) (old : Option IrqHandler)
    → InStep (taken self) (state (claim_user_at self irq (user pid pc arg) old))
unfolding claim_user_at
claim_user_at-InStep self irq pid pc arg none = refl
claim_user_at-InStep self irq pid pc arg (some free) = sym (taken-set self irq (user pid pc arg))
claim_user_at-InStep self irq pid pc arg (some (user p c a)) = refl
claim_user_at-InStep self irq pid pc arg (some (kernel f)) = refl

pub claim_kernel_at-InStep :
    (self : Handlers) (irq f : ℕ) (old : Option IrqHandler)
    → InStep (taken self) (state (claim_kernel_at self irq (kernel f) old))
unfolding claim_kernel_at
claim_kernel_at-InStep self irq f none = refl
claim_kernel_at-InStep self irq f (some free) = sym (taken-set self irq (kernel f))
claim_kernel_at-InStep self irq f (some (user p c a)) = refl
claim_kernel_at-InStep self irq f (some (kernel g)) = refl

pub free_at-InStep :
    (self : Handlers) (irq pid : ℕ) (old : Option IrqHandler)
    → InStep (taken self) (state (free_at self irq pid old))
unfolding free_at
free_at-InStep self irq pid none = refl
free_at-InStep self irq pid (some free) = refl
free_at-InStep self irq pid (some (kernel f)) = refl
free_at-InStep self irq pid (some (user p c a)) = elim (Bool-cases (pid == p)) [
  | inl own ↦ rw own (sym (taken-set self irq free))
  | inr other ↦ rw other refl
]

pub append_one : (pre rest : Lines) (b : Bool) → (pre ++ b ∷ []) ++ rest ≡ pre ++ b ∷ rest
append_one [] rest b = refl
append_one (x ∷ pre) rest b = ap (λ t. x ∷ t) (append_one pre rest b)

pub set-append :
    (pre rest : Lines) (a b : Bool) → set (pre ++ a ∷ rest) (length pre) b ≡ pre ++ b ∷ rest
set-append [] rest a b = refl
set-append (x ∷ pre) rest a b = ap (λ t. x ∷ t) (set-append pre rest a b)

pub length-append_one : (pre : Lines) (b : Bool) → length (pre ++ b ∷ []) ≡ length pre + 1
length-append_one pre b = length-append pre (b ∷ [])

pub is_of-taken : (pid : ℕ) (h : IrqHandler) → is_of pid h ≡ true → is_taken h ≡ true
is_of-taken pid free e = ground arith
is_of-taken pid (user p c a) e = refl
is_of-taken pid (kernel f) e = refl

-- The table and the commands of a release that does not panic, from line `irq`.
abbrev pub cleared : ℕ → ℕ → Handlers → Handlers × List Command
cleared pid irq [] = ([], [])
cleared pid irq (h ∷ hs) =
    let (rest, commands) = cleared pid (irq + 1) hs in
    if is_of pid h then (free ∷ rest, disable_irq irq ∷ commands) else (h ∷ rest, commands)

pub release_next :
    (pid : ℕ) (hs : Handlers) (pre : Lines) (b : Bool)
    → run_all (cleared pid (length (pre ++ b ∷ [])) hs).1 ((pre ++ b ∷ []) ++ taken hs)
      ≡ (pre ++ b ∷ []) ++ taken (cleared pid (length (pre ++ b ∷ [])) hs).0
    → run_all (cleared pid (length pre + 1) hs).1 (pre ++ b ∷ taken hs)
      ≡ pre ++ b ∷ taken (cleared pid (length pre + 1) hs).0
release_next pid hs pre b e =
    rw
      (
        ← append_one pre (taken hs) b,
        ← length-append_one pre b,
        ← append_one pre (taken (cleared pid (length (pre ++ b ∷ [])) hs).0) b,
      )
      e

pub cleared-InStep :
    (pid : ℕ) (hs : Handlers) (pre : Lines)
    → run_all (cleared pid (length pre) hs).1 (pre ++ taken hs)
      ≡ pre ++ taken (cleared pid (length pre) hs).0
cleared-InStep pid [] pre = refl
cleared-InStep pid (h ∷ hs) pre = elim (Bool-cases (is_of pid h)) [
  | inl own ↦
      rw (own, is_of-taken pid h own)
        (ap (run_all (cleared pid (length pre + 1) hs).1) (set-append pre (taken hs) true false)
          ∙ release_next pid hs pre false (cleared-InStep pid hs (pre ++ false ∷ [])))
  | inr other ↦
      rw other
        (release_next pid hs pre (is_taken h) (cleared-InStep pid hs (pre ++ is_taken h ∷ [])))
]
