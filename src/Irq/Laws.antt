-- ===== src/Irq/Laws.antt =====
-- The interrupt table and the interrupt controller stay in step, and a process that goes leaves no
-- handler.
use beet_core.Common.{
  ℕ, zero, suc, ◌+◌, ◌≡◌, ◌∙◌, refl, ap, sym, arith, Bool, true, List, [], ◌∷◌, Option, none, some,
  get_elem?, set, ◌==◌, if◌then◌else◌, get_elem?-lt, get_elem?-set_self, Bool-cases, inl, inr,
}
use beet_core.Abi.Outcome.{ok}
use beet_core.Abi.After.{Returns, After}
use beet_core.Irq.{
  callback, IrqHandler, free, user, kernel, Command, disable_irq, Handlers, claim_user_at,
  interrupt_claim_user, claim_kernel_at, interrupt_claim_kernel, free_at, interrupt_free,
  is_irq_number, release_interrupts_for_pid, Action, mask, handle_at, handle,
}
use beet_core.Irq.Controller.{
  taken, taken-set, InStep, state, claim_user_at-InStep, claim_kernel_at-InStep, free_at-InStep,
  cleared, cleared-InStep,
}
use beet_core.Irq.Lines.{
  get_elem?-cleared, eq_of_some_free, belongs_to, handle_at-release, OnLines, OnLines-set,
  release_from-cleared, cleared-OnLines,
}

-- Only lines that an `IrqNumber` names have handlers, and the enabled lines are still the ones that
-- have one.
abbrev pub Keeps : Handlers → Handlers × List Command → Type 0
Keeps self step = InStep (taken self) step × OnLines 0 step.0

module _ (self : Handlers) (irq : ℕ) (o : OnLines 0 self) (line : is_irq_number irq ≡ true) where
  line_at : is_irq_number (0 + irq) ≡ true
  line_at = ap is_irq_number {x = 0 + irq} {y = irq} (omega arith) ∙ line

  claim_user_at-OnLines :
      (pid pc : ℕ) (arg : Option ℕ) (old : Option IrqHandler)
      → OnLines 0 (claim_user_at self irq (user pid pc arg) old).0
  unfolding claim_user_at
  claim_user_at-OnLines pid pc arg none = o
  claim_user_at-OnLines pid pc arg (some free) = OnLines-set 0 self irq _ (λ t. line_at) o
  claim_user_at-OnLines pid pc arg (some (user p c a)) = o
  claim_user_at-OnLines pid pc arg (some (kernel f)) = o

  claim_kernel_at-OnLines :
      (f : ℕ) (old : Option IrqHandler) → OnLines 0 (claim_kernel_at self irq (kernel f) old).0
  unfolding claim_kernel_at
  claim_kernel_at-OnLines f none = o
  claim_kernel_at-OnLines f (some free) = OnLines-set 0 self irq _ (λ t. line_at) o
  claim_kernel_at-OnLines f (some (user p c a)) = o
  claim_kernel_at-OnLines f (some (kernel g)) = o

  free_at-OnLines : (pid : ℕ) (old : Option IrqHandler) → OnLines 0 (free_at self irq pid old).0
  unfolding free_at
  free_at-OnLines pid none = o
  free_at-OnLines pid (some free) = o
  free_at-OnLines pid (some (kernel f)) = o
  free_at-OnLines pid (some (user p c a)) = elim (Bool-cases (pid == p)) [
    | inl own ↦ rw own (OnLines-set 0 self irq free (λ t. line_at) o)
    | inr other ↦ rw other o
  ]

-- What the controller is told by the calls of `handle`.
abbrev pub commands_of : List Action → List Command
commands_of [] = []
commands_of (mask c ∷ actions) = c ∷ commands_of actions
commands_of (_ ∷ actions) = commands_of actions

set-free : (self : Handlers) (irq : ℕ) → get_elem? self irq ≡ some free → set self irq free ≡ self
set-free [] irq e = refl
set-free (x ∷ xs) zero e = ap (λ h. h ∷ xs) (eq_of_some_free e)
set-free (x ∷ xs) (suc irq) e = ap (λ t. x ∷ t) (set-free xs irq e)

handle_at-InStep :
    (is_process : ℕ → Bool) (self : Handlers) (irq : ℕ) (old : Option IrqHandler)
    → get_elem? self irq ≡ old
    → After
        (λ actions. InStep (taken self) (self, commands_of actions))
        (handle_at is_process irq old)
unfolding handle_at
handle_at-InStep is_process self irq none e = tt
handle_at-InStep is_process self irq (some free) e =
    sym (taken-set self irq free) ∙ ap taken (set-free self irq e)
handle_at-InStep is_process self irq (some (user pid pc arg)) e =
    elim (Bool-cases (is_process pid)) [ inl there ↦ rw there refl | inr gone ↦ rw gone tt ]
handle_at-InStep is_process self irq (some (kernel f)) e = refl

-- When the enabled lines are the ones that have a handler, and only lines that an `IrqNumber` names
-- have one, both still hold after a claim of such a line for a process or for the kernel, after its
-- release, whatever each returns, and after the release of all the lines of a process, which does
-- not panic; and the enabled lines are still those with a handler after an interrupt on any line
-- that `handle` does not panic at.
pub irq-InStep :
    (is_process : ℕ → Bool) (self : Handlers) (irq pid pc : ℕ) (arg : Option ℕ)
    → OnLines 0 self
    → is_irq_number irq ≡ true
    → Keeps self (state (interrupt_claim_user self irq pid pc arg))
      × Keeps self (state (interrupt_claim_kernel self irq pc))
      × Keeps self (state (interrupt_free self irq pid))
      × Returns (Keeps self) (release_interrupts_for_pid self pid)
      × ((n : ℕ)
          → After
              (λ actions. InStep (taken self) (self, commands_of actions))
              (handle is_process self n))
unfolding interrupt_claim_user interrupt_claim_kernel interrupt_free release_interrupts_for_pid
    handle
irq-InStep is_process self irq pid pc arg o line = (
  (claim_user_at-InStep self irq pid pc arg _, claim_user_at-OnLines self irq o line pid pc arg _),
  (claim_kernel_at-InStep self irq pc _, claim_kernel_at-OnLines self irq o line pc _),
  (free_at-InStep self irq pid _, free_at-OnLines self irq o line pid _),
  (
    cleared pid 0 self,
    release_from-cleared pid 0 self o,
    (cleared-InStep pid self [], cleared-OnLines pid 0 self o),
  ),
  λ n. handle_at-InStep is_process self n (get_elem? self n) refl,
)

-- When only lines that an `IrqNumber` names have handlers, `release_interrupts_for_pid` does not
-- panic, and after it an interrupt on a line of the process masks the line, and every other
-- interrupt is handled as before.
pub handle-release_interrupts_for_pid :
    (is_process : ℕ → Bool) (self : Handlers) (pid irq : ℕ)
    → OnLines 0 self
    → Returns
        (λ r. handle is_process (r.0) irq ≡ (
          if belongs_to pid (get_elem? self irq)
          then ok (mask (disable_irq irq) ∷ [])
          else handle is_process self irq))
        (release_interrupts_for_pid self pid)
unfolding handle release_interrupts_for_pid
handle-release_interrupts_for_pid is_process self pid irq o = (
  cleared pid 0 self,
  release_from-cleared pid 0 self o,
  rw (get_elem?-cleared pid 0 self irq) (handle_at-release is_process pid irq (get_elem? self irq)),
)

claim_user_at-handled :
    (is_process : ℕ → Bool) (self : Handlers) (irq pid pc : ℕ) (arg : Option ℕ)
    (old : Option IrqHandler)
    → get_elem? self irq ≡ old
    → is_process pid ≡ true
    → (claim_user_at self irq (user pid pc arg) old).2 ≡ ok tt
    → handle is_process (claim_user_at self irq (user pid pc arg) old).0 irq
      ≡ ok (callback pid pc irq arg)
unfolding claim_user_at handle handle_at
claim_user_at-handled is_process self irq pid pc arg none e there done = ground arith
claim_user_at-handled is_process self irq pid pc arg (some free) e there done =
    rw (get_elem?-set_self self irq (user pid pc arg) (get_elem?-lt self irq e), there) refl
claim_user_at-handled is_process self irq pid pc arg (some (user p c a)) e there done = ground arith
claim_user_at-handled is_process self irq pid pc arg (some (kernel f)) e there done = ground arith

-- After a successful claim by a process that exists, an interrupt on the line makes the interrupt
-- thread of that process current and starts it at the claimed address with the line's number and
-- the claimed argument.
pub handle-interrupt_claim_user :
    (is_process : ℕ → Bool) (self : Handlers) (irq pid pc : ℕ) (arg : Option ℕ)
    → is_process pid ≡ true
    → (interrupt_claim_user self irq pid pc arg).2 ≡ ok tt
    → handle is_process (interrupt_claim_user self irq pid pc arg).0 irq
      ≡ ok (callback pid pc irq arg)
unfolding interrupt_claim_user
handle-interrupt_claim_user is_process self irq pid pc arg there done =
    claim_user_at-handled is_process self irq pid pc arg (get_elem? self irq) refl there done
