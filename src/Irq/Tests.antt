-- ===== src/Irq/Tests.antt =====
-- The interrupt table at concrete handlers.
use beet_core.Common.{
  ℕ, zero, suc, true, get_elem?, if◌then◌else◌, Bool, ◌≡◌, refl, arith, [], ◌∷◌, none, some,
}
use beet_core.Abi.Outcome.{ok, panic}
use beet_core.Abi.After.{Returns, After}
use beet_core.Irq.{
  free, user, kernel, Handlers, claim_user_at, interrupt_claim_user, interrupt_claim_kernel,
  interrupt_free, release_interrupts_for_pid, release_from, release_handler, handle, callback, mask,
  disable_irq,
}
use beet_core.Irq.Controller.{taken, state, InStep}
use beet_core.Irq.Lines.{OnLines, belongs_to}
use beet_core.Irq.Laws.{
  Keeps, commands_of, irq-InStep, handle-release_interrupts_for_pid, handle-interrupt_claim_user,
}

abbrev table : Handlers
table = free ∷ user 3 4096 (some 7) ∷ kernel 128 ∷ user 4 8192 none ∷ free ∷ []

table-OnLines : OnLines 0 table
table-OnLines zero h at t = ground (arith, at, t)
table-OnLines (suc zero) h at t = refl
table-OnLines (suc (suc zero)) h at t = refl
table-OnLines (suc (suc (suc zero))) h at t = refl
table-OnLines (suc (suc (suc (suc zero)))) h at t = refl
table-OnLines (suc (suc (suc (suc (suc i))))) h at t = ground (arith, at)

abbrev all_exist : ℕ → Bool
all_exist pid = true

irq-InStep_example :
    Keeps table (state (interrupt_claim_user table 4 3 64 none))
    × Keeps table (state (interrupt_claim_kernel table 4 64))
    × Keeps table (state (interrupt_free table 4 3))
    × Returns (Keeps table) (release_interrupts_for_pid table 3)
    × ((n : ℕ)
        → After
            (λ actions. InStep (taken table) (table, commands_of actions))
            (handle all_exist table n))
irq-InStep_example = irq-InStep all_exist table 4 3 64 none table-OnLines refl

handle-release_interrupts_for_pid_example :
    Returns
      (λ r. handle all_exist (r.0) 1 ≡ (
        if belongs_to 3 (get_elem? table 1)
        then ok (mask (disable_irq 1) ∷ [])
        else handle all_exist table 1))
      (release_interrupts_for_pid table 3)
handle-release_interrupts_for_pid_example =
    handle-release_interrupts_for_pid all_exist table 3 1 table-OnLines

handle-interrupt_claim_user_example :
    handle all_exist (interrupt_claim_user table 4 3 64 none).0 4 ≡ ok (callback 3 64 4 none)
unfolding interrupt_claim_user claim_user_at
handle-interrupt_claim_user_example =
    handle-interrupt_claim_user all_exist table 4 3 64 none refl refl

-- No `IrqNumber` names line 0, so that a handler there cannot be released.
unnamed_line : release_interrupts_for_pid (user 3 4096 none ∷ []) 3 ≡ panic
unfolding release_interrupts_for_pid release_from release_handler
unnamed_line = refl
