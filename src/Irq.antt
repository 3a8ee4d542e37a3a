-- ===== src/Irq.antt =====
-- The interrupt table of xous/kernel/src/irq.rs: 32 lines, each free or with a handler. What the
-- interrupt controller is told, `arch::irq::enable_irq` and `disable_irq`, is a list of commands
-- that each operation returns in their order. A kernel handler stands as its address, and an
-- `IrqNumber` (xous/xous-rs/src/arch/aarch64/irq.rs) as its number.
mod Controller
mod Lines
mod Laws
mod Tests
use beet_core.Common.{
  ℕ, zero, suc, ◌+◌, Bool, true, false, List, [], ◌∷◌, Option, none, some, ◌==◌, if◌then◌else◌,
  get_elem?, set, ◌++◌, ltb, ◌&&◌,
}
use beet_core.Abi.Error.{interrupt_in_use, interrupt_not_found}
use beet_core.Abi.Outcome.{Outcome, ok, err, panic, ◌>>=◌}

pub data IrqHandler : Type 0 where
  free : IrqHandler
  user : (pid pc : ℕ) (arg : Option ℕ) → IrqHandler
  kernel : (handler : ℕ) → IrqHandler

pub data Command : Type 0 where
  enable_irq disable_irq : ℕ → Command

abbrev pub Handlers : Type 0
Handlers = List IrqHandler

-- The table and the commands that an operation leaves, with what it returns.
abbrev pub Step : Type 0
Step = Handlers × List Command × Outcome (Unit {0})

-- `interrupt_claim_user`, by what the table holds for the line
unfoldable pub claim_user_at : Handlers → ℕ → IrqHandler → Option IrqHandler → Step
claim_user_at self irq handler none = (self, [], panic)
claim_user_at self irq handler (some free) = (set self irq handler, enable_irq irq ∷ [], ok tt)
claim_user_at self irq handler (some (user pid pc arg)) = (self, [], err interrupt_in_use)
claim_user_at self irq handler (some (kernel f)) = (self, [], err interrupt_in_use)

unfoldable pub interrupt_claim_user : Handlers → ℕ → ℕ → ℕ → Option ℕ → Step
interrupt_claim_user self irq pid pc arg =
    claim_user_at self irq (user pid pc arg) (get_elem? self irq)

unfoldable pub claim_kernel_at : Handlers → ℕ → IrqHandler → Option IrqHandler → Step
claim_kernel_at self irq handler none = (self, [], panic)
claim_kernel_at self irq handler (some free) = (set self irq handler, enable_irq irq ∷ [], ok tt)
claim_kernel_at self irq handler (some (user pid pc arg)) = (self, [], panic)
claim_kernel_at self irq handler (some (kernel f)) = (self, [], panic)

unfoldable pub interrupt_claim_kernel : Handlers → ℕ → ℕ → Step
interrupt_claim_kernel self irq f = claim_kernel_at self irq (kernel f) (get_elem? self irq)

unfoldable pub free_at : Handlers → ℕ → ℕ → Option IrqHandler → Step
free_at self irq pid none = (self, [], panic)
free_at self irq pid (some free) = (self, [], err interrupt_not_found)
free_at self irq pid (some (kernel f)) = (self, [], err interrupt_not_found)
free_at self irq pid (some (user pid_mapped pc arg)) =
    if pid == pid_mapped
    then (set self irq free, disable_irq irq ∷ [], ok tt)
    else (self, [], err interrupt_not_found)

unfoldable pub interrupt_free : Handlers → ℕ → ℕ → Step
interrupt_free self irq pid = free_at self irq pid (get_elem? self irq)

-- Is this a handler of the process?
abbrev pub is_of : ℕ → IrqHandler → Bool
is_of pid free = false
is_of pid (user pid_mapped pc arg) = pid == pid_mapped
is_of pid (kernel f) = false

-- `IrqNumber::try_from(usize)`: only the lines 1 to 8 have an `IrqNumber`.
abbrev pub is_irq_number : ℕ → Bool
is_irq_number value = ltb 0 value && ltb value 9

-- The match on one handler: the line's number is unwrapped as an `IrqNumber`.
unfoldable pub release_handler : ℕ → ℕ → IrqHandler → Outcome (IrqHandler × List Command)
release_handler pid irq h =
    if is_of pid h
    then (if is_irq_number irq then ok (free, disable_irq irq ∷ []) else panic)
    else ok (h, [])

-- The loop over the lines, from line `irq`.
unfoldable pub release_from : ℕ → ℕ → Handlers → Outcome (Handlers × List Command)
release_from pid irq [] = ok ([], [])
release_from pid irq (h ∷ hs) = do
  (left, command) ← release_handler pid irq h
  (rest, commands) ← release_from pid (irq + 1) hs
  ok (left ∷ rest, command ++ commands)

unfoldable pub release_interrupts_for_pid : Handlers → ℕ → Outcome (Handlers × List Command)
release_interrupts_for_pid self pid = release_from pid 0 self

-- The calls of `handle`, in their order: those that make the interrupt thread of a process current
-- and start it at the handler, a call of a kernel handler, and the masking of a line.
pub data Action : Type 0 where
  set_thread_ready : (pid tid : ℕ) → Action
  activate : (pid : ℕ) → Action
  set_tid : (tid : ℕ) → Action
  run_irq_handler : (pc irq arg : ℕ) → Action
  call : (handler : ℕ) → Action
  mask : Command → Action

abbrev pub irq_tid : ℕ
irq_tid = 0

abbrev pub arg_or_zero : Option ℕ → ℕ
arg_or_zero none = 0
arg_or_zero (some a) = a

abbrev pub callback : ℕ → ℕ → ℕ → Option ℕ → List Action
callback pid pc irq arg =
    set_thread_ready pid irq_tid
    ∷ activate pid
    ∷ set_tid irq_tid
    ∷ run_irq_handler pc irq (arg_or_zero arg)
    ∷ []

-- `is_process` says which processes exist: the process of a handler is unwrapped.
unfoldable pub handle_at : (ℕ → Bool) → ℕ → Option IrqHandler → Outcome (List Action)
handle_at is_process irq none = panic
handle_at is_process irq (some free) = ok (mask (disable_irq irq) ∷ [])
handle_at is_process irq (some (user pid pc arg)) =
    if is_process pid then ok (callback pid pc irq arg) else panic
handle_at is_process irq (some (kernel f)) = ok (call f ∷ [])

unfoldable pub handle : (ℕ → Bool) → Handlers → ℕ → Outcome (List Action)
handle is_process self irq = handle_at is_process irq (get_elem? self irq)

-- The calls of the function by `for_user_each_irq`, and by `for_kernel_each_irq`, from line `irq`.
unfoldable pub for_user_each_irq : ℕ → Handlers → List (ℕ × ℕ × ℕ × Option ℕ)
for_user_each_irq irq [] = []
for_user_each_irq irq (free ∷ hs) = for_user_each_irq (irq + 1) hs
for_user_each_irq irq (user pid pc arg ∷ hs) = (irq, pid, pc, arg) ∷ for_user_each_irq (irq + 1) hs
for_user_each_irq irq (kernel f ∷ hs) = for_user_each_irq (irq + 1) hs

unfoldable pub for_kernel_each_irq : ℕ → Handlers → List ℕ
for_kernel_each_irq irq [] = []
for_kernel_each_irq irq (free ∷ hs) = for_kernel_each_irq (irq + 1) hs
for_kernel_each_irq irq (user pid pc arg ∷ hs) = for_kernel_each_irq (irq + 1) hs
for_kernel_each_irq irq (kernel f ∷ hs) = irq ∷ for_kernel_each_irq (irq + 1) hs
