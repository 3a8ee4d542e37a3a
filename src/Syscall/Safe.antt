-- ===== src/Syscall/Safe.antt =====
-- When the kernel's decoding of a syscall (xous/xous-rs/src/syscall.rs) cannot panic.
use beet_core.Common.{ℕ, ◌≢◌, subst, Option, none, some, ◌==◌, ltb, Bool-cases, inl, inr}
use beet_core.Abi.Error.{Error}
use beet_core.Abi.Outcome.{Outcome, ok, err, panic, ok_or, ◌>>=◌}
use beet_core.Abi.Message.{
  MemoryRange, MemoryMessage, Message, mutable_borrow, borrow, move, new_nonzero, try_from,
}
use beet_core.Abi.Result.{Words7}
use beet_core.Syscall.Number.{SysCallNumber, from}
use beet_core.Syscall.Call.{IsU32}
use beet_core.Syscall.Decode.{
  from_args, decode, send_decoded, try_send_decoded, try_send_memory, args_to_thread, args_to_stack,
  process_try_from, range_new, range_or_invalid, or_invalid, pid_new, pid_from_usize,
}
use beet_core.Syscall.Parts.{to_u32_round}

-- The operation returns a value or an error.
abbrev Safe {ℓ} : {A : Type ℓ} → Outcome A → Type 0
Safe (ok a) = Unit {0}
Safe (err e) = Unit {0}
Safe panic = ⊥

Safe-bind {ℓ κ} :
    {A : Type ℓ} {B : Type κ} (m : Outcome A) (f : A → Outcome B)
    → Safe m
    → ((a : A) → Safe (f a))
    → Safe (m >>= f)
Safe-bind (ok a) f h k = k a
Safe-bind (err e) f h k = tt
Safe-bind panic f h k = h

ok_or-Safe {ℓ} : {A : Type ℓ} (o : Option A) (e : Error) → Safe (ok_or o e)
ok_or-Safe none e = tt
ok_or-Safe (some a) e = tt

range_new-Safe : (a s : ℕ) → Safe (range_new a s)
unfolding range_new
range_new-Safe a s =
    Safe-bind (ok_or (new_nonzero a) _) _ (ok_or-Safe (new_nonzero a) _)
      (λ x. Safe-bind (ok_or (new_nonzero s) _) _ (ok_or-Safe (new_nonzero s) _) (λ y. tt))

or_invalid-Safe : (out : Outcome MemoryRange) → Safe out → Safe (or_invalid out)
or_invalid-Safe (ok range) h = tt
or_invalid-Safe (err e) h = tt
or_invalid-Safe panic h = h

range_or_invalid-Safe : (a s : ℕ) → Safe (range_or_invalid a s)
unfolding range_or_invalid
range_or_invalid-Safe a s = or_invalid-Safe (range_new a s) (range_new-Safe a s)

pid_from_usize-Safe : (a : ℕ) → Safe (pid_from_usize a)
unfolding pid_from_usize
pid_from_usize-Safe a = elim (Bool-cases (ltb 255 a)) [
  | inl big ↦ rw big tt
  | inr small ↦ rw small (ok_or-Safe (pid_new a) _)
]

args_to_stack-Safe : (a s : ℕ) → Safe (args_to_stack a s)
unfolding args_to_stack
args_to_stack-Safe a s = elim (Bool-cases (a == 0)) [
  | inl at ↦ rw at tt
  | inr off ↦ rw off (Safe-bind (range_new a s) _ (range_new-Safe a s) (λ x. tt))
]

args_to_thread-Safe : (w : Words7) → Safe (args_to_thread w)
unfolding args_to_thread
args_to_thread-Safe (a1, a2, a3, a4, a5, a6, a7) =
    Safe-bind (args_to_stack a2 a3) _ (args_to_stack-Safe a2 a3) (λ x. tt)

process_try_from-Safe : (w : Words7) → Safe (process_try_from w)
unfolding process_try_from
process_try_from-Safe (a0, a1, a2, a3, a4, a5, a6) =
    Safe-bind (range_new a0 a1) _ (range_new-Safe a0 a1)
      (λ x. Safe-bind (ok_or (new_nonzero a6) _) _ (ok_or-Safe (new_nonzero a6) _) (λ y. tt))

send_decoded-Safe :
    (o : Option Message) (a1 a2 a3 a4 a5 a6 a7 : ℕ)
    → IsU32 a1
    → Safe (send_decoded o (a1, a2, a3, a4, a5, a6, a7))
unfolding send_decoded
send_decoded-Safe none a1 a2 a3 a4 a5 a6 a7 h = tt
send_decoded-Safe (some m) a1 a2 a3 a4 a5 a6 a7 h = rw (to_u32_round a1 h) tt

try_send_memory-Safe : (w : Words7) (kind : MemoryMessage → Message) → Safe (try_send_memory w kind)
try_send_memory-Safe (a1, a2, a3, a4, a5, a6, a7) kind =
    Safe-bind (range_new a4 a5) _ (range_new-Safe a4 a5) (λ x. tt)

try_send_decoded-Safe :
    (a1 a2 a3 a4 a5 a6 a7 : ℕ) → IsU32 a1 → Safe (try_send_decoded (a1, a2, a3, a4, a5, a6, a7))
unfolding try_send_decoded
try_send_decoded-Safe a1 a2 a3 a4 a5 a6 a7 h =
    let w : Words7 = (a1, a2, a3, a4, a5, a6, a7) in
    elim (Bool-cases (a2 == 1)) [
      | inl t ↦ rw t (try_send_memory-Safe w mutable_borrow)
      | inr n1 ↦ elim (Bool-cases (a2 == 2)) [
        | inl t ↦ rw n1 (rw t (try_send_memory-Safe w borrow))
        | inr n2 ↦ elim (Bool-cases (a2 == 3)) [
          | inl t ↦ rw n1 (rw n2 (rw t (try_send_memory-Safe w move)))
          | inr n3 ↦ elim (Bool-cases (a2 == 4)) [
            | inl t ↦ rw n1 (rw n2 (rw n3 (rw t tt)))
            | inr n4 ↦ elim (Bool-cases (a2 == 5)) [
              | inl t ↦ rw n1 (rw n2 (rw n3 (rw n4 (rw t (rw (to_u32_round a1 h) tt)))))
              | inr n5 ↦ rw n1 (rw n2 (rw n3 (rw n4 (rw n5 tt))))
            ]
          ]
        ]
      ]
    ]

decode-Safe :
    (number : SysCallNumber) (a1 a2 a3 a4 a5 a6 a7 : ℕ)
    → IsU32 a1
    → Safe (decode number (a1, a2, a3, a4, a5, a6, a7))
unfolding decode
decode-Safe SysCallNumber.map_memory a1 a2 a3 a4 a5 a6 a7 h =
    Safe-bind (ok_or (new_nonzero a3) _) _ (ok_or-Safe (new_nonzero a3) _) (λ x0. tt)
decode-Safe SysCallNumber.unmap_memory a1 a2 a3 a4 a5 a6 a7 h =
    Safe-bind (range_or_invalid a1 a2) _ (range_or_invalid-Safe a1 a2) (λ x0. tt)
decode-Safe SysCallNumber.increase_heap a1 a2 a3 a4 a5 a6 a7 h =
    Safe-bind (ok_or (new_nonzero a1) _) _ (ok_or-Safe (new_nonzero a1) _) (λ x0. tt)
decode-Safe SysCallNumber.update_memory_flags a1 a2 a3 a4 a5 a6 a7 h =
    Safe-bind (range_new a1 a2) _ (range_new-Safe a1 a2) (λ x0. tt)
decode-Safe SysCallNumber.claim_interrupt a1 a2 a3 a4 a5 a6 a7 h =
    Safe-bind (ok_or (new_nonzero a2) _) _ (ok_or-Safe (new_nonzero a2) _) (λ x0. tt)
decode-Safe SysCallNumber.send_message a1 a2 a3 a4 a5 a6 a7 h =
    send_decoded-Safe (try_from (a2, a3, a4, a5, a6, a7)) a1 a2 a3 a4 a5 a6 a7 h
decode-Safe SysCallNumber.try_send_message a1 a2 a3 a4 a5 a6 a7 h =
    try_send_decoded-Safe a1 a2 a3 a4 a5 a6 a7 h
decode-Safe SysCallNumber.return_memory a1 a2 a3 a4 a5 a6 a7 h =
    Safe-bind (range_new a2 a3) _ (range_new-Safe a2 a3) (λ x0. tt)
decode-Safe SysCallNumber.create_thread a1 a2 a3 a4 a5 a6 a7 h =
    Safe-bind (args_to_thread (a1, a2, a3, a4, a5, a6, a7)) _
      (args_to_thread-Safe (a1, a2, a3, a4, a5, a6, a7)) (λ x. tt)
decode-Safe SysCallNumber.create_process a1 a2 a3 a4 a5 a6 a7 h =
    Safe-bind (process_try_from (a1, a2, a3, a4, a5, a6, a7)) _
      (process_try_from-Safe (a1, a2, a3, a4, a5, a6, a7)) (λ x. tt)
decode-Safe SysCallNumber.terminate_pid a1 a2 a3 a4 a5 a6 a7 h =
    Safe-bind (ok_or (pid_new a1) _) _ (ok_or-Safe (pid_new a1) _) (λ x0. tt)
decode-Safe SysCallNumber.connect_for_process a1 a2 a3 a4 a5 a6 a7 h =
    Safe-bind (ok_or (pid_new a1) _) _ (ok_or-Safe (pid_new a1) _) (λ x0. tt)
decode-Safe SysCallNumber.virt_to_phys_pid a1 a2 a3 a4 a5 a6 a7 h =
    Safe-bind (pid_from_usize a1) _ (pid_from_usize-Safe a1) (λ x0. tt)
decode-Safe SysCallNumber.get_app_id a1 a2 a3 a4 a5 a6 a7 h =
    Safe-bind (ok_or (pid_new a1) _) _ (ok_or-Safe (pid_new a1) _) (λ x0. tt)
decode-Safe SysCallNumber.allow_messages_cid a1 a2 a3 a4 a5 a6 a7 h =
    Safe-bind (ok_or (pid_new a1) _) _ (ok_or-Safe (pid_new a1) _) (λ x0. tt)
decode-Safe SysCallNumber.invalidate_cache a1 a2 a3 a4 a5 a6 a7 h =
    Safe-bind (range_new a1 a2) _ (range_new-Safe a1 a2) (λ x0. tt)
decode-Safe SysCallNumber.mirror_memory_to_pid a1 a2 a3 a4 a5 a6 a7 h =
    Safe-bind (range_new a1 a2) _ (range_new-Safe a1 a2)
      (λ x1. Safe-bind (ok_or (pid_new a3) _) _ (ok_or-Safe (pid_new a3) _) (λ x0. tt))
decode-Safe SysCallNumber.debug_command a1 a2 a3 a4 a5 a6 a7 h =
    Safe-bind (range_new a1 a2) _ (range_new-Safe a1 a2) (λ x0. tt)
decode-Safe SysCallNumber.get_panic_message a1 a2 a3 a4 a5 a6 a7 h =
    Safe-bind (range_new a1 a2) _ (range_new-Safe a1 a2) (λ x0. tt)
decode-Safe SysCallNumber.wait_process a1 a2 a3 a4 a5 a6 a7 h =
    Safe-bind (ok_or (pid_new a1) _) _ (ok_or-Safe (pid_new a1) _) (λ x0. tt)
decode-Safe SysCallNumber.post_event a1 a2 a3 a4 a5 a6 a7 h =
    Safe-bind (ok_or (pid_new a1) _) _ (ok_or-Safe (pid_new a1) _) (λ x0. tt)
decode-Safe _ a1 a2 a3 a4 a5 a6 a7 h = tt

Safe-ne_panic {ℓ} : {A : Type ℓ} (out : Outcome A) → Safe out → out ≢ panic
Safe-ne_panic out h = λ e. subst Safe e h

-- When the first argument fits in a u32, as a connection id does, no syscall number and no other
-- arguments make the decoding panic.
pub from_args-no_panic :
    (a0 a1 a2 a3 a4 a5 a6 a7 : ℕ) → IsU32 a1 → from_args (a0, a1, a2, a3, a4, a5, a6, a7) ≢ panic
unfolding from_args
from_args-no_panic a0 a1 a2 a3 a4 a5 a6 a7 h =
    Safe-ne_panic (decode (from a0) (a1, a2, a3, a4, a5, a6, a7))
      (decode-Safe (from a0) a1 a2 a3 a4 a5 a6 a7 h)
