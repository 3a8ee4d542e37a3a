-- ===== src/Syscall/Read.antt =====
-- What the kernel reads from words keeps the promises of its type
-- (xous/xous-rs/src/syscall.rs): no `PID` is 0 and no range is empty.
use beet_core.Common.{ℕ, ◌%◌, ◌^◌, ◌≢◌, arith, Option, none, some, ◌==◌, ltb, Bool-cases, inl, inr}
use beet_core.Abi.Error.{Error}
use beet_core.Abi.Outcome.{Outcome, ok, err, panic, ok_or}
use beet_core.Abi.After.{After, After-then}
use beet_core.Abi.Message.{
  MemoryRange, MemoryMessage, Message, mutable_borrow, borrow, move, new_nonzero, try_from,
  memory_from_usize, memory_parts, map_memory, Words6,
}
use beet_core.Abi.Result.{Words7}
use beet_core.Abi.RoundTrip.{IsOptionNonZero, IsMemoryMessage, IsMessage}
use beet_core.Syscall.Words.{app_id_from-IsAppId, IsAppId}
use beet_core.Syscall.Call.{IsU32, IsPid, IsMemoryRange, IsStack, ProcessInit}
use beet_core.Syscall.Decode.{
  args_to_thread, args_to_stack, process_try_from, range_new, range_or_invalid, or_invalid, pid_new,
  pid_from_usize,
}
use beet_core.Syscall.Parts.{new_nonzero-IsOptionNonZero}

-- What holds of a value that is there.
abbrev pub Every : {A : Type 0} → (A → Type 0) → Option A → Type 0
Every P none = Unit {0}
Every P (some a) = P a

pub cut_to_word : (a : ℕ) → IsU32 (a % 2 ^ 32)
cut_to_word a = omega arith

pub new_nonzero-After : (a : ℕ) (e : Error) → After (λ n. n ≢ 0) (ok_or (new_nonzero a) e)
unfolding new_nonzero
new_nonzero-After a e = ground arith

pub pid_new-After : (a : ℕ) (e : Error) → After IsPid (ok_or (pid_new a) e)
unfolding pid_new new_nonzero
pid_new-After a e = ground arith

pub pid_from_usize-After : (a : ℕ) → After IsPid (pid_from_usize a)
unfolding pid_from_usize
pid_from_usize-After a = elim (Bool-cases (ltb 255 a)) [
  | inl big ↦ rw big tt
  | inr small ↦ rw small (pid_new-After a _)
]

pub range_new-After : (a s : ℕ) → After IsMemoryRange (range_new a s)
unfolding range_new
range_new-After a s =
    After-then (λ n. n ≢ 0) IsMemoryRange (ok_or (new_nonzero a) _) _ (new_nonzero-After a _)
      (λ x hx.
        After-then (λ n. n ≢ 0) IsMemoryRange (ok_or (new_nonzero s) _) _ (new_nonzero-After s _)
          (λ y hy. (hx, hy)))

or_invalid-After :
    (out : Outcome MemoryRange) → After IsMemoryRange out → After IsMemoryRange (or_invalid out)
or_invalid-After (ok range) h = h
or_invalid-After (err e) h = tt
or_invalid-After panic h = tt

pub range_or_invalid-After : (a s : ℕ) → After IsMemoryRange (range_or_invalid a s)
unfolding range_or_invalid
range_or_invalid-After a s = or_invalid-After (range_new a s) (range_new-After a s)

args_to_stack-After : (a s : ℕ) → After IsStack (args_to_stack a s)
unfolding args_to_stack
args_to_stack-After a s = elim (Bool-cases (a == 0)) [
  | inl at ↦ rw at tt
  | inr off ↦
      rw off (After-then IsMemoryRange IsStack (range_new a s) _ (range_new-After a s) (λ x hx. hx))
]

pub args_to_thread-After : (w : Words7) → After (λ init. IsStack init.stack) (args_to_thread w)
unfolding args_to_thread
args_to_thread-After (a1, a2, a3, a4, a5, a6, a7) =
    After-then IsStack (λ init. IsStack init.stack) (args_to_stack a2 a3) _
      (args_to_stack-After a2 a3) (λ x hx. hx)

-- The promises of a process' initial values
abbrev pub IsProcessInit : ProcessInit → Type 0
IsProcessInit init = IsMemoryRange init.elf × (init.name_addr ≢ 0) × IsAppId init.app_id

pub process_try_from-After : (w : Words7) → After IsProcessInit (process_try_from w)
unfolding process_try_from
process_try_from-After (a0, a1, a2, a3, a4, a5, a6) =
    After-then IsMemoryRange IsProcessInit (range_new a0 a1) _ (range_new-After a0 a1) (λ x hx.
      After-then (λ n. n ≢ 0) IsProcessInit (ok_or (new_nonzero a6) _) _ (new_nonzero-After a6 _)
        (λ y hy. (hx, hy, app_id_from-IsAppId a2 a3 a4 a5)))

memory_parts-Every :
    (a s : Option ℕ) (id offset valid : ℕ)
    → IsOptionNonZero a
    → IsOptionNonZero s
    → Every IsMemoryMessage (memory_parts a s id offset valid)
memory_parts-Every none s id offset valid ha hs = tt
memory_parts-Every (some a) none id offset valid ha hs = tt
memory_parts-Every (some a) (some s) id offset valid ha hs = record {
  addr_nonzero = ha;
  size_nonzero = hs;
  offset_nonzero = new_nonzero-IsOptionNonZero offset;
  valid_nonzero = new_nonzero-IsOptionNonZero valid;
}

memory_from_usize-Every :
    (id addr size offset valid : ℕ)
    → Every IsMemoryMessage (memory_from_usize id addr size offset valid)
unfolding memory_from_usize
memory_from_usize-Every id addr size offset valid =
    memory_parts-Every (new_nonzero addr) (new_nonzero size) id offset valid
      (new_nonzero-IsOptionNonZero addr) (new_nonzero-IsOptionNonZero size)

map_memory-Every :
    (kind : MemoryMessage → Message) (o : Option MemoryMessage)
    → ((m : MemoryMessage) → IsMemoryMessage m → IsMessage (kind m))
    → Every IsMemoryMessage o
    → Every IsMessage (map_memory kind o)
map_memory-Every kind none k h = tt
map_memory-Every kind (some m) k h = k m h

pub try_from-Every : (w : Words6) → Every IsMessage (try_from w)
unfolding try_from
try_from-Every (tag, id, w2, w3, w4, w5) =
    let mem = memory_from_usize-Every id w2 w3 w4 w5 in
    elim (Bool-cases (tag == 1)) [
      | inl t ↦ rw t (map_memory-Every mutable_borrow _ (λ m v. v) mem)
      | inr n1 ↦ elim (Bool-cases (tag == 2)) [
        | inl t ↦ rw n1 (rw t (map_memory-Every borrow _ (λ m v. v) mem))
        | inr n2 ↦ elim (Bool-cases (tag == 3)) [
          | inl t ↦ rw n1 (rw n2 (rw t (map_memory-Every move _ (λ m v. v) mem)))
          | inr n3 ↦ elim (Bool-cases (tag == 4)) [
            | inl t ↦ rw n1 (rw n2 (rw n3 (rw t tt)))
            | inr n4 ↦ elim (Bool-cases (tag == 5)) [
              | inl t ↦ rw n1 (rw n2 (rw n3 (rw n4 (rw t tt))))
              | inr n5 ↦ rw n1 (rw n2 (rw n3 (rw n4 (rw n5 tt))))
            ]
          ]
        ]
      ]
    ]
