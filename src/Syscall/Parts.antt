-- ===== src/Syscall/Parts.antt =====
-- Each part of a syscall's words is read as it was written, and what is read keeps the promises of
-- its type (xous/xous-rs/src/syscall.rs).
use beet_core.Common.{ℕ, ◌%◌, ◌^◌, ◌≡◌, refl, arith, false, Option, none, some, ◌==◌}
use beet_core.Abi.Outcome.{ok}
use beet_core.Abi.Message.{MemoryRange, new_nonzero, get_or_zero}
use beet_core.Abi.Result.{Sid}
use beet_core.Abi.RoundTrip.{IsOptionNonZero, new_nonzero_lem}
use beet_core.Syscall.Words.{app_id_from, app_id_words, IsAppId, AppId, to_le_bytes-from_le_bytes}
use beet_core.Syscall.Call.{IsPid, IsOptionPid, IsSid, IsMemoryRange, IsStack, IsU32}
use beet_core.Syscall.Encode.{stack_addr, stack_len}
use beet_core.Syscall.Decode.{
  from_u32, pid_new, pid_from_usize, range_new, range_or_invalid, args_to_stack, to_u32,
}

pub u32_round : (n : ℕ) → IsU32 n → n % 2 ^ 32 ≡ n
u32_round n h = omega arith

pub sid_round : (sid : Sid) → IsSid sid → from_u32 sid.w0 sid.w1 sid.w2 sid.w3 ≡ sid
unfolding from_u32
sid_round sid (h0, h1, h2, h3) =
    rw (u32_round sid.w0 h0)
      (rw (u32_round sid.w1 h1) (rw (u32_round sid.w2 h2) (rw (u32_round sid.w3 h3) refl)))

pub from_u32-IsSid : (a b c d : ℕ) → IsSid (from_u32 a b c d)
unfolding from_u32
from_u32-IsSid a b c d = (omega arith, omega arith, omega arith, omega arith)

pub pid_round : (pid : ℕ) → IsPid pid → pid_new pid ≡ some pid
unfolding pid_new new_nonzero
pid_round pid h = ground (arith, h)

pub option_pid_round : (pid : Option ℕ) → IsOptionPid pid → pid_new (get_or_zero pid) ≡ pid
unfolding pid_new new_nonzero
option_pid_round none h = refl
option_pid_round (some pid) h = pid_round pid h

pub pid_new-IsOptionPid : (a : ℕ) → IsOptionPid (pid_new a)
unfolding pid_new new_nonzero
pid_new-IsOptionPid a = ground arith

pub pid_from_usize_round : (pid : ℕ) → IsPid pid → pid_from_usize pid ≡ ok pid
unfolding pid_from_usize
pid_from_usize_round pid h = ground (arith, pid_round pid h, h)

pub new_nonzero-IsOptionNonZero : (a : ℕ) → IsOptionNonZero (new_nonzero a)
unfolding new_nonzero
new_nonzero-IsOptionNonZero a = ground arith

pub range_round :
    (range : MemoryRange) → IsMemoryRange range → range_new range.addr range.size ≡ ok range
unfolding range_new
range_round range (ha, hs) =
    rw (new_nonzero_lem range.addr ha) (rw (new_nonzero_lem range.size hs) refl)

pub range_or_invalid_round :
    (range : MemoryRange) → IsMemoryRange range → range_or_invalid range.addr range.size ≡ ok range
unfolding range_or_invalid
range_or_invalid_round range h = rw (range_round range h) refl

pub stack_round :
    (stack : Option MemoryRange)
    → IsStack stack
    → args_to_stack (stack_addr stack) (stack_len stack) ≡ ok stack
unfolding args_to_stack
stack_round none h = refl
stack_round (some range) h =
    let nonzero : (range.addr == 0) ≡ false = ground (arith, h) in
    rw nonzero (rw (range_round range h) refl)

pub app_id_round :
    (id : AppId)
    → IsAppId id
    → app_id_from (app_id_words id).0 (app_id_words id).1 (app_id_words id).2 (app_id_words id).3
      ≡ id
unfolding app_id_from app_id_words
app_id_round id v = rw (to_le_bytes-from_le_bytes id.bytes0 v.at0) (
    rw (to_le_bytes-from_le_bytes id.bytes4 v.at4) (
      rw (to_le_bytes-from_le_bytes id.bytes8 v.at8)
        (rw (to_le_bytes-from_le_bytes id.bytes12 v.at12) refl)))

pub to_u32_round : (cid : ℕ) → IsU32 cid → to_u32 cid ≡ ok cid
unfolding to_u32
to_u32_round cid h = ground (arith, h)
