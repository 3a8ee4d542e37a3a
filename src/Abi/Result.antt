-- ===== src/Abi/Result.antt =====
-- `enum Result` of xous/xous-rs/src/definitions.rs, the value of a syscall, and its encoding in
-- eight registers. `ProcessStartup` is that of aarch64, a process id
-- (xous/xous-rs/src/arch/aarch64/process.rs).
use mathlib.Core.Option.{Option, some}
use beet_core.Common.{ℕ, ◌%◌, ◌^◌, ◌==◌, if◌then◌else◌}
use beet_core.Abi.Error.{Error, from_usize, to_usize, usize_max, internal_error}
use beet_core.Abi.Outcome.{Outcome}
use beet_core.Abi.Message.{
  MemoryRange, Message, Envelope, mutable_borrow, borrow, move, scalar, blocking_scalar,
  new_nonzero, get_or_zero, memory_from_usize, scalar_from_usize, message_to_usize, MemoryMessage,
}

-- `SID([u32; 4])`
pub record Sid : Type 0 where
  pub w0 : ℕ
  pub w1 : ℕ
  pub w2 : ℕ
  pub w3 : ℕ

abbrev pub Words7 : Type 0
Words7 = ℕ × ℕ × ℕ × ℕ × ℕ × ℕ × ℕ

abbrev pub Words8 : Type 0
Words8 = ℕ × ℕ × ℕ × ℕ × ℕ × ℕ × ℕ × ℕ

pub data Result : Type 0 where
  ok : Result
  error : Error → Result
  memory_address : ℕ → Result
  memory_range : MemoryRange → Result
  ready_threads : Words7 → Result
  resume_process : Result
  server_id : Sid → Result
  connection_id : ℕ → Result
  new_server_id : Sid → Result
  message_envelope : Envelope → Result
  thread_id : ℕ → Result
  process_id : ℕ → Result
  unimplemented : Result
  blocked_process : Result
  scalar1 : ℕ → Result
  scalar2 : ℕ → ℕ → Result
  retry_call : Result
  none : Result
  memory_returned : Option ℕ → Option ℕ → Result
  new_process : ℕ → Result
  scalar5 : ℕ → ℕ → ℕ → ℕ → ℕ → Result
  message : Message → Result
  unknown_result : Words7 → Result

unfoldable pub to_args : Result → Words8
unfolding to_usize message_to_usize
to_args ok = (0, 0, 0, 0, 0, 0, 0, 0)
to_args (error e) = (1, to_usize e, 0, 0, 0, 0, 0, 0)
to_args (memory_address s) = (2, s, 0, 0, 0, 0, 0, 0)
to_args (memory_range r) = (3, r.addr, r.size, 0, 0, 0, 0, 0)
to_args (ready_threads (count, pid0, ctx0, pid1, ctx1, pid2, ctx2)) =
    (4, count, pid0, ctx0, pid1, ctx1, pid2, ctx2)
to_args resume_process = (5, 0, 0, 0, 0, 0, 0, 0)
to_args (server_id s) = (6, s.w0, s.w1, s.w2, s.w3, 0, 0, 0)
to_args (connection_id cid) = (7, cid, 0, 0, 0, 0, 0, 0)
to_args (message_envelope me) =
    let (a, b, c, d, e, f) = message_to_usize me.body in (9, me.sender, a, b, c, d, e, f)
to_args (thread_id ctx) = (10, ctx, 0, 0, 0, 0, 0, 0)
to_args (process_id pid) = (11, pid, 0, 0, 0, 0, 0, 0)
to_args unimplemented = (21, 0, 0, 0, 0, 0, 0, 0)
to_args blocked_process = (13, 0, 0, 0, 0, 0, 0, 0)
to_args (scalar1 a) = (14, a, 0, 0, 0, 0, 0, 0)
to_args (scalar2 a b) = (15, a, b, 0, 0, 0, 0, 0)
to_args (new_server_id s) = (8, s.w0, s.w1, s.w2, s.w3, 0, 0, 0)
to_args retry_call = (16, 0, 0, 0, 0, 0, 0, 0)
to_args none = (17, 0, 0, 0, 0, 0, 0, 0)
to_args (memory_returned offset valid) = (18, get_or_zero offset, get_or_zero valid, 0, 0, 0, 0, 0)
to_args (new_process pid) = (19, pid, 0, 0, 0, 0, 0, 0)
to_args (scalar5 a b c d e) = (20, a, b, c, d, e, 0, 0)
to_args (message m) = let (a, b, c, d, e, f) = message_to_usize m in (21, a, b, c, d, e, f, 0)
to_args (unknown_result (a, b, c, d, e, f, g)) = (usize_max, a, b, c, d, e, f, g)

-- `as u32`
abbrev pub to_u32 : ℕ → ℕ
to_u32 n = n % 2 ^ 32

-- What `from_args` does with a message's words, for `MessageEnvelope` and for `Message`: the
-- message is put under `k`, and words that code no message give `InternalError`.
abbrev decode_memory :
    (Message → Result) → (MemoryMessage → Message) → Option MemoryMessage → Result
decode_memory k f Option.none = error internal_error
decode_memory k f (some m) = k (f m)

unfoldable pub decode_message : (Message → Result) → ℕ → ℕ → ℕ → ℕ → ℕ → ℕ → Result
unfolding memory_from_usize scalar_from_usize
decode_message k tag w1 w2 w3 w4 w5 =
    let mem = memory_from_usize w1 w2 w3 w4 w5 in
    let args = scalar_from_usize w1 w2 w3 w4 w5 in
    if tag == 0
    then decode_memory k mutable_borrow mem
    else if tag == 1
    then decode_memory k borrow mem
    else if tag == 2
    then decode_memory k move mem
    else if tag == 3
    then k (scalar args)
    else if tag == 4
    then k (blocking_scalar args)
    else error internal_error

abbrev decode_address : Option ℕ → Result
decode_address Option.none = error internal_error
decode_address (some s) = memory_address s

abbrev decode_range : Option ℕ → Option ℕ → Result
decode_range Option.none size = error internal_error
decode_range (some a) Option.none = error internal_error
decode_range (some a) (some s) = memory_range (record { addr = a; size = s })

-- `ProcessID(PID::new(src[1] as _).unwrap())` panics on a register whose low byte is 0.
abbrev decode_pid : Option ℕ → Outcome Result
decode_pid Option.none = Outcome.panic
decode_pid (some p) = Outcome.ok (process_id p)

-- `impl From<[usize; 8]> for ProcessStartup`
abbrev startup_pid : Option ℕ → ℕ
startup_pid Option.none = 1
startup_pid (some pid) = pid

unfoldable pub from_args : Words8 → Outcome Result
unfolding decode_message
from_args (op, s1, s2, s3, s4, s5, s6, s7) =
    if op == 0
    then Outcome.ok ok
    else if op == 1
    then Outcome.ok (error (from_usize s1))
    else if op == 2
    then Outcome.ok (decode_address (new_nonzero s1))
    else if op == 3
    then Outcome.ok (decode_range (new_nonzero s1) (new_nonzero s2))
    else if op == 4
    then Outcome.ok (ready_threads (s1, s2, s3, s4, s5, s6, s7))
    else if op == 5
    then Outcome.ok resume_process
    else if op == 6
    then Outcome.ok (server_id sid)
    else if op == 7
    then Outcome.ok (connection_id (to_u32 s1))
    else if op == 8
    then Outcome.ok (new_server_id sid)
    else if op == 9
    then Outcome.ok (decode_message (envelope s1) s2 s3 s4 s5 s6 s7)
    else if op == 10
    then Outcome.ok (thread_id s1)
    else if op == 11
    then decode_pid (new_nonzero (s1 % 256))
    else if op == 12
    then Outcome.ok unimplemented
    else if op == 13
    then Outcome.ok blocked_process
    else if op == 14
    then Outcome.ok (scalar1 s1)
    else if op == 15
    then Outcome.ok (scalar2 s1 s2)
    else if op == 16
    then Outcome.ok retry_call
    else if op == 17
    then Outcome.ok none
    else if op == 18
    then Outcome.ok (memory_returned (new_nonzero s1) (new_nonzero s2))
    else if op == 19
    then Outcome.ok (new_process (startup_pid (new_nonzero (s1 % 256))))
    else if op == 20
    then Outcome.ok (scalar5 s1 s2 s3 s4 s5)
    else if op == 21
    then Outcome.ok (decode_message message s1 s2 s3 s4 s5 s6)
    else Outcome.ok (unknown_result (op, s1, s2, s3, s4, s5, s6))
  where
    sid : Sid
    sid = record { w0 = to_u32 s1; w1 = to_u32 s2; w2 = to_u32 s3; w3 = to_u32 s4 }

    envelope : ℕ → Message → Result
    envelope s m = message_envelope (record { sender = s; body = m })
