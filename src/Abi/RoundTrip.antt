-- ===== src/Abi/RoundTrip.antt =====
-- The codecs of xous/xous-rs/src/definitions.rs invert one another.
use mathlib.Core.Option.{Option, none, some}
use beet_core.Common.{ℕ, ◌^◌, ◌<◌, ◌≡◌, refl, ◌≢◌, ap, arith}
use beet_core.Abi.Error.{Error, no_error, from_usize, to_usize, usize_max}
use beet_core.Abi.Outcome.{Outcome}
use beet_core.Abi.Message.{
  MemoryMessage, Message, mutable_borrow, borrow, move, scalar, blocking_scalar, new_nonzero,
  memory_from_usize, message_to_usize, message_type, try_from, get_or_zero, Words6,
}
use beet_core.Abi.Result.{Result, Sid, to_args, from_args, decode_message}

-- Every error code survives the way to user space and back.
pub from_usize-to_usize : (e : Error) → from_usize (to_usize e) ≡ e
unfolding from_usize to_usize
from_usize-to_usize no_error = refl
from_usize-to_usize _ = refl

abbrev pub IsNonZero : ℕ → Type 0
IsNonZero n = n ≢ 0

-- A `Some` of a non-zero type
abbrev pub IsOptionNonZero : Option ℕ → Type 0
IsOptionNonZero none = Unit {0}
IsOptionNonZero (some n) = n ≢ 0

pub record IsMemoryMessage (m : MemoryMessage) : Type 0 where
  pub addr_nonzero : m.buf.addr ≢ 0
  pub size_nonzero : m.buf.size ≢ 0
  pub offset_nonzero : IsOptionNonZero m.offset
  pub valid_nonzero : IsOptionNonZero m.valid

-- What the types of `Message` promise.
abbrev pub IsMessage : Message → Type 0
IsMessage (mutable_borrow m) = IsMemoryMessage m
IsMessage (borrow m) = IsMemoryMessage m
IsMessage (move m) = IsMemoryMessage m
IsMessage (scalar m) = Unit {0}
IsMessage (blocking_scalar m) = Unit {0}

pub new_nonzero_lem : (n : ℕ) → n ≢ 0 → new_nonzero n ≡ some n
unfolding new_nonzero
new_nonzero_lem n h = ground arith

pub new_nonzero-get_or_zero : (o : Option ℕ) → IsOptionNonZero o → new_nonzero (get_or_zero o) ≡ o
unfolding new_nonzero
new_nonzero-get_or_zero none h = refl
new_nonzero-get_or_zero (some n) h = new_nonzero_lem n h

memory_round :
    (m : MemoryMessage)
    → IsMemoryMessage m
    → memory_from_usize m.id m.buf.addr m.buf.size (get_or_zero m.offset) (get_or_zero m.valid)
      ≡ some m
unfolding memory_from_usize
memory_round m v = ground (
  arith,
  new_nonzero_lem m.buf.addr,
  new_nonzero_lem m.buf.size,
  new_nonzero-get_or_zero m.offset,
  new_nonzero-get_or_zero m.valid,
)

-- A message in a `SendMessage` syscall: `message_type` and the words of its payload.
abbrev pub syscall_words : Message → Words6
syscall_words m = let (tag, a, b, c, d, e) = message_to_usize m in (message_type m, a, b, c, d, e)

-- A well-formed message, sent by user space, is the message that the kernel decodes.
pub try_from-message_to_usize : (m : Message) → IsMessage m → try_from (syscall_words m) ≡ some m
unfolding try_from message_to_usize message_type
try_from-message_to_usize (mutable_borrow m) v = ground (arith, memory_round m v)
try_from-message_to_usize (borrow m) v = ground (arith, memory_round m v)
try_from-message_to_usize (move m) v = ground (arith, memory_round m v)
try_from-message_to_usize (scalar m) v = refl
try_from-message_to_usize (blocking_scalar m) v = refl

decode_round :
    (k : Message → Result) (m : Message)
    → IsMessage m
    → let (tag, a, b, c, d, e) = message_to_usize m in decode_message k tag a b c d e ≡ k m
unfolding decode_message message_to_usize
decode_round k (mutable_borrow m) v = ground (arith, memory_round m v)
decode_round k (borrow m) v = ground (arith, memory_round m v)
decode_round k (move m) v = ground (arith, memory_round m v)
decode_round k (scalar m) v = refl
decode_round k (blocking_scalar m) v = refl

abbrev pub IsU32 : ℕ → Type 0
IsU32 n = n < 2 ^ 32

pub record IsSid (s : Sid) : Type 0 where
  pub u0 : IsU32 s.w0
  pub u1 : IsU32 s.w1
  pub u2 : IsU32 s.w2
  pub u3 : IsU32 s.w3

-- A process id is a `NonZeroU8`.
abbrev pub IsPid : ℕ → Type 0
IsPid p = (p ≢ 0) × (p < 256)

-- What the types of `Result` promise, for the variants with a code of their own: neither
-- `Unimplemented` nor `UnknownResult`.
abbrev pub IsCoded : Result → Type 0
IsCoded (Result.memory_address a) = a ≢ 0
IsCoded (Result.memory_range r) = (r.addr ≢ 0) × (r.size ≢ 0)
IsCoded (Result.server_id s) = IsSid s
IsCoded (Result.new_server_id s) = IsSid s
IsCoded (Result.connection_id c) = IsU32 c
IsCoded (Result.message_envelope e) = IsMessage e.body
IsCoded (Result.process_id p) = IsPid p
IsCoded (Result.new_process p) = IsPid p
IsCoded (Result.memory_returned o v) = IsOptionNonZero o × IsOptionNonZero v
IsCoded (Result.message m) = IsMessage m
IsCoded Result.unimplemented = ⊥
IsCoded (Result.unknown_result w) = ⊥
IsCoded _ = Unit {0}

-- A result of a syscall survives its registers, other than `Unimplemented` and `UnknownResult`, if
-- its addresses, sizes, processes and words fit their types.
pub from_args-to_args : (r : Result) → IsCoded r → from_args (to_args r) ≡ Outcome.ok r
unfolding from_args to_args
from_args-to_args (Result.memory_address a) v = ground (arith, new_nonzero_lem a)
from_args-to_args (Result.memory_range r) v =
    ground (arith, new_nonzero_lem r.addr, new_nonzero_lem r.size)
from_args-to_args (Result.server_id s) v = ground arith
from_args-to_args (Result.new_server_id s) v = ground arith
from_args-to_args (Result.connection_id c) v = ground arith
from_args-to_args (Result.message_envelope e) v =
    ap Outcome.ok (
      decode_round (λ m. Result.message_envelope (record { sender = e.sender; body = m })) e.body v)
from_args-to_args (Result.message m) v = ap Outcome.ok (decode_round Result.message m v)
from_args-to_args (Result.process_id p) v = ground (arith, new_nonzero_lem p)
from_args-to_args (Result.new_process p) v = ground (arith, new_nonzero_lem p)
from_args-to_args (Result.memory_returned o w) v =
    ground (arith, new_nonzero-get_or_zero o, new_nonzero-get_or_zero w)
from_args-to_args (Result.error e) v = ap (λ x. Outcome.ok (Result.error x)) (from_usize-to_usize e)
from_args-to_args Result.unimplemented v = absurd v
from_args-to_args (Result.unknown_result w) v = absurd v
from_args-to_args Result.ok v = refl
from_args-to_args _ v = refl

-- An unknown result comes back shifted: its first word becomes the code, and the last is lost.
pub from_args-unknown_result :
    (a b c d e f g : ℕ)
    → from_args (to_args (Result.unknown_result (a, b, c, d, e, f, g)))
      ≡ Outcome.ok (Result.unknown_result (usize_max, a, b, c, d, e, f))
unfolding from_args to_args
from_args-unknown_result a b c d e f g = refl
