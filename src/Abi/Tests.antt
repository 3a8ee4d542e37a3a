-- ===== src/Abi/Tests.antt =====
-- Runs of the ABI codecs, and their theorems at concrete inputs.
use mathlib.Core.Option.{none, some}
use beet_core.Common.{◌≡◌, refl, arith}
use beet_core.Abi.Error.{internal_error}
use beet_core.Abi.Outcome
use beet_core.Abi.Message.{MemoryMessage, borrow, new_nonzero, memory_from_usize}
use beet_core.Abi.Result.{Result, to_args, from_args, decode_message}
use beet_core.Abi.RoundTrip.{IsMemoryMessage, from_args-to_args}

abbrev page : MemoryMessage
page = record {
  id = 7;
  buf = record { addr = 0x4000; size = 0x1000 };
  offset = none;
  valid = some 12;
}

page-IsMemoryMessage : IsMemoryMessage page
page-IsMemoryMessage = record {
  addr_nonzero = omega arith;
  size_nonzero = omega arith;
  offset_nonzero = tt;
  valid_nonzero = omega arith;
}

from_args-to_args_example :
    from_args (to_args (Result.message (borrow page))) ≡ Outcome.ok (Result.message (borrow page))
from_args-to_args_example = from_args-to_args (Result.message (borrow page)) page-IsMemoryMessage

-- `Unimplemented` is encoded with the code of `Message`, and is decoded as an error.
unimplemented_lost :
    from_args (to_args Result.unimplemented) ≡ Outcome.ok (Result.error internal_error)
unfolding from_args to_args decode_message memory_from_usize new_nonzero
unimplemented_lost = refl
