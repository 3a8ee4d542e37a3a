-- ===== src/Server/Queue/Sender.antt =====
-- `SenderID` of xous/kernel/src/server.rs, packed in a word, and `Sender::pid` of
-- xous/xous-rs/src/definitions/messages/sender.rs.
use beet_core.Common.{ℕ, ◌+◌, ◌*◌, ◌/◌, ◌%◌, ◌^◌, ◌<◌, ◌≢◌, ◌≡◌, arith, Option, some}
use beet_core.Abi.Message.{new_nonzero, get_or_zero}
use beet_core.Server.Types.{SenderId}

-- `From<SenderID> for usize`. The three fields take disjoint bits, so `|` is `+`.
unfoldable pub sender_word : SenderId → ℕ
sender_word s = get_or_zero s.pid * 2 ^ 24 + s.sidx % 256 * 2 ^ 16 + s.idx % 2 ^ 16

-- `From<usize> for SenderID`
unfoldable pub sender_of_word : ℕ → SenderId
unfolding new_nonzero
sender_of_word item = record {
  sidx = item / 2 ^ 16 % 256;
  idx = item % 2 ^ 16;
  pid = new_nonzero (item / 2 ^ 24 % 256);
}

-- `Sender::pid`
unfoldable pub sender_pid : ℕ → Option ℕ
unfolding new_nonzero
sender_pid word = new_nonzero (word / 2 ^ 24 % 256)

-- A sender id with a process, whose parts fit their fields, is read back from its word, and user
-- space reads its process from the same word.
pub sender_of_word-sender_word :
    (sidx idx pid : ℕ)
    → sidx < 256
    → idx < 2 ^ 16
    → pid ≢ 0
    → pid < 256
    → (sender_of_word (sender_word (record { sidx = sidx; idx = idx; pid = some pid }))
        ≡ record { sidx = sidx; idx = idx; pid = some pid })
      × (sender_pid (sender_word (record { sidx = sidx; idx = idx; pid = some pid })) ≡ some pid)
unfolding sender_of_word sender_word sender_pid
sender_of_word-sender_word sidx idx pid hs hi nonzero hp = (ground arith, ground arith)
