-- ===== src/Server/Queue/Answer.antt =====
-- The answer to a received message finds its way back: the sender word that `take_next_message` of
-- xous/kernel/src/server.rs delivers, read as the kernel and as user space read it.
use beet_core.Common.{ℕ, ◌^◌, ◌<◌, ◌≤◌, ◌≡◌, refl, arith, List, ◌∷◌, some, length}
use beet_core.Abi.Message.{Envelope}
use beet_core.Server.Types.{Server}
use beet_core.Server.Queue.Take.{take_next_message, envelope, sender}
use beet_core.Server.Queue.Sender.{sender_of_word, sender_pid, sender_of_word-sender_word}
use beet_core.Server.Queue.Invariant.{Pending, IsValid, Fifo}
use beet_core.Server.Queue.Receive.{take_next_message-cons}

-- When a valid server with index below 256 and at most 2^16 slots has a message waiting, the oldest
-- from a process whose id is between 1 and 255, the sender that is received with that message is
-- read by the kernel as the server's index, the slot the message stood in and the process, and user
-- space reads the process from it.
pub take_next_message-sender :
    (s : Server) (sidx : ℕ) (p : Pending) (ps : List Pending)
    → IsValid s
    → Fifo s (p ∷ ps)
    → sidx < 256
    → length s.queue ≤ 2 ^ 16
    → 0 < p.from
    → p.from < 256
    → (s' : Server) × (received : Envelope) × (take_next_message s sidx ≡ (s', some received))
      × (sender_of_word received.sender ≡ record { sidx = sidx; idx = p.at; pid = some p.from })
      × (sender_pid received.sender ≡ some p.from)
take_next_message-sender s sidx p ps valid v small fits nonzero is_pid =
    let (s', taken, fifo, valid') = take_next_message-cons s sidx p ps valid v in
    let p_in = (v.here 0 p refl).0 in
    let (read, who) =
      sender_of_word-sender_word sidx p.at p.from small (omega (arith, p_in, fits))
        (omega (arith, nonzero)) is_pid in
    (s', envelope (sender sidx p.at p.from) p.body, taken, read, who)
