-- ===== src/Server/Ready.antt =====
-- The set of a server's blocked threads: `ready_threads` of xous/kernel/src/server.rs, a word
-- with a bit for each thread.
pub mod Laws
mod Tests
use beet_core.Common.{
  ℕ, zero, suc, ◌+◌, Bool, true, false, Option, none, some, ◌==◌, if◌then◌else◌, leb, ◌||◌, bit,
  set_bit, clear_bit,
}
use beet_core.Abi.Outcome.{Outcome, ok, panic, ◌>>=◌}
use beet_core.Server.Types.{Server}

-- The loop over the 64 positions of the test mask, from thread `n` with some rounds left; coming
-- round to the first position is a panic.
unfoldable pub find_ready : ℕ → ℕ → ℕ → Outcome (ℕ × ℕ)
find_ready zero ready n = panic
find_ready (suc rounds) ready n =
    let rest = find_ready rounds ready (n + 1) in
    if bit ready n then ok (n, clear_bit ready n) else rest

unfoldable pub take_available_thread : Server → Outcome (Option ℕ × Server)
take_available_thread self = if self.ready_threads == 0 then ok (none, self) else do
  (thread_number, ready) ← find_ready 64 self.ready_threads 0
  ok (some thread_number, record self { ready_threads = ready })

-- `park_thread` and `return_available_thread` have the same body. A shift `1 << tid` by 64 or more
-- is a panic.
unfoldable pub park_thread : Server → ℕ → Outcome Server
park_thread self tid =
    if leb 64 tid || bit self.ready_threads tid
    then panic
    else ok (record self { ready_threads = set_bit self.ready_threads tid })

unfoldable pub return_available_thread : Server → ℕ → Outcome Server
return_available_thread self tid =
    if leb 64 tid || bit self.ready_threads tid
    then panic
    else ok (record self { ready_threads = set_bit self.ready_threads tid })
