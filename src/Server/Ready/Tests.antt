-- ===== src/Server/Ready/Tests.antt =====
-- Runs of the waiting set, and its theorems at concrete inputs.
use beet_core.Common.{
  ℕ, zero, suc, ◌<◌, ◌≤◌, ◌^◌, ◌≡◌, refl, arith, false, some, [], bit, clear_bit,
}
use beet_core.Abi.Outcome.{ok, panic}
use beet_core.Server.Types.{Server}
use beet_core.Server.Permissions.{default}
use beet_core.Server.Ready.{find_ready, take_available_thread, park_thread, return_available_thread}
use beet_core.Server.Ready.Laws.{
  Takes, take_available_thread-park_thread, take_available_thread_lem,
}

-- Threads 3 and 5 wait.
waiting : Server
unfolding default
waiting = record {
  sid = record { w0 = 1; w1 = 2; w2 = 3; w3 = 4 };
  pid = 2;
  queue_head = 0;
  queue_tail = 0;
  head_generation = 0;
  tail_generation = 0;
  empty_count = 0;
  queue = [];
  ready_threads = 40;
  default_permissions = default;
}

two_wait :
    (waiting.ready_threads < 2 ^ 64) × ((i : ℕ) → i ≤ 2 → bit waiting.ready_threads i ≡ false)
unfolding waiting bit
two_wait = (omega arith, low)
  where
    low : (i : ℕ) → i ≤ 2 → bit 40 i ≡ false
    low zero h = refl
    low (suc zero) h = refl
    low (suc (suc zero)) h = refl
    low (suc (suc (suc i))) h = absurd (omega arith)

take_available_thread_lem_example : Takes waiting
unfolding waiting
take_available_thread_lem_example = take_available_thread_lem waiting (omega arith)

take_available_thread-park_thread_example :
    (s' : Server) × (park_thread waiting 2 ≡ ok s')
    × (return_available_thread waiting 2 ≡ ok s')
    × (s'.ready_threads < 2 ^ 64)
    × (take_available_thread s' ≡ ok (some 2, waiting))
take_available_thread-park_thread_example =
    take_available_thread-park_thread waiting 2 small (omega arith) none_below
  where
    small : waiting.ready_threads < 2 ^ 64
    small = two_wait.0

    none_below : (i : ℕ) → i ≤ 2 → bit waiting.ready_threads i ≡ false
    none_below = two_wait.1

-- A thread that already waits, and a thread past the word, are panics.
parks_again : park_thread waiting 3 ≡ panic
unfolding waiting park_thread bit
parks_again = refl

parks_beyond : park_thread waiting 64 ≡ panic
unfolding park_thread
parks_beyond = refl

takes_three : take_available_thread waiting ≡ ok (some 3, record waiting { ready_threads = 32 })
unfolding waiting take_available_thread find_ready bit clear_bit
takes_three = refl
