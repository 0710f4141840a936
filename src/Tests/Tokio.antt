-- ===== src/Tests/Tokio.antt =====
-- The integration with Tokio at a future that is ready at its third poll.
use morpheus.Prelude.{ℕ, zero, suc, [], ◌∷◌}
use morpheus.Runtime.Worker.{Thread}
use morpheus.Tokio.{
  Poll, ready, pending, Wrapped, Delayed, poll_all, idle, requested, poll_all-Delayed,
}
use morpheus.Tests.Kernel.{hog}
use morpheus.Tests.System.{worker}

abbrev asked : Thread
asked = record worker { scb = record hog { preempt_seq = 9 } }

abbrev free : Thread
free = record worker { scb = record hog { preempt_seq = 2; last_ack_seq = 2 } }

abbrev poll : ℕ → ℕ × Poll ℕ
poll zero = (0, ready 42)
poll (suc n) = (n, pending)

abbrev wrapped : Wrapped poll suc
wrapped = record { future = 2; interval = 0; woken = 1 }

poll_all-Delayed_example :
    let ts = asked ∷ free ∷ asked ∷ free ∷ free ∷ [] in
    Delayed poll suc (idle ts) (requested ts) wrapped (poll_all poll suc ts wrapped)
poll_all-Delayed_example =
    poll_all-Delayed poll suc (asked ∷ free ∷ asked ∷ free ∷ free ∷ []) wrapped
