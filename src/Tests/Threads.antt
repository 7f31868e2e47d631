-- ===== src/Tests/Threads.antt =====
-- Runs of the protocol of the shared LSM.
use klsm.Base.{ℕ, ◌≤◌, ◌<◌, ◌≡◌, refl, true, arith}
use klsm.Protocol.{
  System, Pointer, Reach, start, later, moves, load, see, test, fresh, write, increment, compare,
  steady, first_pivot,
}
use klsm.Protocol.Inv.{now}
use klsm.Protocol.Runs.{AllInTime, Exchanged, writes-not_global, refresh-snapshot, swap-in_order}

abbrev first : Pointer
first = record { owner = 0; parity = 0; stamp = 0 }

abbrev ready_run : (s : System) × Reach 120 s
ready_run = (
  _,
  later
      (later (later (later start (moves 1 (omega arith) load)) (moves 1 (omega arith) see))
        (moves 1 (omega arith) test))
      (moves 1 (omega arith) (fresh refl)),
)

abbrev at_ready : System
at_ready = ready_run.0

ready_in_time : AllInTime ready_run.1
ready_in_time = (
  (
    (
      (tt, record { since = tt; copy = omega arith }),
      record { since = omega arith; copy = omega arith },
    ),
    record { since = omega arith; copy = omega arith },
  ),
  record { since = omega arith; copy = omega arith },
)

refresh-snapshot_example :
    ((at_ready.threads 1).copy.stamp ≡ 0)
    × (0 ≤ now at_ready.shared)
    × ((k : ℕ)
        → k < 120
        → k < first_pivot
        → (at_ready.threads 1).copy.cell k ≡ at_ready.shared.history 0 k)
refresh-snapshot_example = refresh-snapshot ready_run.1 ready_in_time 1 first 0 refl

-- Thread 1 goes on to write its array for odd versions.
writes-not_global_example :
    ¬ ((at_ready.shared.global.owner ≡ 1) × (at_ready.shared.global.parity ≡ 1))
writes-not_global_example = writes-not_global ready_run.1 ready_in_time 1 1 refl

abbrev swap_run : (s : System) × Reach 120 s
swap_run = (
  _,
  later
      (later
        (later (later ready_run.1 (moves 1 (omega arith) write)) (moves 1 (omega arith) increment))
        (moves 1 (omega arith) compare))
      (moves 1 (omega arith) (steady refl)),
)

abbrev at_swap : System
at_swap = swap_run.0

swap_in_time : AllInTime swap_run.1
swap_in_time = (
  (
    (
      (ready_in_time, record { since = omega arith; copy = omega arith }),
      record { since = omega arith; copy = omega arith },
    ),
    record { since = omega arith; copy = omega arith },
  ),
  record { since = omega arith; copy = omega arith },
)

swap-in_order_example : Exchanged 120 at_swap.shared 1 (at_swap.threads 1).copy 0 true
swap-in_order_example =
    swap-in_order swap_run.1 swap_in_time 1 first 0 refl
      (record { since = omega arith; copy = omega arith })
