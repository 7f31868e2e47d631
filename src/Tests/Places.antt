-- ===== src/Tests/Places.antt =====
-- Indexes of a vector that grows, two threads that grow it, and identifiers of threads.
use klsm.Threading.{calls, set_tid, tid_unique}
use klsm.Base.{zero, ◌≢◌, List, [], ◌∷◌, ℕ, ◌+◌, ◌^◌, ◌<◌, ◌≡◌, refl, arith, none, some}
use klsm.Vector.{
  index_of, offset_of, bucket_count, Get, Step, Threads, Reach, update_at, install, exchange,
  index_loop,
}
use klsm.Vector.Index.{place_bounds}
use klsm.Vector.Runs.{got_same}

place_bounds_example :
    (index_of 5 < bucket_count)
    × (offset_of 5 < 2 ^ index_of 5)
    × (2 ^ index_of 5 + offset_of 5 ≡ 5 + 1)
place_bounds_example = place_bounds 5 (omega arith)

-- Both threads see a null pointer; the first installs its bucket.
abbrev both_looked : ℕ → Get
both_looked = update_at (update_at (λ t. Get.away) 0 (Get.seen 5 none)) 1 (Get.seen 6 none)

abbrev settled : Threads
settled = record {
  buckets = install (λ i. none) 2 100;
  at = update_at (update_at both_looked 0 (Get.got 5 100)) 1 (Get.got 6 100);
}

settled-Reach : Reach settled
unfolding index_of index_loop exchange
settled-Reach =
    Reach.next 1
      (Reach.next 0 (Reach.next 1 (Reach.next 0 Reach.here (Step.look 5)) (Step.look 6))
        (Step.settle 100))
      (Step.settle 200)

abbrev installed : ℕ
installed = 100

got_same_example :
    (installed ≡ installed) × (install (λ i. none) 2 100 (index_of 5) ≡ some installed)
unfolding index_of index_loop
got_same_example = got_same settled-Reach 0 1 5 6 100 100 refl refl refl

-- Thread 7 draws first, and calls again after thread 3 drew.
abbrev three_calls : List ℕ
three_calls = 7 ∷ 3 ∷ 7 ∷ []

tid_unique_example : (0 < (calls three_calls).max_tid) × (zero ≢ 1)
unfolding calls set_tid
tid_unique_example = tid_unique three_calls 7 3 0 1 refl refl (omega arith)
