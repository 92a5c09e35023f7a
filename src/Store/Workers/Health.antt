-- ===== src/Store/Workers/Health.antt =====
-- Which workers a cleanup stops, and which it leaves.
use rivo.Prelude.{◌≡◌, refl, false, none, List, [], ◌∷◌, arith, length, select, All}
use rivo.Base.{ok}
use rivo.Store.Rows.{Time, Duration, Worker, Store}
use rivo.Store.Statement.{World}
use rivo.Store.Workers.{is_stale, update_workers, cleanup_stale_workers}

no_stale :
    (threshold : Duration) (now : Time) (ws : List Worker)
    → All
        (λ x. is_stale threshold now x ≡ false)
        (update_workers
          (is_stale threshold now)
          (λ x. record x { status = rivo.Store.Rows.stopped })
          ws)
unfolding update_workers
no_stale threshold now [] = tt
no_stale threshold now (x ∷ ws) = (ground arith, no_stale threshold now ws)

-- If the statement does not fail, a cleanup reports the number of stale workers and leaves none.
pub cleanup_stale_workers_lem :
    (w : World) (threshold : Duration) (s : Store)
    → w.fault s.event ≡ none
    → ((cleanup_stale_workers w threshold s).0
        ≡ ok (length (select (is_stale threshold (w.clock s.event)) s.workers)))
      × All
          (λ x. is_stale threshold (w.clock s.event) x ≡ false)
          (cleanup_stale_workers w threshold s).1.workers
unfolding cleanup_stale_workers
cleanup_stale_workers_lem w threshold s quiet =
    (rw quiet refl, rw quiet (no_stale threshold (w.clock s.event) s.workers))
