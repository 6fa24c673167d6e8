-- ===== src/Tests/Measures.antt =====
-- The metrics, the logger and the errors.
use dropbox_lite.Prelude.{◌≡◌, refl, List, [], ◌∷◌, some, codes}
use dropbox_lite.Prelude.Int.{signed64}
use dropbox_lite.Metrics.{empty, get_counter, get_gauge}
use dropbox_lite.Metrics.Refinement.{
  Op, increment, gauge, run, replay, count_op, gauge_op, counter, level, run_refines,
}
use dropbox_lite.Logger.{Logger, debug, info, error, Time}
use dropbox_lite.Logger.Lines.{Message, Written, reaching, log_all, log_all-reaching}

abbrev called : List Op
called = increment (codes "up") 2 ∷ gauge (codes "g") 5 ∷ increment (codes "up") 3 ∷ []

run_refines_example :
    (get_counter (codes "up") (run called empty)
      ≡ signed64 (replay (count_op (codes "up")) called (counter (codes "up") empty)))
    × (get_gauge (codes "up") (run called empty)
        ≡ signed64 (replay (gauge_op (codes "up")) called (level (codes "up") empty)))
run_refines_example = run_refines (codes "up") called empty

abbrev logger : Logger
logger = record { level = info; file = some (codes "f"); console = []; files = [] }

abbrev noon : Time
noon = record { local_time = codes "12"; ms = 7 }

abbrev messages : List Message
messages =
    record { level = debug; text = codes "a"; time = noon }
    ∷ record { level = error; text = codes "b"; time = noon }
    ∷ []

log_all_example : Written (codes "f") logger (reaching info messages) (log_all messages logger)
log_all_example = log_all-reaching messages (codes "f") logger refl
