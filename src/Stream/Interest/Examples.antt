-- ===== src/Stream/Interest/Examples.antt =====
-- Tests of the worker pool, and its theorem at a concrete run.
use go_scada.Base.{ℕ, ◌≡◌, [], ◌∷◌, codes, refl, pos, arith}
use go_scada.Value.{Value}
use go_scada.Stream.Interest.{
  Job, Exact, worker_index, subscribe_exact, dispatch, run_worker, hash_text,
}
use go_scada.Stream.Interest.Ordering.{Run, begun, dispatching, working, InOrder, Run-InOrder}

-- FNV-1a of "a" is 0xe40c292c.
hash_of_a : hash_text 2166136261 (codes "a") ≡ 0xe40c292c
unfolding hash_text
hash_of_a = refl

abbrev job : ℕ → Job
job n = record { subject = codes "a"; value = Value.int64 (pos n) }

abbrev run : Exact
run =
    run_worker (worker_index (codes "a") 10)
      (dispatch (job 2) (dispatch (job 1) (subscribe_exact (codes "plant"))))

run-Run : Run (codes "plant") (job 1 ∷ job 2 ∷ []) run
unfolding subscribe_exact dispatch worker_index
run-Run = working _ _ (worker_index (codes "a") 10) (
    dispatching (job 1 ∷ []) _ (job 2) (omega arith) (dispatching [] _ (job 1) (omega arith) begun))

Run-InOrder_example : InOrder (codes "a") (job 1 ∷ job 2 ∷ []) run
Run-InOrder_example = Run-InOrder (codes "plant") (codes "a") (job 1 ∷ job 2 ∷ []) run run-Run
