-- ===== src/UnitOfWork/Tests.antt =====
-- The lifecycle's theorems at a unit of work whose action registers a commit action that fails.
use kronos_ts.Common.{
  ℕ, zero, suc, ◌+◌, ◌<◌, ◌≡◌, refl, true, none, some, List, [], ◌∷◌, All, arith,
}
use kronos_ts.Outcome.{handler_error}
use kronos_ts.UnitOfWork.{
  Program, Trace, nothing, on_phase, on_error, prepare_commit, commit, UnitOfWork, Step, fresh,
  register, execute, error, invocation, ran, handled_error, run_action, run_all, drain, clear,
  bucket,
}
use kronos_ts.UnitOfWork.Drain.{IsBounded, load, execute_ends}
use kronos_ts.UnitOfWork.Phases.{IsOrdered, IsPlaced, execute_in_order}
use kronos_ts.UnitOfWork.Lifecycle.{HasEnded, status_of, IsSpent, execute_settles}

-- 0 is the action, 1 fails, and the others return.
abbrev program : Program
program trace zero = record {
  registrations = on_error 3 (on_phase commit 1 nothing);
  failure = none;
}
program trace (suc zero) = record { registrations = nothing; failure = some handler_error }
program trace (suc (suc label)) = record { registrations = nothing; failure = none }

abbrev weight : ℕ → ℕ
weight zero = 3
weight (suc label) = 1

program-IsBounded : IsBounded weight program
program-IsBounded trace zero = omega arith
program-IsBounded trace (suc zero) = omega arith
program-IsBounded trace (suc (suc label)) = omega arith

enough : load weight fresh + weight 0 < 20
unfolding load
enough = omega arith

execute_ends_example : (s : Step) × (execute program 20 0 fresh ≡ some s)
execute_ends_example = execute_ends weight program program-IsBounded 20 0 fresh enough

-- The action has run, then what was registered before it, then the commit action that failed, and
-- last the error handler.
abbrev ended : UnitOfWork
ended = record fresh {
  phase = some commit;
  closed = true;
  status = error;
  error_handlers = 3 ∷ [];
  trace =
      ran invocation (record { registered_for = invocation; label = 0 })
      ∷ ran prepare_commit (record { registered_for = prepare_commit; label = 2 })
      ∷ ran commit (record { registered_for = commit; label = 1 })
      ∷ handled_error 3
      ∷ [];
}

executed :
    execute program 20 0 (register (on_phase prepare_commit 2 nothing) fresh)
    ≡ some (ended, some handler_error)
unfolding execute drain run_action run_all clear register
executed = refl

execute_in_order_example : IsOrdered ended.trace × All IsPlaced ended.trace
execute_in_order_example =
    execute_in_order program 20 0 (on_phase prepare_commit 2 nothing) (ended, some handler_error)
      executed

status-before : (register (on_phase prepare_commit 2 nothing) fresh).status ≡ fresh.status
unfolding register
status-before = refl

execute_settles_example : HasEnded (status_of (some handler_error)) ended × IsSpent ended
execute_settles_example =
    execute_settles program 20 0 (register (on_phase prepare_commit 2 nothing) fresh)
      (ended, some handler_error) status-before executed

-- An action that registers itself on every run: no fuel is enough for its phase.
abbrev forever : Program
forever trace label = record { registrations = on_phase commit label nothing; failure = none }

abbrev waiting_with : List Trace → UnitOfWork
waiting_with trace = record fresh {
  phase = some commit;
  buckets = record fresh.buckets { commits = record { registered_for = commit; label = 0 } ∷ [] };
  trace = trace;
}

drain-forever :
    (fuel : ℕ) (trace : List Trace) → drain forever fuel commit (waiting_with trace) ≡ none
unfolding drain run_all run_action clear bucket register
drain-forever zero trace = refl
drain-forever (suc fuel) trace = drain-forever fuel _
