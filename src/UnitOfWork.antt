-- ===== src/UnitOfWork.antt =====
-- The unit of work: packages/core/src/unit-of-work/unit-of-work.ts. What an action or a handler does
-- is a parameter, the program: for the trace of all that has run, and the label of the action that
-- runs, it gives the registrations that this run makes and whether it returns or throws, so that
-- an action may do something else on every run, and may register itself again. A promise that never
-- settles is left out. Buffers and the clock are separate parts and do not take part in the lifecycle.
pub mod Keeps
pub mod Sorted
pub mod Phases
pub mod Drain
pub mod Lifecycle
mod Tests
use kronos_ts.Common.{
  ℕ, zero, suc, ◌+◌, Bool, true, false, Option, none, some, List, [], ◌∷◌, ◌++◌, if◌then◌else◌,
  ◌==◌,
}
use kronos_ts.Outcome.{
  Outcome, ok, throws, Failure, no_active_unit_of_work, wrong_phase, already_executed, ◌>>=◌,
}

pub data Phase : Type 0 where
  pre_invocation invocation prepare_commit commit after_commit : Phase

pub data Status : Type 0 where
  not_started started completed error : Status

-- What one run makes: actions and handlers are named by their labels.
pub data Registrations : Type 0 where
  nothing : Registrations
  on_phase : Phase → ℕ → Registrations → Registrations
  on_error : ℕ → Registrations → Registrations
  when_complete : ℕ → Registrations → Registrations

-- One run; `none` is a normal return.
pub record Run : Type 0 where
  pub registrations : Registrations
  pub failure : Option Failure

-- An action in a bucket, with the phase that it was registered for, which is kept for the trace alone:
-- the lifecycle does not look at it.
pub record Action : Type 0 where
  pub registered_for : Phase
  pub label : ℕ

-- What has run: the phase during which an action ran with the action, or the notifications.
pub data Trace : Type 0 where
  ran : Phase → Action → Trace
  handled_error : ℕ → Trace
  notified_complete : ℕ → Trace

abbrev pub Program : Type 0
Program = List Trace → ℕ → Run

pub record Buckets : Type 0 where
  pub pre_invocations : List Action
  pub invocations : List Action
  pub prepare_commits : List Action
  pub commits : List Action
  pub after_commits : List Action

pub record UnitOfWork : Type 0 where
  pub phase : Option Phase
  pub closed : Bool
  pub status : Status
  pub buckets : Buckets
  pub error_handlers : List ℕ
  pub complete_handlers : List ℕ
  pub trace : List Trace

abbrev pub fresh : UnitOfWork
fresh = record {
  phase = none;
  closed = false;
  status = not_started;
  buckets = record {
    pre_invocations = [];
    invocations = [];
    prepare_commits = [];
    commits = [];
    after_commits = [];
  };
  error_handlers = [];
  complete_handlers = [];
  trace = [];
}

-- `phaseActions.get(at)`; a bucket that is missing and an empty one behave alike.
unfoldable pub bucket : Phase → Buckets → List Action
bucket pre_invocation b = b.pre_invocations
bucket invocation b = b.invocations
bucket prepare_commit b = b.prepare_commits
bucket commit b = b.commits
bucket after_commit b = b.after_commits

-- `phaseActions.set(at, actions)`
unfoldable pub with_bucket : Phase → List Action → Buckets → Buckets
with_bucket pre_invocation xs b = record b { pre_invocations = xs }
with_bucket invocation xs b = record b { invocations = xs }
with_bucket prepare_commit xs b = record b { prepare_commits = xs }
with_bucket commit xs b = record b { commits = xs }
with_bucket after_commit xs b = record b { after_commits = xs }

-- The function `on`.
unfoldable pub on : Phase → Action → UnitOfWork → UnitOfWork
unfolding bucket with_bucket
on at action u = record u {
  buckets = with_bucket at (bucket at u.buckets ++ action ∷ []) u.buckets;
}

unfoldable pub register : Registrations → UnitOfWork → UnitOfWork
unfolding on
register nothing u = u
register (on_phase at label more) u =
    register more (on at (record { registered_for = at; label = label }) u)
register (on_error handler more) u =
    register more (record u { error_handlers = u.error_handlers ++ handler ∷ [] })
register (when_complete handler more) u =
    register more (record u { complete_handlers = u.complete_handlers ++ handler ∷ [] })

abbrev pub record_trace : Trace → UnitOfWork → UnitOfWork
record_trace t u = record u { trace = u.trace ++ t ∷ [] }

-- The state after a step, and what it threw.
abbrev pub Step : Type 0
Step = UnitOfWork × Option Failure

-- `await a()` during a phase.
unfoldable pub run_action : Program → Phase → Action → UnitOfWork → Step
unfolding register
run_action program at action u =
    let run = program (u.trace ++ ran at action ∷ []) action.label in
    (register run.registrations (record_trace (ran at action) u), run.failure)

-- `for (const a of bucket) await a()`
unfoldable pub run_all : Program → Phase → List Action → UnitOfWork → Step
run_all program at [] u = (u, none)
run_all program at (a ∷ rest) u = elim (run_action program at a u).1 [
  | none ↦ run_all program at rest (run_action program at a u).0
  | some e ↦ ((run_action program at a u).0, some e)
]

unfoldable pub clear : Phase → UnitOfWork → UnitOfWork
unfolding with_bucket
clear at u = record u { buckets = with_bucket at [] u.buckets }

-- The `while` loop of `runPhase`, and of INVOCATION in `drivePhases`: a bucket at a time, until it
-- stays empty. `none` means that the fuel ran out.
unfoldable pub drain : Program → ℕ → Phase → UnitOfWork → Option Step
drain program zero at u = none
drain program (suc fuel) at u = elim (bucket at u.buckets) [
  | [] ↦ some (u, none)
  | a ∷ rest ↦ elim (run_all program at (a ∷ rest) (clear at u)).1 [
    | none ↦ drain program fuel at (run_all program at (a ∷ rest) (clear at u)).0
    | some e ↦ some ((run_all program at (a ∷ rest) (clear at u)).0, some e)
  ]
]

-- The function `runPhase`.
unfoldable pub run_phase : Program → ℕ → Phase → UnitOfWork → Option Step
run_phase program fuel at u = drain program fuel at (record u { phase = some at })

-- `await` of one step after another; a throw skips what follows.
infixl 5 ◌then_step◌
abbrev pub ◌then_step◌ : Option Step → (UnitOfWork → Option Step) → Option Step
none then_step k = none
(some (u, none)) then_step k = k u
(some (u, some e)) then_step k = some (u, some e)

-- The body of the `try` in `drivePhases`, up to the change of status.
unfoldable pub try_phases : Program → ℕ → ℕ → UnitOfWork → Option Step
unfolding run_phase
try_phases program fuel label u =
    run_phase program fuel pre_invocation u
    then_step run_phase program fuel invocation
    then_step (λ u.
        some
          (run_action program invocation (record { registered_for = invocation; label = label }) u))
    then_step run_phase program fuel prepare_commit
    then_step run_phase program fuel commit
    then_step run_phase program fuel after_commit

-- The handlers that a run of a handler adds to the array that is being walked.
abbrev pub completes : Registrations → List ℕ
completes nothing = []
completes (on_phase at action more) = completes more
completes (on_error handler more) = completes more
completes (when_complete handler more) = handler ∷ completes more

abbrev pub errors : Registrations → List ℕ
errors nothing = []
errors (on_phase at action more) = errors more
errors (on_error handler more) = handler ∷ errors more
errors (when_complete handler more) = errors more

-- `for (const h of completeHandlers) try { h() } catch …`: the walk sees the handlers that it adds.
unfoldable pub notify_complete : Program → ℕ → List ℕ → UnitOfWork → Option UnitOfWork
unfolding register
notify_complete program zero pending u = none
notify_complete program (suc fuel) [] u = some u
notify_complete program (suc fuel) (label ∷ rest) u =
    let run = program (u.trace ++ notified_complete label ∷ []) label in
    notify_complete program fuel (rest ++ completes run.registrations)
      (register run.registrations (record_trace (notified_complete label) u))

unfoldable pub notify_error : Program → ℕ → List ℕ → UnitOfWork → Option UnitOfWork
unfolding register
notify_error program zero pending u = none
notify_error program (suc fuel) [] u = some u
notify_error program (suc fuel) (label ∷ rest) u =
    let run = program (u.trace ++ handled_error label ∷ []) label in
    notify_error program fuel (rest ++ errors run.registrations)
      (register run.registrations (record_trace (handled_error label) u))

-- The state at the end with the error that `execute` rejects with.
abbrev pub with_failure : Option Failure → Option UnitOfWork → Option Step
with_failure failure none = none
with_failure failure (some u) = some (u, failure)

abbrev pub finish : Program → ℕ → Option Step → Option Step
finish program fuel none = none
finish program fuel (some (u, none)) = with_failure none (
    notify_complete program fuel u.complete_handlers
      (record u { status = completed; closed = true }))
finish program fuel (some (u, some e)) =
    with_failure (some e)
      (notify_error program fuel u.error_handlers (record u { status = error; closed = true }))

unfoldable pub drive_phases : Program → ℕ → ℕ → UnitOfWork → Option Step
unfolding try_phases notify_complete notify_error
drive_phases program fuel label u =
    finish program fuel (try_phases program fuel label (record u { status = started }))

abbrev pub is_not_started : Status → Bool
is_not_started not_started = true
is_not_started _ = false

unfoldable pub execute : Program → ℕ → ℕ → UnitOfWork → Option Step
unfolding drive_phases
execute program fuel label u =
    if is_not_started u.status
    then drive_phases program fuel label u
    else some (u, some already_executed)

abbrev is_invocation : Option Phase → Bool
is_invocation (some invocation) = true
is_invocation _ = false

-- The guards of the capabilities.
unfoldable pub require_invocation : UnitOfWork → Outcome UnitOfWork
require_invocation u =
    if u.closed
    then throws no_active_unit_of_work
    else (if is_invocation u.phase then ok u else throws wrong_phase)

unfoldable pub require_live : UnitOfWork → Outcome UnitOfWork
require_live u = if u.closed then throws no_active_unit_of_work else ok u
