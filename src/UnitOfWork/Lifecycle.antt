-- ===== src/UnitOfWork/Lifecycle.antt =====
-- How the lifecycle of a unit of work settles: its status, that it is closed, and that it runs once.
use kronos_ts.Common.{
  ℕ, ◌≡◌, refl, ap, sym, ◌∙◌, subst, true, false, Option, none, some, some_inj, if◌then◌else◌,
}
use kronos_ts.Outcome.{throws, Failure, already_executed, no_active_unit_of_work}
use kronos_ts.UnitOfWork.{
  Status, not_started, started, completed, error, Program, Registrations, UnitOfWork, Step,
  register, is_not_started, with_failure, finish, try_phases, drive_phases, execute,
  require_invocation, require_live,
}
use kronos_ts.UnitOfWork.Keeps.{
  notify_complete-keeps, notify_error-keeps, closed-register, status-register,
}

-- The status that a result calls for.
abbrev pub status_of : Option Failure → Status
status_of none = completed
status_of (some f) = error

abbrev pub HasEnded : Status → UnitOfWork → Type 0
HasEnded final u = (u.status ≡ final) × (u.closed ≡ true)

register-HasEnded :
    (final : Status) (r : Registrations) (u : UnitOfWork)
    → HasEnded final u
    → HasEnded final (register r u)
register-HasEnded final r u (s, c) = (status-register r u ∙ s, closed-register r u ∙ c)

with_failure-HasEnded :
    (f : Option Failure) (r : Option UnitOfWork) (s : Step)
    → ((u : UnitOfWork) → r ≡ some u → HasEnded (status_of f) u)
    → with_failure f r ≡ some s
    → HasEnded (status_of s.1) s.0
with_failure-HasEnded f none s k e = cc
with_failure-HasEnded f (some u) s k e =
    subst (λ s. HasEnded (status_of s.1) s.0) (some_inj e) (k u refl)

finish-HasEnded :
    (program : Program) (fuel : ℕ) (r : Option Step) (s : Step)
    → finish program fuel r ≡ some s
    → HasEnded (status_of s.1) s.0
finish-HasEnded program fuel none s e = cc
finish-HasEnded program fuel (some (u, none)) s e =
    with_failure-HasEnded none _ s
      (λ u' h.
        notify_complete-keeps (HasEnded completed) (register-HasEnded completed) (λ l u p. p)
          program fuel u.complete_handlers (record u { status = completed; closed = true }) u' h
          (refl, refl))
      e
finish-HasEnded program fuel (some (u, some f)) s e =
    with_failure-HasEnded (some f) _ s
      (λ u' h.
        notify_error-keeps (HasEnded error) (register-HasEnded error) (λ l u p. p) program fuel
          u.error_handlers (record u { status = error; closed = true }) u' h (refl, refl))
      e

-- What a unit of work that has ended refuses: to be executed again, and the guarded capabilities.
pub record IsSpent (u : UnitOfWork) : Type 0 where
  pub no_second_run :
      (program : Program) (fuel label : ℕ)
      → execute program fuel label u ≡ some (u, some already_executed)
  pub not_live : require_live u ≡ throws no_active_unit_of_work
  pub not_invocable : require_invocation u ≡ throws no_active_unit_of_work

status_of-ended : (f : Option Failure) → is_not_started (status_of f) ≡ false
status_of-ended none = refl
status_of-ended (some f) = refl

HasEnded-IsSpent : (f : Option Failure) (u : UnitOfWork) → HasEnded (status_of f) u → IsSpent u
unfolding execute require_live require_invocation
HasEnded-IsSpent f u (s, c) = record {
  no_second_run = λ program fuel label. rw (s, status_of-ended f) refl;
  not_live = rw c refl;
  not_invocable = rw c refl;
}

-- When execute ends on a unit of work that was not started, the unit of work is closed, its status
-- is completed if execute returned and error if it threw, and from then on it cannot be executed
-- again and every guarded capability throws.
pub execute_settles :
    (program : Program) (fuel label : ℕ) (u : UnitOfWork) (s : Step)
    → u.status ≡ not_started
    → execute program fuel label u ≡ some s
    → HasEnded (status_of s.1) s.0 × IsSpent s.0
unfolding execute drive_phases
execute_settles program fuel label u s h e =
    let ended =
      finish-HasEnded program fuel (try_phases program fuel label (record u { status = started })) s
        (sym (
            ap
              (λ t.
                if is_not_started t
                then drive_phases program fuel label u
                else some (u, some already_executed))
              h)
          ∙ e) in
    (ended, HasEnded-IsSpent s.1 s.0 ended)
