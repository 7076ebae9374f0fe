-- ===== src/UnitOfWork/Drain.antt =====
-- The loops of the lifecycle end, where what an action registers weighs less than the action.
use kronos_ts.Common.{
  ℕ, zero, suc, ◌+◌, ◌≤◌, ◌<◌, ◌≡◌, refl, ap, ◌∙◌, Option, none, some, List, [], ◌∷◌, ◌++◌, arith,
  true, Option-cases, Bool-cases, List-cases, inl, inr,
}
use kronos_ts.Outcome.{Failure, already_executed}
use kronos_ts.UnitOfWork.{
  Phase, pre_invocation, invocation, prepare_commit, commit, after_commit, Program, Action, Trace,
  Registrations, nothing, on_phase, on_error, when_complete, UnitOfWork, Buckets, bucket, on,
  register, run_action, run_all, clear, drain, run_phase, Step, completes, errors, notify_complete,
  notify_error, record_trace, ran, handled_error, notified_complete, ◌then_step◌, try_phases,
  drive_phases, finish, execute, is_not_started, started, completed, error,
}

module _ (program : Program) (fuel : ℕ) (at : Phase) (u : UnitOfWork) where
  pub drain-empty : bucket at u.buckets ≡ [] → drain program (suc fuel) at u ≡ some (u, none)
  unfolding drain
  drain-empty e = rw (e, drain) refl

  pub drain-more :
      (a : Action) (rest : List Action)
      → bucket at u.buckets ≡ a ∷ rest
      → (run_all program at (a ∷ rest) (clear at u)).1 ≡ none
      → drain program (suc fuel) at u
        ≡ drain program fuel at (run_all program at (a ∷ rest) (clear at u)).0
  unfolding drain
  drain-more a rest e d = rw (e, drain) (rw (d) refl)

  pub drain-throws :
      (a : Action) (rest : List Action) (f : Failure)
      → bucket at u.buckets ≡ a ∷ rest
      → (run_all program at (a ∷ rest) (clear at u)).1 ≡ some f
      → drain program (suc fuel) at u
        ≡ some ((run_all program at (a ∷ rest) (clear at u)).0, some f)
  unfolding drain
  drain-throws a rest f e d = rw (e, drain) (rw (d) refl)

-- A weight for each action and handler.
module _ (w : ℕ → ℕ) where
  abbrev pub weight_all : Registrations → ℕ
  weight_all nothing = 0
  weight_all (on_phase at label more) = w label + weight_all more
  weight_all (on_error label more) = w label + weight_all more
  weight_all (when_complete label more) = w label + weight_all more

  -- Every run of an action registers less than what the action weighs.
  abbrev pub IsBounded : Program → Type 0
  IsBounded program =
      (trace : List Trace) (label : ℕ) → weight_all (program trace label).registrations < w label

  abbrev pub weights_of : List ℕ → ℕ
  weights_of [] = 0
  weights_of (label ∷ rest) = w label + weights_of rest

  abbrev pub weights : List Action → ℕ
  weights [] = 0
  weights (a ∷ rest) = w a.label + weights rest

  unfoldable pub waiting : Buckets → ℕ
  waiting b =
      weights b.pre_invocations
      + weights b.invocations
      + weights b.prepare_commits
      + weights b.commits
      + weights b.after_commits

  weights-append : (xs ys : List Action) → weights (xs ++ ys) ≡ weights xs + weights ys
  weights-append [] ys = omega arith
  weights-append (x ∷ xs) ys = omega (arith, weights-append xs ys)

  weights_of-append : (xs ys : List ℕ) → weights_of (xs ++ ys) ≡ weights_of xs + weights_of ys
  weights_of-append [] ys = omega arith
  weights_of-append (x ∷ xs) ys = omega (arith, weights_of-append xs ys)

  -- All that can still run: the buckets and both arrays of handlers.
  unfoldable pub load : UnitOfWork → ℕ
  unfolding waiting
  load u = waiting u.buckets + weights_of u.error_handlers + weights_of u.complete_handlers

  load-on : (at : Phase) (a : Action) (u : UnitOfWork) → load (on at a u) ≡ load u + w a.label
  unfolding load on
  load-on pre_invocation a u = omega (arith, weights-append u.buckets.pre_invocations (a ∷ []))
  load-on invocation a u = omega (arith, weights-append u.buckets.invocations (a ∷ []))
  load-on prepare_commit a u = omega (arith, weights-append u.buckets.prepare_commits (a ∷ []))
  load-on commit a u = omega (arith, weights-append u.buckets.commits (a ∷ []))
  load-on after_commit a u = omega (arith, weights-append u.buckets.after_commits (a ∷ []))

  load-on_error :
      (h : ℕ) (u : UnitOfWork)
      → load (record u { error_handlers = u.error_handlers ++ h ∷ [] }) ≡ load u + w h
  unfolding load
  load-on_error h u = omega (arith, weights_of-append u.error_handlers (h ∷ []))

  load-when_complete :
      (h : ℕ) (u : UnitOfWork)
      → load (record u { complete_handlers = u.complete_handlers ++ h ∷ [] }) ≡ load u + w h
  unfolding load
  load-when_complete h u = omega (arith, weights_of-append u.complete_handlers (h ∷ []))

  load-register : (r : Registrations) (u : UnitOfWork) → load (register r u) ≡ load u + weight_all r
  unfolding register
  load-register nothing u = omega arith
  load-register (on_phase at a more) u = omega (
    arith,
    load-register more (on at (record { registered_for = at; label = a }) u),
    load-on at (record { registered_for = at; label = a }) u,
  )
  load-register (on_error h more) u = omega (
    arith,
    load-register more (record u { error_handlers = u.error_handlers ++ h ∷ [] }),
    load-on_error h u,
  )
  load-register (when_complete h more) u = omega (
    arith,
    load-register more (record u { complete_handlers = u.complete_handlers ++ h ∷ [] }),
    load-when_complete h u,
  )

  load-clear :
      (at : Phase) (u : UnitOfWork) → load (clear at u) + weights (bucket at u.buckets) ≡ load u
  unfolding load clear bucket
  load-clear pre_invocation u = omega arith
  load-clear invocation u = omega arith
  load-clear prepare_commit u = omega arith
  load-clear commit u = omega arith
  load-clear after_commit u = omega arith

  module _ (program : Program) (bounded : IsBounded program) where
    load-run_action :
        (at : Phase) (a : Action) (u : UnitOfWork)
        → load (run_action program at a u).0 < load u + w a.label
    unfolding run_action load
    load-run_action at a u =
        let trace = u.trace ++ ran at a ∷ [] in
        omega (
          arith,
          bounded trace a.label,
          load-register (program trace a.label).registrations (record_trace (ran at a) u),
        )

    load-run_all :
        (at : Phase) (xs : List Action) (u : UnitOfWork)
        → load (run_all program at xs u).0 ≤ load u + weights xs
    unfolding run_all
    load-run_all at [] u = omega arith
    load-run_all at (a ∷ xs) u = elim (Option-cases (run_action program at a u).1) [
      | inl e ↦
          rw (e, run_all)
            (omega
              (arith, load-run_action at a u, load-run_all at xs (run_action program at a u).0))
      | inr (f, e) ↦ rw (e, run_all) (omega (arith, load-run_action at a u))
    ]

    load-run_all_cons :
        (at : Phase) (a : Action) (xs : List Action) (u : UnitOfWork)
        → load (run_all program at (a ∷ xs) u).0 < load u + weights (a ∷ xs)
    unfolding run_all
    load-run_all_cons at a xs u = elim (Option-cases (run_action program at a u).1) [
      | inl e ↦
          rw (e, run_all)
            (omega
              (arith, load-run_action at a u, load-run_all at xs (run_action program at a u).0))
      | inr (f, e) ↦ rw (e, run_all) (omega (arith, load-run_action at a u))
    ]

    -- A step that came to an end with no more left to run than n.
    abbrev pub Ends : ℕ → Option Step → Type 0
    Ends n r = (s : Step) × (r ≡ some s) × (load s.0 ≤ n)

    drain-Ends :
        (fuel : ℕ) (at : Phase) (u : UnitOfWork)
        → load u < fuel
        → Ends (load u) (drain program fuel at u)
    drain-Ends zero at u h = absurd (omega arith)
    drain-Ends (suc fuel) at u h = elim (List-cases (bucket at u.buckets)) [
      | inl e ↦ ((u, none), drain-empty program fuel at u e, omega arith)
      | inr (a, rest, e) ↦
          let u' = (run_all program at (a ∷ rest) (clear at u)).0 in
          let less : load u' < load u =
            omega
              (arith, load-run_all_cons at a rest (clear at u), load-clear at u, ap weights e) in
          elim (Option-cases (run_all program at (a ∷ rest) (clear at u)).1) [
            | inl d ↦
                let (s, done, le) = drain-Ends fuel at u' (omega arith) in
                (s, drain-more program fuel at u a rest e d ∙ done, omega arith)
            | inr (f, d) ↦ ((u', some f), drain-throws program fuel at u a rest f e d, omega arith)
          ]
    ]

    run_phase-Ends :
        (fuel : ℕ) (at : Phase) (u : UnitOfWork)
        → load u < fuel
        → Ends (load u) (run_phase program fuel at u)
    unfolding run_phase load
    run_phase-Ends fuel at u h = drain-Ends fuel at (record u { phase = some at }) h

    -- Steps that end, one after the other.
    then_step-Ends :
        (n m : ℕ) (r : Option Step) (k : UnitOfWork → Option Step)
        → Ends n r
        → n ≤ m
        → ((u : UnitOfWork) → load u ≤ n → Ends m (k u))
        → Ends m (r then_step k)
    then_step-Ends n m r k ((u, none), e, le) h next = rw e (next u le)
    then_step-Ends n m r k ((u, some f), e, le) h next = rw e ((u, some f), refl, omega arith)

    phase-Ends :
        (n fuel : ℕ) (at : Phase)
        → n < fuel
        → (u : UnitOfWork) → load u ≤ n
        → Ends n (run_phase program fuel at u)
    phase-Ends n fuel at h u le =
        let (s, e, less) = run_phase-Ends fuel at u (omega arith) in (s, e, omega arith)

    action-Ends :
        (n m : ℕ) (at : Phase) (a : Action)
        → n + w a.label ≤ m
        → (u : UnitOfWork) → load u ≤ n
        → Ends m (some (run_action program at a u))
    action-Ends n m at a h u le =
        (run_action program at a u, refl, omega (arith, load-run_action at a u))

    try_phases-Ends :
        (fuel : ℕ) (label : ℕ) (u : UnitOfWork)
        → load u + w label < fuel
        → Ends (load u + w label) (try_phases program fuel label u)
    unfolding try_phases
    try_phases-Ends fuel label u h =
        let n : ℕ = load u in
        let m : ℕ = load u + w label in
        let first = phase-Ends n fuel pre_invocation (omega arith) u (omega arith) in
        let second =
          then_step-Ends n n _ _ first (omega arith) (phase-Ends n fuel invocation (omega arith)) in
        let third = then_step-Ends n m _ _ second (omega arith) (
          action-Ends n m invocation (record { registered_for = invocation; label = label })
            (omega arith)) in
        let fourth =
          then_step-Ends m m _ _ third (omega arith) (phase-Ends m fuel prepare_commit h) in
        let fifth = then_step-Ends m m _ _ fourth (omega arith) (phase-Ends m fuel commit h) in
        then_step-Ends m m _ _ fifth (omega arith) (phase-Ends m fuel after_commit h)

    weights-completes : (r : Registrations) → weights_of (completes r) ≤ weight_all r
    weights-completes nothing = omega arith
    weights-completes (on_phase at a more) = omega (arith, weights-completes more)
    weights-completes (on_error h more) = omega (arith, weights-completes more)
    weights-completes (when_complete h more) = omega (arith, weights-completes more)

    weights-errors : (r : Registrations) → weights_of (errors r) ≤ weight_all r
    weights-errors nothing = omega arith
    weights-errors (on_phase at a more) = omega (arith, weights-errors more)
    weights-errors (on_error h more) = omega (arith, weights-errors more)
    weights-errors (when_complete h more) = omega (arith, weights-errors more)

    notify_complete-Ends :
        (fuel : ℕ) (pending : List ℕ) (u : UnitOfWork)
        → weights_of pending < fuel
        → (u' : UnitOfWork) × (notify_complete program fuel pending u ≡ some u')
    unfolding notify_complete
    notify_complete-Ends zero pending u h = absurd (omega arith)
    notify_complete-Ends (suc fuel) [] u h = (u, refl)
    notify_complete-Ends (suc fuel) (l ∷ rest) u h =
        let trace = u.trace ++ notified_complete l ∷ [] in
        let more = completes (program trace l).registrations in
        notify_complete-Ends fuel (rest ++ more) _ (
          omega (
            arith,
            weights_of-append rest more,
            weights-completes (program trace l).registrations,
            bounded trace l,
          ))

    notify_error-Ends :
        (fuel : ℕ) (pending : List ℕ) (u : UnitOfWork)
        → weights_of pending < fuel
        → (u' : UnitOfWork) × (notify_error program fuel pending u ≡ some u')
    unfolding notify_error
    notify_error-Ends zero pending u h = absurd (omega arith)
    notify_error-Ends (suc fuel) [] u h = (u, refl)
    notify_error-Ends (suc fuel) (l ∷ rest) u h =
        let trace = u.trace ++ handled_error l ∷ [] in
        let more = errors (program trace l).registrations in
        notify_error-Ends fuel (rest ++ more) _ (
          omega (
            arith,
            weights_of-append rest more,
            weights-errors (program trace l).registrations,
            bounded trace l,
          ))

    complete-le-load : (u : UnitOfWork) → weights_of u.complete_handlers ≤ load u
    unfolding load
    complete-le-load u = omega arith

    error-le-load : (u : UnitOfWork) → weights_of u.error_handlers ≤ load u
    unfolding load
    error-le-load u = omega arith

    finish-Ends :
        (fuel n : ℕ) (r : Option Step)
        → Ends n r
        → n < fuel
        → (s : Step) × (finish program fuel r ≡ some s)
    finish-Ends fuel n r ((u, none), e, le) h =
        let (u', done) =
          notify_complete-Ends fuel u.complete_handlers
            (record u { status = completed; closed = true }) (omega (arith, complete-le-load u)) in
        ((u', none), rw (e, done) refl)
    finish-Ends fuel n r ((u, some f), e, le) h =
        let (u', done) =
          notify_error-Ends fuel u.error_handlers (record u { status = error; closed = true })
            (omega (arith, error-le-load u)) in
        ((u', some f), rw (e, done) refl)

    -- Where every action and handler has a weight that is above the sum of the weights of what any one
    -- run of it registers, whatever has run before, `execute` comes to an end: fuel above the weights
    -- of the action and of all that is registered gives a result.
    pub execute_ends :
        (fuel : ℕ) (label : ℕ) (u : UnitOfWork)
        → load u + w label < fuel
        → (s : Step) × (execute program fuel label u ≡ some s)
    unfolding execute drive_phases load
    execute_ends fuel label u h = elim (Bool-cases (is_not_started u.status)) [
      | inl e ↦ rw e (
          finish-Ends fuel (load u + w label) _
            (try_phases-Ends fuel label (record u { status = started }) h) h)
      | inr e ↦ rw e ((u, some already_executed), refl)
    ]
