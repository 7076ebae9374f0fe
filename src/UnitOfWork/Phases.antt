-- ===== src/UnitOfWork/Phases.antt =====
-- When a unit of work runs what: in the phase that it was registered for, and in order.
use kronos_ts.Common.{
  ℕ, ◌≤◌, ◌≡◌, refl, ap, sym, ◌∙◌, subst, Bool, true, false, Option, none, some, List, [], ◌∷◌,
  ◌++◌, All, All-append, All-mono, arith, some_inj, inl, inr, Bool-cases, if◌then◌else◌,
}
use kronos_ts.Outcome.{Failure, already_executed}
use kronos_ts.UnitOfWork.{
  Phase, pre_invocation, invocation, prepare_commit, commit, after_commit, Program, Action,
  Registrations, fresh, UnitOfWork, Step, Trace, ran, handled_error, notified_complete,
  record_trace, register, run_action, clear, run_phase, try_phases, drive_phases, execute,
  ◌then_step◌, finish, with_failure, started, completed, error, is_not_started,
}
use kronos_ts.UnitOfWork.Keeps.{
  drain-keeps, notify_complete-keeps, notify_error-keeps, trace-register,
}
use kronos_ts.UnitOfWork.Sorted.{
  IsFor, IsSorted, bucket-IsSorted, sorted_record, clear-IsSorted, moved-IsSorted,
  register-IsSorted,
}

abbrev pub phase_rank : Phase → ℕ
phase_rank pre_invocation = 0
phase_rank invocation = 1
phase_rank prepare_commit = 2
phase_rank commit = 3
phase_rank after_commit = 4

-- The handlers come last.
abbrev pub rank : Trace → ℕ
rank (ran at action) = phase_rank at
rank (handled_error label) = 5
rank (notified_complete label) = 5

-- Nothing stands behind something of a later rank.
abbrev pub IsOrdered : List Trace → Type 0
IsOrdered [] = Unit
IsOrdered (t ∷ ts) = All (λ x. rank t ≤ rank x) ts × IsOrdered ts

-- An action ran in the phase that it was registered for.
abbrev pub IsPlaced : Trace → Type 0
IsPlaced (ran at action) = action.registered_for ≡ at
IsPlaced (handled_error label) = Unit
IsPlaced (notified_complete label) = Unit

-- Ordered, with nothing of a rank above n and nothing out of its phase so far.
pub record IsOrderedTo (n : ℕ) (ts : List Trace) : Type 0 where
  pub ordered : IsOrdered ts
  pub bounded : All (λ x. rank x ≤ n) ts
  pub placed : All IsPlaced ts

IsOrdered-snoc :
    (n : ℕ) (ts : List Trace) (t : Trace)
    → All (λ x. rank x ≤ n) ts
    → n ≤ rank t
    → IsOrdered ts
    → IsOrdered (ts ++ t ∷ [])
IsOrdered-snoc n [] t b h o = (tt, tt)
IsOrdered-snoc n (x ∷ ts) t b h o = (
  All-append (λ y. rank x ≤ rank y) ts (t ∷ []) o.0 (omega (arith, b.0), tt),
  IsOrdered-snoc n ts t b.1 h o.1,
)

IsOrderedTo-snoc :
    (n : ℕ) (ts : List Trace) (t : Trace)
    → n ≤ rank t
    → IsPlaced t
    → IsOrderedTo n ts
    → IsOrderedTo (rank t) (ts ++ t ∷ [])
IsOrderedTo-snoc n ts t h k o = record {
  ordered = IsOrdered-snoc n ts t o.bounded h o.ordered;
  bounded =
      All-append (λ x. rank x ≤ rank t) ts (t ∷ [])
        (All-mono (λ x (le : rank x ≤ n). omega arith) ts o.bounded) (omega arith, tt);
  placed = All-append IsPlaced ts (t ∷ []) o.placed (k, tt);
}

IsOrderedTo-mono : (n m : ℕ) (ts : List Trace) → n ≤ m → IsOrderedTo n ts → IsOrderedTo m ts
IsOrderedTo-mono n m ts h o = record {
  ordered = o.ordered;
  bounded = All-mono (λ x (le : rank x ≤ n). omega arith) ts o.bounded;
  placed = o.placed;
}

-- What holds between the steps.
pub record InOrder (n : ℕ) (u : UnitOfWork) : Type 0 where
  pub so_far : IsOrderedTo n u.trace
  sorted : IsSorted u

InOrder-mono : (n m : ℕ) (u : UnitOfWork) → n ≤ m → InOrder n u → InOrder m u
InOrder-mono n m u h o = record {
  so_far = IsOrderedTo-mono n m u.trace h o.so_far;
  sorted = o.sorted;
}

register-InOrder :
    (n : ℕ) (r : Registrations) (u : UnitOfWork) → InOrder n u → InOrder n (register r u)
register-InOrder n r u o = record {
  so_far = subst (IsOrderedTo n) (sym (trace-register r u)) o.so_far;
  sorted = register-IsSorted r u o.sorted;
}

record_trace-InOrder :
    (n : ℕ) (t : Trace) (u : UnitOfWork)
    → n ≤ rank t
    → IsPlaced t
    → InOrder n u
    → InOrder (rank t) (record_trace t u)
record_trace-InOrder n t u h k o = record {
  so_far = IsOrderedTo-snoc n u.trace t h k o.so_far;
  sorted = moved-IsSorted u (record_trace t u) refl o.sorted;
}

clear-InOrder : (at : Phase) (n : ℕ) (u : UnitOfWork) → InOrder n u → InOrder n (clear at u)
unfolding clear
clear-InOrder at n u p = record { so_far = p.so_far; sorted = clear-IsSorted at u p.sorted }

-- A state with the same trace and buckets.
moved-InOrder :
    (n m : ℕ) (u v : UnitOfWork)
    → n ≤ m
    → u.trace ≡ v.trace
    → u.buckets ≡ v.buckets
    → InOrder n u
    → InOrder m v
moved-InOrder n m u v h e k o = record {
  so_far = IsOrderedTo-mono n m v.trace h (subst (IsOrderedTo n) e o.so_far);
  sorted = moved-IsSorted u v k o.sorted;
}

run_action-InOrder :
    (program : Program) (n : ℕ) (at : Phase) (a : Action) (u : UnitOfWork)
    → n ≤ phase_rank at
    → IsFor at a
    → InOrder n u
    → InOrder (phase_rank at) (run_action program at a u).0
unfolding run_action
run_action-InOrder program n at a u h k o =
    register-InOrder (phase_rank at) (program (u.trace ++ ran at a ∷ []) a.label).registrations _
      (record_trace-InOrder n (ran at a) u h k o)

-- Every state that the step can come to has the property.
abbrev Reaches : (UnitOfWork → Type 0) → Option Step → Type 0
Reaches P r = (s : Step) → r ≡ some s → P s.0

then_step-Reaches :
    (P Q : UnitOfWork → Type 0) (r : Option Step) (k : UnitOfWork → Option Step)
    → Reaches P r
    → ((u : UnitOfWork) → P u → Q u)
    → ((u : UnitOfWork) → P u → Reaches Q (k u))
    → Reaches Q (r then_step k)
then_step-Reaches P Q none k h weaken next s e = cc
then_step-Reaches P Q (some (u, none)) k h weaken next s e = next u (h (u, none) refl) s e
then_step-Reaches P Q (some (u, some f)) k h weaken next s e =
    subst (λ s. Q s.0) (some_inj e) (weaken u (h (u, some f) refl))

run_phase-InOrder :
    (program : Program) (n fuel : ℕ) (at : Phase) (u : UnitOfWork)
    → n ≤ phase_rank at
    → InOrder n u
    → Reaches (InOrder (phase_rank at)) (run_phase program fuel at u)
unfolding run_phase
run_phase-InOrder program n fuel at u h o s e =
    drain-keeps program (IsFor at) (InOrder (phase_rank at)) at
      (λ u p. bucket-IsSorted at u p.sorted) (clear-InOrder at (phase_rank at))
      (λ a u q p. run_action-InOrder program (phase_rank at) at a u (omega arith) q p) fuel
      (record u { phase = some at }) s e (moved-InOrder n (phase_rank at) u _ h refl refl o)

try_phases-InOrder :
    (program : Program) (fuel label : ℕ) (u : UnitOfWork)
    → InOrder 0 u
    → Reaches (InOrder 4) (try_phases program fuel label u)
unfolding try_phases
try_phases-InOrder program fuel label u o =
    link 3 after_commit (omega arith)
      (link 2 commit (omega arith) (link 1 prepare_commit (omega arith) third))
  where
    link :
        (n : ℕ) (at : Phase) {r : Option Step}
        → n ≤ phase_rank at
        → Reaches (InOrder n) r
        → Reaches (InOrder (phase_rank at)) (r then_step run_phase program fuel at)
    link n at {r} h p =
        then_step-Reaches (InOrder n) (InOrder (phase_rank at)) r (run_phase program fuel at) p
          (λ u. InOrder-mono n (phase_rank at) u h)
          (λ u q. run_phase-InOrder program n fuel at u h q)

    second :
        Reaches
          (InOrder 1)
          (run_phase program fuel pre_invocation u then_step run_phase program fuel invocation)
    second =
        link 0 invocation (omega arith)
          (run_phase-InOrder program 0 fuel pre_invocation u (omega arith) o)

    third : Reaches (InOrder 1) (
        run_phase program fuel pre_invocation u
        then_step run_phase program fuel invocation
        then_step (λ u. some (
            run_action program invocation
              (record { registered_for = invocation; label = label })
              u)))
    third =
        then_step-Reaches (InOrder 1) (InOrder 1) _
          (λ u. some (
            run_action program invocation (record { registered_for = invocation; label = label })
              u))
          second (λ u q. q)
          (λ u q s e.
            subst (λ s. InOrder 1 s.0) (some_inj e)
              (run_action-InOrder program 1 invocation
                (record { registered_for = invocation; label = label }) u (omega arith) refl q))

with_failure-Reaches :
    (f : Option Failure) (r : Option UnitOfWork)
    → ((u : UnitOfWork) → r ≡ some u → InOrder 5 u)
    → Reaches (InOrder 5) (with_failure f r)
with_failure-Reaches f none k s e = cc
with_failure-Reaches f (some u) k s e = subst (λ s. InOrder 5 s.0) (some_inj e) (k u refl)

finish-InOrder :
    (program : Program) (fuel : ℕ) (r : Option Step)
    → Reaches (InOrder 4) r
    → Reaches (InOrder 5) (finish program fuel r)
finish-InOrder program fuel none h = λ s e. cc
finish-InOrder program fuel (some (u, none)) h = with_failure-Reaches none _ λ u' e.
    notify_complete-keeps (InOrder 5) (register-InOrder 5)
      (λ l u o. record_trace-InOrder 5 (notified_complete l) u (omega arith) tt o) program fuel
      u.complete_handlers (record u { status = completed; closed = true }) u' e
      (moved-InOrder 4 5 u _ (omega arith) refl refl (h (u, none) refl))
finish-InOrder program fuel (some (u, some f)) h = with_failure-Reaches (some f) _ λ u' e.
    notify_error-keeps (InOrder 5) (register-InOrder 5)
      (λ l u o. record_trace-InOrder 5 (handled_error l) u (omega arith) tt o) program fuel
      u.error_handlers (record u { status = error; closed = true }) u' e
      (moved-InOrder 4 5 u _ (omega arith) refl refl (h (u, some f) refl))

-- When execute ends, on a fresh unit of work after any registrations on it, every action that ran did
-- so in the phase that it was registered for, the phases came in their order, and the error or
-- completion handlers after all of it.
pub execute_in_order :
    (program : Program) (fuel label : ℕ) (r : Registrations) (s : Step)
    → execute program fuel label (register r fresh) ≡ some s
    → IsOrdered s.0.trace × All IsPlaced s.0.trace
unfolding execute drive_phases
execute_in_order program fuel label r s e =
    elim (Bool-cases (is_not_started (register r fresh).status)) [
      | inl b ↦
          let o =
            (finish-InOrder program fuel _
              (try_phases-InOrder program fuel label
                (record (register r fresh) { status = started }) begun)
              s (sym (branch true b) ∙ e)).so_far in
          (o.ordered, o.placed)
      | inr b ↦
          let o =
            (subst (λ (s : Step). InOrder 0 s.0) (some_inj (sym (branch false b) ∙ e))
              start).so_far in
          (o.ordered, o.placed)
    ]
  where
    start : InOrder 0 (register r fresh)
    start = register-InOrder 0 r fresh (record {
      so_far = record { ordered = tt; bounded = tt; placed = tt };
      sorted = sorted_record fresh tt tt tt tt tt;
    })

    begun : InOrder 0 (record (register r fresh) { status = started })
    begun = record {
      so_far = start.so_far;
      sorted = moved-IsSorted (register r fresh) _ refl start.sorted;
    }

    branch :
        (c : Bool)
        → is_not_started (register r fresh).status ≡ c
        → (if is_not_started (register r fresh).status
            then drive_phases program fuel label (register r fresh)
            else some (register r fresh, some already_executed))
          ≡ (if c
              then drive_phases program fuel label (register r fresh)
              else some (register r fresh, some already_executed))
    branch c b =
        ap
          (λ c.
            if c
            then drive_phases program fuel label (register r fresh)
            else some (register r fresh, some already_executed))
          b
