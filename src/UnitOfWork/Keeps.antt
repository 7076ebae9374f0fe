-- ===== src/UnitOfWork/Keeps.antt =====
-- What one action keeps, every loop of the lifecycle keeps.
use kronos_ts.Common.{
  ℕ, zero, suc, ◌≡◌, refl, sym, ◌∙◌, subst, some, All, List, [], ◌∷◌, ◌++◌, Option-cases,
  List-cases, inl, inr, some_inj,
}
use kronos_ts.UnitOfWork.{
  Phase, Program, Action, Registrations, nothing, on_phase, on_error, when_complete, UnitOfWork,
  Step, register, on, run_action, run_all, clear, drain, bucket, notify_complete, notify_error,
  record_trace, completes, errors, notified_complete, handled_error,
}
use kronos_ts.UnitOfWork.Drain.{drain-empty, drain-more, drain-throws}

-- A property of the states that steps of this phase may pass through, and what it says of the actions
-- in the bucket.
module _ {ℓ} (program : Program) (Q : Action → Type 0) (P : UnitOfWork → Type ℓ) (at : Phase)
    (on_bucket : (u : UnitOfWork) → P u → All Q (bucket at u.buckets))
    (on_clear : (u : UnitOfWork) → P u → P (clear at u))
    (on_action : (a : Action) (u : UnitOfWork) → Q a → P u → P (run_action program at a u).0) where
  pub run_all-keeps :
      (xs : List Action) (u : UnitOfWork) → All Q xs → P u → P (run_all program at xs u).0
  unfolding run_all
  run_all-keeps [] u q p = p
  run_all-keeps (a ∷ xs) u q p = elim (Option-cases (run_action program at a u).1) [
    | inl e ↦
        rw (e, run_all) (run_all-keeps xs (run_action program at a u).0 q.1 (on_action a u q.0 p))
    | inr (f, e) ↦ rw (e, run_all) (on_action a u q.0 p)
  ]

  pub drain-keeps :
      (fuel : ℕ) (u : UnitOfWork) (s : Step) → drain program fuel at u ≡ some s → P u → P s.0
  unfolding drain
  drain-keeps zero u s h p = cc
  drain-keeps (suc fuel) u s h p = elim (List-cases (bucket at u.buckets)) [
    | inl e ↦ subst (λ s. P s.0) (some_inj (sym (drain-empty program fuel at u e) ∙ h)) p
    | inr (a, rest, e) ↦
        let kept =
          run_all-keeps (a ∷ rest) (clear at u) (subst (All Q) e (on_bucket u p)) (on_clear u p) in
        elim (Option-cases (run_all program at (a ∷ rest) (clear at u)).1) [
          | inl d ↦ drain-keeps fuel _ s (sym (drain-more program fuel at u a rest e d) ∙ h) kept
          | inr (f, d) ↦
              subst (λ s. P s.0) (some_inj (sym (drain-throws program fuel at u a rest f e d) ∙ h))
                kept
        ]
  ]

-- A property that registering keeps, and that recording keeps.
module _ {ℓ} (P : UnitOfWork → Type ℓ)
    (on_register : (r : Registrations) (u : UnitOfWork) → P u → P (register r u)) where
  pub notify_complete-keeps :
      ((l : ℕ) (u : UnitOfWork) → P u → P (record_trace (notified_complete l) u))
      → (program : Program) (fuel : ℕ) (pending : List ℕ) (u u' : UnitOfWork)
      → notify_complete program fuel pending u ≡ some u'
      → P u
      → P u'
  unfolding notify_complete
  notify_complete-keeps k program zero pending u u' h p = cc
  notify_complete-keeps k program (suc fuel) [] u u' h p = subst P (some_inj h) p
  notify_complete-keeps k program (suc fuel) (l ∷ rest) u u' h p =
      notify_complete-keeps k program fuel
        (rest ++ completes (program (u.trace ++ notified_complete l ∷ []) l).registrations) _ u' h
        (on_register ((program (u.trace ++ notified_complete l ∷ []) l).registrations) _ (k l u p))

  pub notify_error-keeps :
      ((l : ℕ) (u : UnitOfWork) → P u → P (record_trace (handled_error l) u))
      → (program : Program) (fuel : ℕ) (pending : List ℕ) (u u' : UnitOfWork)
      → notify_error program fuel pending u ≡ some u'
      → P u
      → P u'
  unfolding notify_error
  notify_error-keeps k program zero pending u u' h p = cc
  notify_error-keeps k program (suc fuel) [] u u' h p = subst P (some_inj h) p
  notify_error-keeps k program (suc fuel) (l ∷ rest) u u' h p =
      notify_error-keeps k program fuel
        (rest ++ errors (program (u.trace ++ handled_error l ∷ []) l).registrations) _ u' h
        (on_register ((program (u.trace ++ handled_error l ∷ []) l).registrations) _ (k l u p))

-- Registering touches nothing but the buckets and the handlers.
pub trace-register : (r : Registrations) (u : UnitOfWork) → (register r u).trace ≡ u.trace
unfolding register on
trace-register nothing u = refl
trace-register (on_phase at a more) u =
    trace-register more (on at (record { registered_for = at; label = a }) u)
trace-register (on_error h more) u =
    trace-register more (record u { error_handlers = u.error_handlers ++ h ∷ [] })
trace-register (when_complete h more) u =
    trace-register more (record u { complete_handlers = u.complete_handlers ++ h ∷ [] })

pub closed-register : (r : Registrations) (u : UnitOfWork) → (register r u).closed ≡ u.closed
unfolding register on
closed-register nothing u = refl
closed-register (on_phase at a more) u =
    closed-register more (on at (record { registered_for = at; label = a }) u)
closed-register (on_error h more) u =
    closed-register more (record u { error_handlers = u.error_handlers ++ h ∷ [] })
closed-register (when_complete h more) u =
    closed-register more (record u { complete_handlers = u.complete_handlers ++ h ∷ [] })

pub status-register : (r : Registrations) (u : UnitOfWork) → (register r u).status ≡ u.status
unfolding register on
status-register nothing u = refl
status-register (on_phase at a more) u =
    status-register more (on at (record { registered_for = at; label = a }) u)
status-register (on_error h more) u =
    status-register more (record u { error_handlers = u.error_handlers ++ h ∷ [] })
status-register (when_complete h more) u =
    status-register more (record u { complete_handlers = u.complete_handlers ++ h ∷ [] })
