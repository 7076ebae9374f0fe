-- ===== src/Repository/Cached.antt =====
-- A load that starts from a cached fold gives what the fold of the whole log gives.
use kronos_ts.Common.{
  ℕ, suc, ◌≤◌, ◌≡◌, refl, List, [], ◌∷◌, ◌++◌, filter, ltb, arith, Bool-cases, inl, inr,
}
use kronos_ts.Outcome.{Outcome, ok, throws, ◌>>=◌}
use kronos_ts.Messages.{EventMessage, QualifiedName}
use kronos_ts.Query.{EventCriteria, matches_criteria}
use kronos_ts.EventStore.{Entry, matching}
use kronos_ts.EventStore.Log.{Numbered, Numbered-le}
use kronos_ts.Repository.Fitness.{Value}
use kronos_ts.Repository.{apply_event, fold_events}

module _ {P : Type 0} where
  -- The matching entries below a position.
  abbrev pub matching_before : List (Entry P) → ℕ → EventCriteria → List (Entry P)
  matching_before events stop c =
      filter (λ e. matches_criteria e.event c) (filter (λ e. ltb e.position stop) events)

  pub matching_before-low :
      (events : List (Entry P)) (n m stop : ℕ) (c : EventCriteria)
      → Numbered n events m
      → stop ≤ n
      → matching_before events stop c ≡ []
  matching_before-low [] n m stop c h le = refl
  matching_before-low (e ∷ events) n m stop c h le =
      ground (arith, h.0, matching_before-low events (suc n) m stop c h.1 (omega arith))

  -- Cut at a position, the matching entries are those below it and those from it on.
  pub matching-cut :
      (events : List (Entry P)) (n m stop : ℕ) (c : EventCriteria)
      → Numbered n events m
      → matching_before events stop c ++ matching events stop c ≡ matching events 0 c
  unfolding matching
  matching-cut [] n m stop c h = refl
  matching-cut (e ∷ events) n m stop c h = elim (Bool-cases (ltb e.position stop)) [
    | inl y ↦ ground (arith, matching-cut events (suc n) m stop c h.1)
    | inr y ↦ ground (
      arith,
      h.0,
      matching-cut events (suc n) m stop c h.1,
      matching_before-low events (suc n) m stop c h.1 (ground arith),
    )
  ]

  -- Below the next position, every entry of a log lies.
  pub matching_before-all :
      (events : List (Entry P)) (n m stop : ℕ) (c : EventCriteria)
      → Numbered n events m
      → m ≤ stop
      → matching_before events stop c ≡ matching events 0 c
  unfolding matching
  matching_before-all [] n m stop c h le = refl
  matching_before-all (e ∷ events) n m stop c h le = ground (
    arith,
    h.0,
    Numbered-le (suc n) m events h.1,
    matching_before-all events (suc n) m stop c h.1 le,
  )

  pub fold_events-append :
      (evolvers : List (QualifiedName × (Value → EventMessage P → Outcome Value))) (state : Value)
      (xs ys : List (EventMessage P))
      → fold_events evolvers state (xs ++ ys)
        ≡ fold_events evolvers state xs >>= (λ state'. fold_events evolvers state' ys)
  unfolding fold_events
  fold_events-append evolvers state [] ys = refl
  fold_events-append evolvers state (x ∷ xs) ys =
      by_outcome (λ v. fold_events-append evolvers v xs ys) (apply_event evolvers state x)
    where
      by_outcome :
          ((v : Value)
            → fold_events evolvers v (xs ++ ys)
              ≡ fold_events evolvers v xs >>= (λ state'. fold_events evolvers state' ys))
          → (o : Outcome Value)
          → o >>= (λ v. fold_events evolvers v (xs ++ ys))
            ≡ (o >>= (λ v. fold_events evolvers v xs))
              >>= (λ state'. fold_events evolvers state' ys)
      by_outcome later (ok v) = later v
      by_outcome later (throws error) = refl
