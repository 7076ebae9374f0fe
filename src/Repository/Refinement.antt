-- ===== src/Repository/Refinement.antt =====
-- Loads with a cache of folds against the replay of the whole log.
use kronos_ts.Common.{
  ℕ, ◌≤◌, ◌≡◌, refl, ap, sym, ◌∙◌, subst, Bool, true, Option, none, some, List, length, ltb, inl,
  inr,
}
use kronos_ts.Common.Int.{ℤ}
use kronos_ts.Common.Text.{Text}
use kronos_ts.Common.Map.{get}
use kronos_ts.Outcome.{Outcome, ok, throws, Failure, Outcome-cases, ◌>>=◌}
use kronos_ts.Messages.{EventMessage}
use kronos_ts.Query.{EventCriteria, compile_query}
use kronos_ts.EventStore.{
  EventLog, SourcingResult, sourcing_condition, without_snapshot_key, last_position,
}
use kronos_ts.EventStore.Log.{IsLog}
use kronos_ts.EventStore.Flush.{SourcingInfo}
use kronos_ts.Repository.Fitness.{Value}
use kronos_ts.Repository.{
  Snapshot, SnapshotConfig, State, Cache, key_for, strategy_for, save, source_snapshotting,
  source_found, fold_events, judged, do_load, load, resume_from, with_snapshot, without_snapshot,
  capable_or_throw,
}
use kronos_ts.Repository.Sound.{
  IsSound, IsLoaded, replay_all, source-ok, source-throws, all_events, save-IsSound,
}
use kronos_ts.Repository.Sourced.{sourcing, judging}

module _ {P : Type 0} (m : State P) where
  module _ (log : EventLog P) (isLog : IsLog log) (id : Text) (c : EventCriteria)
      (compiled : compile_query (m.query id) ≡ ok c) where
    -- The fold and the write of a load, from any start that has the same fold.
    finishing :
        (time : ℕ) (written : Bool) (cache : Cache) (v : Value) (es : List (EventMessage P))
        → fold_events m.evolvers v es
          ≡ fold_events m.evolvers (m.initial id) (all_events m log isLog id c compiled)
        → (ltb 0 (length es) ≡ true → 1 ≤ log.next_position)
        → IsSound m m.snapshot log cache
        → IsLoaded m log
            (fold_events m.evolvers v es >>= (λ state. ok (
              (state, record { query = m.query id; marker_position = last_position log.events }),
              save m.snapshot id
                  (length es)
                  time
                  written
                  (record { state = state; position = last_position log.events })
                  cache,
            )))
            (fold_events m.evolvers (m.initial id) (all_events m log isLog id c compiled)
              >>= (λ state. ok (
                state,
                record { query = m.query id; marker_position = last_position log.events },
              )))
    finishing time written cache v es same some_event sound =
        elim (Outcome-cases
          (fold_events m.evolvers (m.initial id) (all_events m log isLog id c compiled))) [
            | inl (state, h) ↦
                rw (same, h)
                  (
                    refl,
                    save-IsSound m log isLog id c compiled m.snapshot (length es) time written state
                        cache h some_event sound,
                  )
            | inr (error, h) ↦ rw (same, h) refl
          ]

    -- The rest of a load and of a replay, once it is known what to fold.
    abbrev ending :
        ℕ → Bool → Cache → SourcingResult P × Value → ℤ → Outcome ((Value × SourcingInfo) × Cache)
    ending time written cache start n = fold_events m.evolvers start.1 start.0.events >>= (λ state.
        ok (
          (state, record { query = m.query id; marker_position = n }),
          save m.snapshot id (length start.0.events) time written
              (record { state = state; position = n }) cache,
        ))

    do_load-ending :
        (time : ℕ) (written : Bool) (cache : Cache) (r : SourcingResult P × Option Snapshot)
        (start : SourcingResult P × Value)
        → source_snapshotting log cache
            (sourcing_condition (m.query id) none (strategy_for m.snapshot id))
          ≡ ok r
        → judged m log id r ≡ ok start
        → do_load m time written id log cache
          ≡ ending time written cache start start.0.marker.position
    unfolding do_load
    do_load-ending time written cache r start e₁ e₂ =
        ap
          (λ o. o >>= (λ r.
            judged m log id r
            >>= (λ start. ending time written cache start start.0.marker.position)))
          e₁
        ∙ ap (λ o. o >>= (λ start. ending time written cache start start.0.marker.position)) e₂

    replay_all-ending :
        replay_all m id log
        ≡ fold_events m.evolvers (m.initial id) (all_events m log isLog id c compiled) >>= (λ state.
          ok (state, record { query = m.query id; marker_position = last_position log.events }))
    unfolding replay_all sourcing_condition
    replay_all-ending =
        ap
          (λ o. o >>= (λ (sourced : SourcingResult P).
            fold_events m.evolvers (m.initial id) sourced.events >>= (λ state.
              ok
                (state, record { query = m.query id; marker_position = sourced.marker.position }))))
          (source-ok m log none none (m.query id) c compiled)

    compiled-IsLoaded :
        (time : ℕ) (written : Bool) (cache : Cache)
        → IsSound m m.snapshot log cache
        → IsLoaded m log (do_load m time written id log cache) (replay_all m id log)
    compiled-IsLoaded time written cache sound =
        let (r, e₁, sourced) = sourcing m log isLog id c compiled m.snapshot cache sound in
        let (start, e₂, good) = judging m log isLog id c compiled r sourced in
        subst (λ x. IsLoaded m log x (replay_all m id log))
          (sym (do_load-ending time written cache r start e₁ e₂))
          (subst (IsLoaded m log (ending time written cache start start.0.marker.position))
            (sym replay_all-ending)
            (subst
              (λ (n : ℤ). (IsLoaded m) log (ending time written cache start n) (
                fold_events m.evolvers (m.initial id) (all_events m log isLog id c compiled)
                >>= (λ state. ok (
                  state,
                  record { query = m.query id; marker_position = last_position log.events },
                ))))
              (sym good.marker)
              (finishing time written cache start.1 start.0.events good.folds good.some_event
                sound)))

  sourcing-throws :
      (log : EventLog P) (id : Text) (error : Failure) (config : Option SnapshotConfig)
      (cache : Cache)
      → compile_query (m.query id) ≡ throws error
      → source_snapshotting log cache
          (sourcing_condition (m.query id) none (strategy_for config id))
        ≡ throws error
  unfolding source_snapshotting sourcing_condition without_snapshot_key
  sourcing-throws log id error config none e =
      ap without_snapshot (source-throws m log none (strategy_for config id) (m.query id) error e)
  sourcing-throws log id error none (some cache) e =
      ap without_snapshot (source-throws m log none none (m.query id) error e)
  sourcing-throws log id error (some config) (some cache) e =
      found_or_not (get (key_for config.key id) cache)
    where
      found_or_not :
          (found : Option Snapshot)
          → source_found log (record { query = m.query id; start = none; snapshot = none }) found
            ≡ throws error
      found_or_not none = ap without_snapshot (source-throws m log none none (m.query id) error e)
      found_or_not (some snapshot) =
          ap (with_snapshot snapshot)
            (source-throws m log (some (resume_from snapshot.position)) none (m.query id) error e)

  -- A query that does not compile fails the load and the replay alike.
  refused-IsLoaded :
      (log : EventLog P) (id : Text) (error : Failure) (time : ℕ) (written : Bool) (cache : Cache)
      → compile_query (m.query id) ≡ throws error
      → IsLoaded m log (do_load m time written id log cache) (replay_all m id log)
  unfolding do_load replay_all sourcing_condition
  refused-IsLoaded log id error time written cache e =
      rw
        (
          sourcing-throws log id error m.snapshot cache e,
          source-throws m log none none (m.query id) error e,
        )
        refl

  IsSound-capable :
      (config : Option SnapshotConfig) (log : EventLog P) (cache : Cache)
      → IsSound m config log cache
      → capable_or_throw config cache ≡ ok tt
  IsSound-capable none log cache sound = refl
  IsSound-capable (some config) log none sound = absurd sound
  IsSound-capable (some config) log (some cache) sound = refl

  -- A load with a sound cache gives what the replay gives, and leaves a sound cache.
  pub load-IsLoaded :
      (log : EventLog P) (time : ℕ) (written : Bool) (id : Text) (cache : Cache)
      → IsLog log
      → IsSound m m.snapshot log cache
      → IsLoaded m log (load m time written id log cache) (replay_all m id log)
  unfolding load
  load-IsLoaded log time written id cache isLog sound =
      subst
        (λ x.
          IsLoaded m log (x >>= (λ _. do_load m time written id log cache)) (replay_all m id log))
        (sym (IsSound-capable m.snapshot log cache sound))
        (elim (Outcome-cases (compile_query (m.query id))) [
          | inl (c, compiled) ↦ compiled-IsLoaded log isLog id c compiled time written cache sound
          | inr (error, e) ↦ refused-IsLoaded log id error time written cache e
        ])
