-- ===== src/Repository/Sourced.antt =====
-- What a load folds, and on which state.
use kronos_ts.Common.{
  ℕ, suc, ◌≤◌, ◌≡◌, refl, ap, sym, ◌∙◌, subst, true, Option, none, some, List, [], ◌∷◌, map,
  map-append, length, ltb, arith, Bool-cases, if-true, if-false, inl, inr,
}
use kronos_ts.Common.Int.{ℤ}
use kronos_ts.Common.Text.{Text}
use kronos_ts.Common.Map.{get}
use kronos_ts.Outcome.{ok, ◌>>=◌}
use kronos_ts.Query.{EventCriteria, compile_query}
use kronos_ts.EventStore.{
  Entry, EventLog, SourcingResult, sourcing_condition, without_snapshot_key, source, matching,
  last_position,
}
use kronos_ts.EventStore.Log.{IsLog, Numbered, Numbered-le}
use kronos_ts.Repository.Fitness.{Value, matches_initial_structure}
use kronos_ts.Repository.{
  Snapshot, SnapshotConfig, State, Cache, key_for, strategy_for, source_snapshotting, source_found,
  fold_events, judged, resume_from, with_snapshot, without_snapshot,
}
use kronos_ts.Repository.Cached.{matching_before, matching-cut, fold_events-append}
use kronos_ts.Repository.Sound.{IsFresh, IsSound, sourced_from, source-ok, all_events}

module _ {P : Type 0} (m : State P) where
  module _ (log : EventLog P) (isLog : IsLog log) (id : Text) (c : EventCriteria)
      (compiled : compile_query (m.query id) ≡ ok c) where
    -- What a read gives: all events, or those behind a snapshot that is fresh.
    abbrev pub IsSourced : SourcingResult P × Option Snapshot → Type 0
    IsSourced (result, none) = result ≡ sourced_from m log 0 c
    IsSourced (result, some snapshot) =
        (f : IsFresh m id log snapshot) × (result ≡ sourced_from m log (suc f.last) c)

    sourcing_found :
        (found : Option Snapshot)
        → ((snapshot : Snapshot) → found ≡ some snapshot → IsFresh m id log snapshot)
        → (r : SourcingResult P × Option Snapshot) × (source_found log
              (record { query = m.query id; start = none; snapshot = none })
              found
            ≡ ok r)
          × IsSourced r
    sourcing_found none fresh = (
      (sourced_from m log 0 c, none),
      ap without_snapshot (source-ok m log none none (m.query id) c compiled),
      refl,
    )
    sourcing_found (some snapshot) fresh =
        let f = fresh snapshot refl in
        (
          (sourced_from m log (suc f.last) c, some snapshot),
          ap
                (λ (n : ℤ). with_snapshot snapshot (
                  source log
                    (record { query = m.query id; start = some (resume_from n); snapshot = none })))
                f.place
              ∙ ap (with_snapshot snapshot)
                  (source-ok m log (some (suc f.last)) none (m.query id) c compiled),
          (f, refl),
        )

    pub sourcing :
        (config : Option SnapshotConfig) (cache : Cache)
        → IsSound m config log cache
        → (r : SourcingResult P × Option Snapshot) × (source_snapshotting log cache
              (sourcing_condition (m.query id) none (strategy_for config id))
            ≡ ok r)
          × IsSourced r
    unfolding source_snapshotting sourcing_condition without_snapshot_key
    sourcing config none sound = sourced_whole config
      where
        sourced_whole :
            (config : Option SnapshotConfig)
            → (r : SourcingResult P × Option Snapshot) × (without_snapshot (
                  source log (record {
                    query = m.query id;
                    start = none;
                    snapshot = strategy_for config id;
                  }))
                ≡ ok r)
              × IsSourced r
        sourced_whole config = (
          (sourced_from m log 0 c, none),
          ap without_snapshot
              (source-ok m log none (strategy_for config id) (m.query id) c compiled),
          refl,
        )
    sourcing none (some cache) sound = (
      (sourced_from m log 0 c, none),
      ap without_snapshot (source-ok m log none none (m.query id) c compiled),
      refl,
    )
    sourcing (some config) (some cache) sound =
        sourcing_found (get (key_for config.key id) cache) (sound id)

    -- What is folded, and on which state.
    pub record IsStart (r : SourcingResult P × Value) : Type 0 where
      pub marker : r.0.marker.position ≡ last_position log.events
      pub folds :
          fold_events m.evolvers r.1 r.0.events
          ≡ fold_events m.evolvers (m.initial id) (all_events m log isLog id c compiled)
      pub some_event : ltb 0 (length r.0.events) ≡ true → 1 ≤ log.next_position

    some_event_from :
        (start : ℕ)
        → ltb 0 (length (sourced_from m log start c).events) ≡ true
        → 1 ≤ log.next_position
    unfolding matching
    some_event_from start h = by_events log.events isLog h
      where
        by_events :
            (events : List (Entry P))
            → Numbered 0 events log.next_position
            → ltb 0 (length (map (λ e. e.event) (matching events start c))) ≡ true
            → 1 ≤ log.next_position
        by_events [] n h = absurd (ground arith)
        by_events (e ∷ events) n h = omega (arith, Numbered-le 1 log.next_position events n.1)

    IsStart-whole : IsStart (sourced_from m log 0 c, m.initial id)
    IsStart-whole = record { marker = refl; folds = refl; some_event = some_event_from 0 }

    IsStart-fresh :
        (snapshot : Snapshot) (f : IsFresh m id log snapshot)
        → IsStart (sourced_from m log (suc f.last) c, snapshot.state)
    IsStart-fresh snapshot f = record {
      marker = refl;
      folds = sym (
          ap (fold_events m.evolvers (m.initial id)) (
            ap (map (λ e. e.event))
              (sym (matching-cut log.events 0 log.next_position (suc f.last) c isLog))
            ∙ map-append (λ e. e.event) (matching_before log.events (suc f.last) c)
                (matching log.events (suc f.last) c))
          ∙ fold_events-append m.evolvers (m.initial id)
              (map (λ e. e.event) (matching_before log.events (suc f.last) c))
              (map (λ e. e.event) (matching log.events (suc f.last) c))
          ∙ ap
              (λ o. o >>= (λ v.
                fold_events m.evolvers v (map (λ e. e.event) (matching log.events (suc f.last) c))))
              (f.folded c compiled));
      some_event = some_event_from (suc f.last);
    }

    pub judging :
        (r : SourcingResult P × Option Snapshot)
        → IsSourced r
        → (start : SourcingResult P × Value) × (judged m log id r ≡ ok start) × IsStart start
    unfolding sourcing_condition
    judging (result, none) sourced = (
      (result, m.initial id),
      refl,
      subst (λ r. IsStart (r, m.initial id)) (sym sourced) IsStart-whole,
    )
    judging (result, some snapshot) (f, sourced) =
        elim (Bool-cases (matches_initial_structure (m.initial id) snapshot.state)) [
          | inl y ↦ (
            (result, snapshot.state),
            if-true (matches_initial_structure (m.initial id) snapshot.state) _ _ y,
            subst (λ r. IsStart (r, snapshot.state)) (sym sourced) (IsStart-fresh snapshot f),
          )
          | inr y ↦ (
            (sourced_from m log 0 c, m.initial id),
            if-false (matches_initial_structure (m.initial id) snapshot.state) _ _ y
                ∙ ap (λ o. o >>= (λ replayed. ok (replayed, m.initial id)))
                    (source-ok m log none none (m.query id) c compiled),
            IsStart-whole,
          )
        ]
