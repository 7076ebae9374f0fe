-- ===== src/Repository/Sound.antt =====
-- When a cache of folds is sound, and that the write of a load keeps it so.
use kronos_ts.Common.{
  ℕ, zero, suc, ◌≤◌, ◌≡◌, refl, ap, sym, ◌∙◌, subst, Bool, true, ◌&&◌, Option, none, some, List, [],
  ◌∷◌, map, if◌then◌else◌, ltb, arith, Bool-cases, &&_iff, some_inj, inl, inr, if-holds,
}
use kronos_ts.Common.Int.{pos}
use kronos_ts.Common.Text.{Text, text_eq, text_eq_iff}
use kronos_ts.Common.Map.{get, set, get-set}
use kronos_ts.Outcome.{Outcome, ok, throws, Failure, ok-injective, ◌>>=◌}
use kronos_ts.Messages.{EventMessage}
use kronos_ts.Query.{EventQuery, EventCriteria, compile_query}
use kronos_ts.EventStore.{
  EventLog, SourcingResult, sourcing_condition, source, start_of, matching, last_position, before,
}
use kronos_ts.EventStore.Log.{IsLog, last_position-IsLog}
use kronos_ts.EventStore.Flush.{SourcingInfo}
use kronos_ts.Repository.Fitness.{Value}
use kronos_ts.Repository.{
  Snapshot, SnapshotConfig, State, Cache, key_for, store_snapshot, save, fold_events,
}
use kronos_ts.Repository.Cached.{matching_before, matching_before-all}

-- A key of one state's cache belongs to one identifier.
key_for-injective : (key id id' : Text) → key_for key id ≡ key_for key id' → id ≡ id'
key_for-injective [] id id' h = cc
key_for-injective (c ∷ key) id id' h = key_for-injective key id id' (tail h)
  where
    tail : {a b : ℕ} {s t : Text} → a ∷ s ≡ b ∷ t → s ≡ t
    tail h = cc

predecessor : (n : ℕ) → 1 ≤ n → (p : ℕ) × (n ≡ suc p)
predecessor zero le = absurd (omega arith)
predecessor (suc p) le = (p, refl)

module _ {P : Type 0} (m : State P) where
  -- The load without any cache: the fold of all matching events on the initial state.
  unfoldable pub replay_all : Text → EventLog P → Outcome (Value × SourcingInfo)
  replay_all id log = do
    sourced ← source log (sourcing_condition (m.query id) none none)
    state ← fold_events m.evolvers (m.initial id) sourced.events
    ok (state, record { query = m.query id; marker_position = sourced.marker.position })

  -- The snapshot is of the log: the cached state is the fold of the log up to the snapshot's position.
  pub record IsFresh (id : Text) (log : EventLog P) (snapshot : Snapshot) : Type 0 where
    pub last : ℕ
    pub place : snapshot.position ≡ pos last
    pub within : suc last ≤ log.next_position
    pub folded :
        (c : EventCriteria)
        → compile_query (m.query id) ≡ ok c
        → fold_events m.evolvers
            (m.initial id)
            (map (λ e. e.event) (matching_before log.events (suc last) c))
          ≡ ok snapshot.state

  abbrev pub IsSound : Option SnapshotConfig → EventLog P → Cache → Type 0
  IsSound none log cache = Unit
  IsSound (some config) log none = ⊥
  IsSound (some config) log (some cache) =
      (id : Text) (snapshot : Snapshot)
      → get (key_for config.key id) cache ≡ some snapshot
      → IsFresh id log snapshot

  -- A load gave what the replay gives, and left a sound cache.
  abbrev pub IsLoaded :
      EventLog P
      → Outcome ((Value × SourcingInfo) × Cache)
      → Outcome (Value × SourcingInfo)
      → Type 0
  IsLoaded log (ok (loaded, cache)) (ok replayed) =
      (loaded ≡ replayed) × IsSound m.snapshot log cache
  IsLoaded log (throws error) (throws error') = error ≡ error'
  IsLoaded log _ _ = ⊥

  -- What the log gives from a position on.
  abbrev pub sourced_from : EventLog P → ℕ → EventCriteria → SourcingResult P
  sourced_from log start c = record {
    events = map (λ e. e.event) (matching log.events start c);
    marker = record { position = last_position log.events };
  }

  pub source-ok :
      (log : EventLog P) (start : Option ℕ) (key : Option Text) (query : EventQuery)
      (c : EventCriteria)
      → compile_query query ≡ ok c
      → source log (record { query = query; start = start; snapshot = key })
        ≡ ok (
            sourced_from log (start_of (record { query = query; start = start; snapshot = key })) c)
  unfolding source
  source-ok log start key query c e = rw e refl

  pub source-throws :
      (log : EventLog P) (start : Option ℕ) (key : Option Text) (query : EventQuery)
      (error : Failure)
      → compile_query query ≡ throws error
      → source log (record { query = query; start = start; snapshot = key }) ≡ throws error
  unfolding source
  source-throws log start key query error e = rw e refl

  module _ (log : EventLog P) (isLog : IsLog log) (id : Text) (c : EventCriteria)
      (compiled : compile_query (m.query id) ≡ ok c) where
    abbrev pub all_events : List (EventMessage P)
    all_events = map (λ e. e.event) (matching log.events 0 c)

    -- The snapshot that a load of the whole log writes.
    saved-IsFresh :
        (state : Value)
        → fold_events m.evolvers (m.initial id) all_events ≡ ok state
        → 1 ≤ log.next_position
        → IsFresh id log (record { state = state; position = last_position log.events })
    saved-IsFresh state h le =
        let (p, e) = predecessor log.next_position le in
        record {
          last = p;
          place = last_position-IsLog log isLog ∙ ap before e;
          within = omega (arith, e);
          folded = λ c' compiled'.
              ap (fold_events m.evolvers (m.initial id)) (
                ap (map (λ e. e.event)) (
                  matching_before-all log.events 0 log.next_position (suc p) c' isLog
                    (omega (arith, e))
                  ∙ ap (matching log.events 0) (ok-injective (sym compiled' ∙ compiled))))
              ∙ h;
        }

    pub save-IsSound :
        (config : Option SnapshotConfig) (n time : ℕ) (written : Bool) (state : Value)
        (cache : Cache)
        → fold_events m.evolvers (m.initial id) all_events ≡ ok state
        → (ltb 0 n ≡ true → 1 ≤ log.next_position)
        → IsSound config log cache
        → IsSound config log (
            save config id n time written
              (record { state = state; position = last_position log.events })
              cache)
    unfolding save store_snapshot
    save-IsSound none n time written state cache h some_event sound = tt
    save-IsSound (some config) n time written state none h some_event sound = sound
    save-IsSound (some config) n time written state (some cache) h some_event sound =
        if-holds (IsSound (some config) log) ((ltb 0 n && config.due n time) && written)
          (λ y id' snapshot found.
            let (due, _) = (&&_iff (ltb 0 n && config.due n time) written).0 y in
            let (some_applied, _) = (&&_iff (ltb 0 n) (config.due n time)).0 due in
            stored (some_event some_applied) id' snapshot found)
          (λ y. sound)
      where
        stored :
            1 ≤ log.next_position
            → (id' : Text) (snapshot : Snapshot)
            → get (key_for config.key id') (
                set
                  (key_for config.key id)
                  (record { state = state; position = last_position log.events })
                  cache)
              ≡ some snapshot
            → IsFresh id' log snapshot
        stored le id' snapshot found =
            let new : Snapshot = record { state = state; position = last_position log.events } in
            let found' =
              sym (get-set (key_for config.key id) (key_for config.key id') new cache) ∙ found in
            elim (Bool-cases (text_eq (key_for config.key id) (key_for config.key id'))) [
              | inl t ↦
                  let same_id =
                    key_for-injective config.key id id'
                      ((text_eq_iff (key_for config.key id) (key_for config.key id')).0 t) in
                  let same_snapshot = some_inj (
                    sym (ap (λ b. if b then some new else get (key_for config.key id') cache) t)
                    ∙ found') in
                  subst (λ i. IsFresh i log snapshot) same_id
                    (subst (IsFresh id log) same_snapshot (saved-IsFresh state h le))
              | inr t ↦ sound id' snapshot (
                  sym (ap (λ b. if b then some new else get (key_for config.key id') cache) t)
                  ∙ found')
            ]
