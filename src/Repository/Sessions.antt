-- ===== src/Repository/Sessions.antt =====
-- What a cache that loads and appends have made holds, and so what a load from it gives.
use kronos_ts.Common.{
  ℕ, suc, ◌≤◌, ◌≡◌, ap, ◌∙◌, subst, Bool, Option, none, some, List, [], ◌∷◌, ◌++◌, map, arith,
}
use kronos_ts.Common.Map.{get}
use kronos_ts.Common.Text.{Text}
use kronos_ts.Outcome.{Outcome, ok, throws}
use kronos_ts.Messages.{EventMessage}
use kronos_ts.Query.{EventCriteria}
use kronos_ts.EventStore.{Entry, EventLog, AppendCondition, ConsistencyMarker, append}
use kronos_ts.EventStore.Log.{IsLog, Numbered, Extends, Numbered-le, Extends-IsLog, append-Extends}
use kronos_ts.EventStore.Flush.{SourcingInfo}
use kronos_ts.Repository.Fitness.{Value}
use kronos_ts.Repository.{Snapshot, SnapshotConfig, State, Cache, load, fold_events}
use kronos_ts.Repository.Cached.{matching_before, matching_before-low}
use kronos_ts.Repository.Sound.{replay_all, IsFresh, IsSound, IsLoaded}
use kronos_ts.Repository.Refinement.{load-IsLoaded}

module _ {P : Type 0} where
  -- What is appended later does not touch the entries below a position of the log.
  matching_before-append :
      (events more : List (Entry P)) (n m k stop : ℕ) (c : EventCriteria)
      → Numbered n events m
      → Numbered m more k
      → stop ≤ m
      → matching_before (events ++ more) stop c ≡ matching_before events stop c
  matching_before-append [] more n m k stop c h later le =
      matching_before-low more m k stop c later le
  matching_before-append (e ∷ events) more n m k stop c h later le =
      ground (arith, matching_before-append events more (suc n) m k stop c h.1 later le)

module _ {P : Type 0} (m : State P) where
  IsFresh-later :
      (log later : EventLog P) (id : Text) (snapshot : Snapshot)
      → IsLog log
      → Extends log later
      → IsFresh m id log snapshot
      → IsFresh m id later snapshot
  IsFresh-later log later id snapshot isLog x f = record {
    last = f.last;
    place = f.place;
    within =
        omega
          (arith, f.within, Numbered-le log.next_position later.next_position x.more x.numbered);
    folded = λ c compiled.
        ap (λ es. fold_events m.evolvers (m.initial id) (map (λ e. e.event) es))
          (ap (λ es. matching_before es (suc f.last) c) x.events
            ∙ matching_before-append log.events x.more 0 log.next_position later.next_position
                (suc f.last) c isLog x.numbered f.within)
        ∙ f.folded c compiled;
  }

  IsSound-later :
      (config : Option SnapshotConfig) (log later : EventLog P) (cache : Cache)
      → IsLog log
      → Extends log later
      → IsSound m config log cache
      → IsSound m config later cache
  IsSound-later none log later cache isLog x sound = tt
  IsSound-later (some config) log later none isLog x sound = sound
  IsSound-later (some config) log later (some cache) isLog x sound =
      λ id snapshot found. IsFresh-later log later id snapshot isLog x (sound id snapshot found)

  -- The caches that a snapshotting store has, from an empty one on: after appends and loads of any
  -- identifiers, with a write of a snapshot that comes about or not.
  pub data Reached : EventLog P → Cache → Type 0 where
    wrapped : {log : EventLog P} → IsLog log → Reached log (some [])
    appended :
        (log later : EventLog P) (cache : Cache) (events : List (EventMessage P))
        (condition : Option AppendCondition) (marker : ConsistencyMarker)
        → Reached log cache
        → append log events condition ≡ ok (later, marker)
        → Reached later cache
    loaded :
        (log : EventLog P) (cache cache' : Cache) (time : ℕ) (written : Bool) (id : Text)
        (result : Value × SourcingInfo)
        → Reached log cache
        → load m time written id log cache ≡ ok (result, cache')
        → Reached log cache'

  IsLoaded-IsSound :
      (log : EventLog P) (result : Value × SourcingInfo) (cache : Cache)
      (replayed : Outcome (Value × SourcingInfo))
      → IsLoaded m log (ok (result, cache)) replayed
      → IsSound m m.snapshot log cache
  IsLoaded-IsSound log result cache (ok r) h = h.1
  IsLoaded-IsSound log result cache (throws error) h = absurd h

  empty-IsSound :
      (config : Option SnapshotConfig) (log : EventLog P) → IsSound m config log (some [])
  unfolding get
  empty-IsSound none log = tt
  empty-IsSound (some config) log = λ id snapshot found. absurd (none_some found)
    where
      none_some : {a : Snapshot} → none ≡ some a → ⊥
      none_some h = cc

  Reached-IsSound :
      (log : EventLog P) (cache : Cache)
      → Reached log cache
      → IsLog log × IsSound m m.snapshot log cache
  Reached-IsSound log _ (wrapped isLog) = (isLog, empty-IsSound m.snapshot log)
  Reached-IsSound _ _ (appended log later cache events condition marker before h) =
      let (isLog, sound) = Reached-IsSound log cache before in
      let x = append-Extends log later events condition marker h in
      (Extends-IsLog log later x isLog, IsSound-later m.snapshot log later cache isLog x sound)
  Reached-IsSound _ _ (loaded log cache cache' time written id result before h) =
      let (isLog, sound) = Reached-IsSound log cache before in
      (
        isLog,
        IsLoaded-IsSound log result cache' (replay_all m id log) (
            subst (λ o. IsLoaded m log o (replay_all m id log)) h
              (load-IsLoaded m log time written id cache isLog sound)),
      )

  -- What a load of one identifier gives its caller.
  abbrev pub loaded_of : Outcome ((Value × SourcingInfo) × Cache) → Outcome (Value × SourcingInfo)
  loaded_of (ok (result, cache)) = ok result
  loaded_of (throws error) = throws error

  IsLoaded-loaded_of :
      (log : EventLog P) (o : Outcome ((Value × SourcingInfo) × Cache))
      (replayed : Outcome (Value × SourcingInfo))
      → IsLoaded m log o replayed
      → loaded_of o ≡ replayed
  IsLoaded-loaded_of log (ok (result, cache)) (ok r) h = ap ok h.0
  IsLoaded-loaded_of log (throws error) (throws error') h = ap throws h
  IsLoaded-loaded_of log (ok (result, cache)) (throws error) h = absurd h
  IsLoaded-loaded_of log (throws error) (ok r) h = absurd h

  -- A load from a log with a cache, which was empty at first and then saw any appends and any loads of
  -- the state, gives what the fold of all matching events of the log on the initial state gives: the
  -- same state, query and marker position, or the same error.
  pub load_transparent :
      (log : EventLog P) (cache : Cache) (time : ℕ) (written : Bool) (id : Text)
      → Reached log cache
      → loaded_of (load m time written id log cache) ≡ replay_all m id log
  load_transparent log cache time written id reached =
      let (isLog, sound) = Reached-IsSound log cache reached in
      IsLoaded-loaded_of log (load m time written id log cache) (replay_all m id log)
        (load-IsLoaded m log time written id cache isLog sound)
