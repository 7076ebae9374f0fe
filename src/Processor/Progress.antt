-- ===== src/Processor/Progress.antt =====
-- Where a worker stands: what its token, its stream and the database have come to.
use kronos_ts.Common.{
  ℕ, ◌≤◌, ◌<◌, max, ◌≡◌, ap, sym, ◌∙◌, Bool, Option, none, some, List, [], ◌++◌, map, filter-append,
  arith, Bool-cases, inl, inr, append-nil, leb,
}
use kronos_ts.Token.{TrackingToken, position, advance_token_to}
use kronos_ts.Token.Order.{IsBounded}
use kronos_ts.Processor.{SequencedEvent, hash_of, marks_at}
use kronos_ts.Processor.Worker.{Settings, Log, position_or}
use kronos_ts.Processor.Poll.{accepted}
use kronos_ts.Processor.Advance.{IsCursor, IsProgress, IsAlike, IsAlike-trans, advanced}
use kronos_ts.Processor.Batch.{Ascending}
use kronos_ts.Processor.Between.{
  between, ahead, between-between, between-low, between-none, between-ahead, ahead-eq,
}
use kronos_ts.Processor.Effect.{IsLog, apply_all}

module _ {P : Type 0} where
  -- What comes after the head adds nothing below it.
  between-more :
      (acc : SequencedEvent P → Bool) (a b head : ℕ) (xs more : List (SequencedEvent P))
      → Ascending head more
      → b ≤ max a head
      → between acc a b (xs ++ more) ≡ between acc a b xs
  between-more acc a b head xs more asc le =
      filter-append _ xs more
      ∙ ap (◌++◌ (between acc a b xs)) (elim (Bool-cases (leb b a)) [
        | inl y ↦ between-none acc a b more (ground arith)
        | inr y ↦ between-low acc a b head more asc (ground arith)
      ])
      ∙ append-nil (between acc a b xs)

-- The token `t₀` and the database `d₀` are those that a worker started from.
module _ {P W D : Type 0} (s : Settings P W D) (effect : Bool → SequencedEvent P → D → D)
    (t₀ : TrackingToken) (d₀ : D) where
  -- A stream's cursor that has nothing accepted between it and the token.
  abbrev pub IsSynced : Option ℕ → ℕ → List (SequencedEvent P) → Type 0
  IsSynced none p xs = Unit
  IsSynced (some k) p xs = (position t₀ ≤ k) × (k ≤ p) × (between (accepted s) k p xs ≡ [])

  -- The database has the effects of exactly the accepted events from the first token to the current
  -- one, flagged as the first token calls for.
  abbrev pub effects : TrackingToken → List (SequencedEvent P) → D
  effects t xs =
      apply_all effect
        (map (marks_at (hash_of s.sequence_of) t₀)
          (between (accepted s) (position t₀) (position t) xs))
        d₀

  pub record IsAt (t : TrackingToken) (cursor : Option ℕ) (d : D) (log : Log P) : Type 0 where
    pub progress : IsProgress t
    pub ahead_of : position t₀ ≤ position t
    pub within : position t ≤ max (position t₀) log.head
    pub alike :
        (past : TrackingToken) → IsBounded past → position t < position past → IsAlike t t₀ past
    pub synced : IsSynced cursor (position t) log.events
    pub database : d ≡ effects t log.events

  pub closed :
      {t : TrackingToken} {c : Option ℕ} {d : D} {log : Log P} → IsAt t c d log → IsAt t none d log
  closed h = record {
    progress = h.progress;
    ahead_of = h.ahead_of;
    within = h.within;
    alike = h.alike;
    synced = tt;
    database = h.database;
  }

  -- A stream opened at the token.
  pub reopened :
      {t : TrackingToken} {c : Option ℕ} {d : D} {log : Log P}
      → IsAt t c d log
      → IsAt t (some (position t)) d log
  reopened {t} {c} {d} {log} h = record {
    progress = h.progress;
    ahead_of = h.ahead_of;
    within = h.within;
    alike = h.alike;
    synced = (
      h.ahead_of,
      omega arith,
      between-none (accepted s) (position t) (position t) log.events (omega arith),
    );
    database = h.database;
  }

  pub opened :
      {t : TrackingToken} (c : Option ℕ) {d : D} {log : Log P}
      → IsAt t c d log
      → IsAt t (some (position_or c (position t))) d log
  opened none h = reopened h
  opened (some k) h = h

  -- The log has grown behind its head.
  pub grown :
      {t : TrackingToken} (c : Option ℕ) {d : D} (log : Log P) (more : List (SequencedEvent P))
      (head : ℕ)
      → IsAt t c d log
      → Ascending log.head more
      → log.head ≤ head
      → IsAt t c d (record { events = log.events ++ more; head = head })
  grown {t} c log more head h asc le = record {
    progress = h.progress;
    ahead_of = h.ahead_of;
    within = omega (arith, h.within);
    alike = h.alike;
    synced = grown_cursor c h.synced;
    database =
        h.database
        ∙ ap (λ xs. apply_all effect (map (marks_at (hash_of s.sequence_of) t₀) xs) d₀)
            (sym (
              between-more (accepted s) (position t₀) (position t) log.head log.events more asc
                h.within));
  }
    where
      grown_cursor :
          (c : Option ℕ)
          → IsSynced c (position t) log.events
          → IsSynced c (position t) (log.events ++ more)
      grown_cursor none k = tt
      grown_cursor (some k) (a, b, e) = (
        a,
        b,
        between-more (accepted s) k (position t) log.head log.events more asc
              (omega (arith, h.within))
            ∙ e,
      )

  nothing_ahead :
      {t : TrackingToken} {k : ℕ} {d : D} (log : Log P) (q : ℕ)
      → IsAt t (some k) d log
      → ahead (accepted s) k log.events ≡ []
      → between (accepted s) (position t) q log.events ≡ []
  nothing_ahead {t} {k} log q h e =
      between-ahead (accepted s) (position t) q log.events
        (sym (ahead-eq (accepted s) k (position t) log.events h.synced.1 h.synced.2) ∙ e)

  -- The step through a quiet stretch.
  pub moved_through :
      {t : TrackingToken} {k : ℕ} {d : D} (log : Log P) (looked : TrackingToken)
      → IsLog log
      → IsAt t (some k) d log
      → ahead (accepted s) k log.events ≡ []
      → IsCursor looked
      → position looked ≤ log.head
      → position t < position looked
      → IsAt (advance_token_to t looked) (some k) d log
  moved_through {t} {k} {d} log looked isLog h e n le lt =
      let a = advanced looked n t h.progress (omega arith) in
      let p' = position (advance_token_to t looked) in
      let none_here = nothing_ahead log p' h e in
      record {
        progress = a.progress;
        ahead_of = omega (arith, a.moved, h.ahead_of);
        within = omega (arith, a.moved, le, h.within);
        alike = λ past b lt'.
            IsAlike-trans (a.alike past b (omega (arith, a.moved, lt', lt)))
              (h.alike past b (omega (arith, a.moved, lt', lt)));
        synced = (
          h.synced.0,
          omega (arith, a.moved, h.synced.1),
          between-ahead (accepted s) k p' log.events e,
        );
        database =
            h.database
            ∙ ap (λ xs. apply_all effect (map (marks_at (hash_of s.sequence_of) t₀) xs) d₀)
                (sym (append-nil (between (accepted s) (position t₀) (position t) log.events))
                  ∙ ap (◌++◌ (between (accepted s) (position t₀) (position t) log.events))
                      (sym none_here)
                  ∙ between-between (accepted s) (position t₀) (position t) p' 0 log.events isLog.0
                      h.ahead_of (omega (arith, a.moved)));
      }
