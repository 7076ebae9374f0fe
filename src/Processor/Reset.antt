-- ===== src/Processor/Reset.antt =====
-- `resetTokens` of running-processor.ts, on a processor that is given the ids of its segments, with the
-- token store in memory, which knows no transaction: what it has written stays. The reset function
-- gives the error that it throws and what it leaves of the database: where that has a transaction,
-- what the transaction restores.
use kronos_ts.Common.{ℕ, Bool, not, Option, none, some, List, [], ◌∷◌, map, if◌then◌else◌}
use kronos_ts.Common.Text.{Text}
use kronos_ts.Outcome.{Outcome, ok, throws, Failure, processor_running, segment_held_elsewhere}
use kronos_ts.Token.{TrackingToken, global_sequence, replay, covers, reached_by}
use kronos_ts.TokenStore.{Entries, Claimed, store, claim_token, release_claim, stored_token}
use kronos_ts.Processor.Worker.{is_lost}

-- Who resets, and when.
pub record Resetter : Type 0 where
  pub name : Text
  pub owner : Text
  pub timeout_ms : ℕ
  pub now : ℕ

-- `reached !== undefined && !start.covers(reached) ? replayToken(reached, start) : start`
unfoldable pub reset_token : TrackingToken → Option TrackingToken → TrackingToken
reset_token start none = start
reset_token start (some stored) =
    if not (covers start (reached_by stored)) then replay (reached_by stored) start else start

-- What the unit of work comes to: the tokens or its error, the database and the entries.
abbrev pub Worked : Type 0 → Type 0
Worked D = Outcome (List (ℕ × TrackingToken)) × D × Entries

module _ (r : Resetter) where
  -- The loop of claims: what is claimed, how it ended, and the entries.
  abbrev ClaimedAll : Type 0
  ClaimedAll = List ℕ × Outcome (Unit {0}) × Entries

  abbrev pub claim_error : Failure → Failure
  claim_error error = if is_lost error then segment_held_elsewhere else error

  -- How the loop goes on after one claim.
  abbrev pub after_claim : ℕ → (Entries → ClaimedAll) → Entries → Outcome Claimed → ClaimedAll
  after_claim id more entries (throws error) = ([], throws (claim_error error), entries)
  after_claim id more entries (ok (token, claimed)) =
      let rest = more claimed in (id ∷ rest.0, rest.1, rest.2)

  unfoldable pub claim_all : List ℕ → Entries → ClaimedAll
  claim_all [] entries = ([], ok tt, entries)
  claim_all (id ∷ ids) entries =
      after_claim id (claim_all ids) entries
        (claim_token r.timeout_ms r.now r.name id r.owner entries)

  -- The loop of releases in the `finally`.
  abbrev pub release_all : List ℕ → Entries → Entries
  release_all [] entries = entries
  release_all (id ∷ ids) entries = release_all ids (release_claim r.name id r.owner entries)

  -- How the loop of writes goes on after one of them.
  abbrev pub after_store :
      (Entries → Entries × Option Failure) → Entries → Outcome Entries → Entries × Option Failure
  after_store more entries (throws error) = (entries, some error)
  after_store more entries (ok written) = more written

  -- The loop of writes in PREPARE_COMMIT, with the error that stops it.
  abbrev pub store_all : List (ℕ × TrackingToken) → Entries → Entries × Option Failure
  store_all [] entries = (entries, none)
  store_all ((id, token) ∷ next) entries =
      after_store (store_all next) entries (store r.now r.name id token (some r.owner) entries)

  -- `next`, the token for each segment.
  abbrev pub next_tokens : TrackingToken → List ℕ → Entries → List (ℕ × TrackingToken)
  next_tokens start ids entries =
      map (λ id. (id, reset_token start (stored_token r.name id entries))) ids

  module _ {D : Type 0} where
    -- After the writes.
    abbrev pub after_writes : List (ℕ × TrackingToken) → D → Entries × Option Failure → Worked D
    after_writes next cleared (written, none) = (ok next, cleared, written)
    after_writes next cleared (written, some error) = (throws error, cleared, written)

    -- After the reset function, in PREPARE_COMMIT, where it did not throw.
    abbrev pub after_reset : List (ℕ × TrackingToken) → Entries → D × Option Failure → Worked D
    after_reset next entries (cleared, none) = after_writes next cleared (store_all next entries)
    after_reset next entries (cleared, some error) = (throws error, cleared, entries)

    -- The unit of work.
    abbrev pub reset_work :
        TrackingToken → (D → D × Option Failure) → List ℕ → D → Entries → Worked D
    reset_work start reset ids database entries =
        after_reset (next_tokens start ids entries) entries (reset database)

    abbrev pub work_claimed :
        TrackingToken
        → (D → D × Option Failure)
        → List ℕ
        → D
        → Entries
        → Outcome (Unit {0})
        → Worked D
    work_claimed start reset ids database entries (throws error) = (throws error, database, entries)
    work_claimed start reset ids database entries (ok _) =
        reset_work start reset ids database entries

    -- What `resetTokens` gives: the tokens that it makes known, or its error; the database; and the
    -- entries.
    unfoldable pub reset_tokens :
        Bool → ℕ → (D → D × Option Failure) → List ℕ → D → Entries → Worked D
    unfolding claim_all
    reset_tokens is_running start_position reset ids database entries =
        if is_running
        then (throws processor_running, database, entries)
        else (let claimed = claim_all ids entries in
            let done =
              work_claimed (global_sequence start_position) reset ids database claimed.2
                claimed.1 in
            (done.0, done.1, release_all claimed.0 done.2))
