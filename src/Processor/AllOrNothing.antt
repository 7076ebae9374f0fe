-- ===== src/Processor/AllOrNothing.antt =====
-- A reset that throws changes no token, since its writes come last and no write is refused while the
-- segments are claimed; one that succeeds changes the tokens of its segments.
use kronos_ts.Common.{ℕ, ◌≡◌, Option, some, List, any, if◌then◌else◌, ◌==◌, none, ◌⊎◌}
use kronos_ts.Outcome.{Outcome, ok, throws, Failure}
use kronos_ts.Token.{TrackingToken}
use kronos_ts.TokenStore.{Entries, stored_token}
use kronos_ts.TokenStore.Owner.{IsOwned}
use kronos_ts.Processor.Reset.{Resetter, reset_token, Worked}

module _ (r : Resetter) where
  -- Both stores hold the same tokens of this processor.
  abbrev pub IsSameTokens : Entries → Entries → Type 0
  IsSameTokens a b = (j : ℕ) → stored_token r.name j a ≡ stored_token r.name j b

  -- The reset has the segment.
  abbrev HasSegment : Entries → ℕ → Type 0
  HasSegment entries = IsOwned r.name r.owner entries

  module _ {D : Type 0} (start : TrackingToken) (reset : D → D × Option Failure) (ids : List ℕ)
      (database : D) where
    -- What a reset may leave. Where it throws: the tokens as they were, and the database as it was, or
    -- as the reset function that threw the error left it. Where it succeeds: what the reset function
    -- made of the database, and a new token for each segment.
    abbrev pub IsReset : Entries → Worked D → Type 0
    IsReset entries (throws error, database', entries') =
        ((database' ≡ database) ⊎ (reset database ≡ (database', some error)))
        × IsSameTokens entries' entries
    IsReset entries (ok next, database', entries') =
        (reset database ≡ (database', none))
        × ((j : ℕ)
            → stored_token r.name j entries' ≡ (
                if any (λ id. id == j) ids
                then some (reset_token start (stored_token r.name j entries))
                else stored_token r.name j entries))
