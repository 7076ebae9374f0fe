-- ===== src/Admission.antt =====
-- The admission of requests on a bus: `messagingAdmission` of packages/core/src/messaging-reliability.ts.
-- Each `enter` that is admitted gives a ticket, whose closure is an entry of the list of tickets; the
-- observer only gets copies of the counters, and its errors are swallowed, so that it is left out.
pub mod Counts
pub mod Steps
mod Tests
use kronos_ts.Common.{
  ℕ, zero, suc, ◌+◌, ◌-◌, max, Bool, true, false, not, Option, none, some, List, [], ◌∷◌, ◌++◌,
  if◌then◌else◌, ltb, leb, any, filter, length,
}
use kronos_ts.Common.Int.{ℤ, pos, negsuc}
use kronos_ts.Common.Text.{Text, text_eq}
use kronos_ts.Outcome.{Outcome, ok, throws, already_pending, messaging_overloaded, range_error}

-- What one `enter` closes over: the identifier, and `ended`.
pub record Ticket : Type 0 where
  pub identifier : Option Text
  pub ended : Bool

-- `identifiers` and `state`, with the tickets in the order in which they were given out.
pub record Admission : Type 0 where
  pub limit : ℕ
  pub identifiers : List Text
  pub active : ℕ
  pub peak : ℕ
  pub accepted : ℕ
  pub rejected : ℕ
  pub completed : ℕ
  pub tickets : List Ticket

-- `positiveInteger` on an integer; those past 2^53 - 1 are not safe.
unfoldable pub positive_integer : ℤ → Outcome ℕ
positive_integer (negsuc n) = throws range_error
positive_integer (pos zero) = throws range_error
positive_integer (pos (suc n)) =
    if leb (suc n) 9007199254740991 then ok (suc n) else throws range_error

abbrev pub admitting : ℕ → Admission
admitting limit = record {
  limit = limit;
  identifiers = [];
  active = 0;
  peak = 0;
  accepted = 0;
  rejected = 0;
  completed = 0;
  tickets = [];
}

-- `messagingAdmission(name, limit)`
abbrev pub admission_of : Outcome ℕ → Outcome Admission
admission_of (ok limit) = ok (admitting limit)
admission_of (throws e) = throws e

unfoldable pub messaging_admission : ℤ → Outcome Admission
messaging_admission limit = admission_of (positive_integer limit)

-- `identifier !== undefined && identifiers.has(identifier)`
abbrev pub is_pending : Option Text → List Text → Bool
is_pending none identifiers = false
is_pending (some id) identifiers = any (text_eq id) identifiers

abbrev pub with_identifier : Option Text → List Text → List Text
with_identifier none identifiers = identifiers
with_identifier (some id) identifiers = identifiers ++ id ∷ []

abbrev pub without_identifier : Option Text → List Text → List Text
without_identifier none identifiers = identifiers
without_identifier (some id) identifiers = filter (λ t. not (text_eq id t)) identifiers

abbrev pub rejecting : Admission → Admission
rejecting s = record s { rejected = suc s.rejected }

abbrev pub accepting : Option Text → Admission → Admission
accepting identifier s = record s {
  identifiers = with_identifier identifier s.identifiers;
  active = suc s.active;
  accepted = suc s.accepted;
  peak = max s.peak (suc s.active);
  tickets = s.tickets ++ record { identifier = identifier; ended = false } ∷ [];
}

-- `enter`: the number of the ticket, or the error; the counters also change where it throws.
unfoldable pub enter : Option Text → Admission → Outcome ℕ × Admission
enter identifier s =
    if is_pending identifier s.identifiers
    then (throws already_pending, rejecting s)
    else (if leb s.limit s.active
        then (throws messaging_overloaded, rejecting s)
        else (ok (length s.tickets), accepting identifier s))

abbrev pub ticket_at : ℕ → List Ticket → Option Ticket
ticket_at n [] = none
ticket_at zero (t ∷ ts) = some t
ticket_at (suc n) (t ∷ ts) = ticket_at n ts

abbrev pub mark_ended : ℕ → List Ticket → List Ticket
mark_ended n [] = []
mark_ended zero (t ∷ ts) = record t { ended = true } ∷ ts
mark_ended (suc n) (t ∷ ts) = t ∷ mark_ended n ts

-- A ticket's `end`, on the ticket found under its number.
abbrev pub end_found : ℕ → Option Ticket → Admission → Admission
end_found n none s = s
end_found n (some t) s = if t.ended then s else record s {
  identifiers = without_identifier t.identifier s.identifiers;
  active = s.active - 1;
  completed = suc s.completed;
  tickets = mark_ended n s.tickets;
}

unfoldable pub end_ticket : ℕ → Admission → Admission
end_ticket n s = end_found n (ticket_at n s.tickets) s
