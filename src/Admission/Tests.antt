-- ===== src/Admission/Tests.antt =====
-- The counters at a limit of one, where a second request is refused until the first has ended.
use kronos_ts.Common.{◌+◌, ◌≡◌, refl, none, some, List, [], ◌∷◌, count}
use kronos_ts.Common.Text.{str}
use kronos_ts.Common.Int.{pos}
use kronos_ts.Outcome.{ok}
use kronos_ts.Admission.{admitting, enter, end_ticket, messaging_admission, positive_integer}
use kronos_ts.Admission.Counts.{IsCounted}
use kronos_ts.Admission.Steps.{Event, requests, ends, after_all, is_request, counts_hold}

abbrev events : List Event
events =
    requests (some (str "a")) ∷ requests (some (str "b")) ∷ ends 0 ∷ ends 0 ∷ requests none ∷ []

counts_hold_example :
    IsCounted (after_all events (admitting 1))
    × ((after_all events (admitting 1)).accepted + (after_all events (admitting 1)).rejected
        ≡ count is_request events)
    × ((after_all events (admitting 1)).limit ≡ 1)
counts_hold_example = counts_hold 1 events

one_rejected : (after_all events (admitting 1)).rejected ≡ 1
unfolding enter end_ticket
one_rejected = refl

admitted : messaging_admission (pos 1) ≡ ok (admitting 1)
unfolding messaging_admission positive_integer
admitted = refl
