-- ===== src/Admission/Steps.antt =====
-- Every sequence of requests and ends keeps the counters of an admission right.
use kronos_ts.Common.{
  ℕ, zero, suc, ◌+◌, ◌-◌, ◌≡◌, refl, ap, sym, ◌∙◌, subst, Bool, true, false, Option, none, some,
  List, [], ◌∷◌, ◌++◌, if◌then◌else◌, leb, any, count, count-append, length-append, arith,
  Bool-cases, Option-cases, inl, inr, append-nil, some_inj,
}
use kronos_ts.Common.Text.{Text, text_eq, text_eq_iff, text_eq_refl}
use kronos_ts.Admission.{
  Ticket, Admission, admitting, is_pending, with_identifier, without_identifier, rejecting,
  accepting, enter, ticket_at, mark_ended, end_found, end_ticket,
}
use kronos_ts.Admission.Counts.{
  IsCounted, is_live, identifier_list, live_identifiers, IsDistinct, live_identifiers-append,
  IsDistinct-snoc, IsDistinct-without, filter-absent, ticket-live, count-mark_ended,
  length-mark_ended,
}

drop-own :
    (i : Option Text) (rest : List Text)
    → IsDistinct (identifier_list i ++ rest)
    → rest ≡ without_identifier i (identifier_list i ++ rest)
drop-own none rest d = refl
drop-own (some x) rest d = rw (text_eq_refl x) (sym (filter-absent x rest d.0))

true-false : {b : Bool} → b ≡ true → b ≡ false → ⊥
true-false {b} h k = cc

keep-other :
    (i : Option Text) (y : Text) (rest rest' : List Text)
    → any (text_eq y) rest ≡ false
    → ((x : Text) → i ≡ some x → any (text_eq x) rest ≡ true)
    → rest' ≡ without_identifier i rest
    → y ∷ rest' ≡ without_identifier i (y ∷ rest)
keep-other none y rest rest' h k e = ap (λ r. y ∷ r) e
keep-other (some x) y rest rest' h k e = elim (Bool-cases (text_eq x y)) [
  | inl b ↦ absurd (
      true-false (k x refl)
        (subst (λ z. any (text_eq z) rest ≡ false) (sym ((text_eq_iff x y).0 b)) h))
  | inr b ↦ rw b (ap (λ r. y ∷ r) e)
]

live_identifiers-mark_ended :
    (n : ℕ) (ts : List Ticket) (t : Ticket)
    → ticket_at n ts ≡ some t
    → t.ended ≡ false
    → IsDistinct (live_identifiers ts)
    → live_identifiers (mark_ended n ts) ≡ without_identifier t.identifier (live_identifiers ts)
live_identifiers-mark_ended n [] t h e d = cc
live_identifiers-mark_ended zero (u ∷ ts) t h e d =
    let same = some_inj h in
    let open_u = ap (λ (t : Ticket). t.ended) same ∙ e in
    let distinct = rw open_u at d in
    rw (open_u, sym (ap (λ (t : Ticket). t.identifier) same))
      (drop-own u.identifier (live_identifiers ts) distinct)
live_identifiers-mark_ended (suc n) (u ∷ ts) t h e d = elim (Bool-cases u.ended) [
  | inl b ↦ rw b (live_identifiers-mark_ended n ts t h e (rw b at d))
  | inr b ↦ elim (Option-cases u.identifier) [
    | inl c ↦ rw (b, c) (live_identifiers-mark_ended n ts t h e (rw (b, c) at d))
    | inr (y, c) ↦
        let (fresh, distinct) = (rw (b, c) at d) in
        rw (b, c)
          (keep-other t.identifier y (live_identifiers ts) (live_identifiers (mark_ended n ts))
            fresh (λ x. ticket-live n ts t x h e) (live_identifiers-mark_ended n ts t h e distinct))
  ]
]

accepting-IsCounted :
    (i : Option Text) (s : Admission)
    → is_pending i s.identifiers ≡ false
    → leb s.limit s.active ≡ false
    → IsCounted s
    → IsCounted (accepting i s)
accepting-IsCounted i s free room c = record {
  active = omega (
    arith,
    c.active,
    count-append is_live s.tickets (record { identifier = i; ended = false } ∷ []),
  );
  accepted =
      omega (
        arith,
        c.accepted,
        length-append s.tickets (record { identifier = i; ended = false } ∷ []),
      );
  balance = omega (arith, c.balance);
  below_peak = omega arith;
  peak_within = ground (arith, c.peak_within);
  identifiers =
      entered i
      ∙ ap (λ ids. ids ++ (identifier_list i ++ [])) c.identifiers
      ∙ sym (live_identifiers-append s.tickets (record { identifier = i; ended = false } ∷ []));
  distinct = added i free;
}
  where
    entered :
        (i : Option Text)
        → with_identifier i s.identifiers ≡ s.identifiers ++ (identifier_list i ++ [])
    entered none = sym (append-nil s.identifiers)
    entered (some x) = refl

    added :
        (i : Option Text)
        → is_pending i s.identifiers ≡ false
        → IsDistinct (with_identifier i s.identifiers)
    added none free = c.distinct
    added (some x) free = IsDistinct-snoc s.identifiers x free c.distinct

rejecting-IsCounted : (s : Admission) → IsCounted s → IsCounted (rejecting s)
rejecting-IsCounted s c = record {
  active = c.active;
  accepted = c.accepted;
  balance = c.balance;
  below_peak = c.below_peak;
  peak_within = c.peak_within;
  identifiers = c.identifiers;
  distinct = c.distinct;
}

end_found-IsCounted :
    (n : ℕ) (found : Option Ticket) (s : Admission)
    → ticket_at n s.tickets ≡ found
    → IsCounted s
    → IsCounted (end_found n found s)
end_found-IsCounted n none s h c = c
end_found-IsCounted n (some t) s h c = elim (Bool-cases t.ended) [
  | inl e ↦ rw e c
  | inr e ↦ rw e (ended_now e)
]
  where
    ended_now :
        t.ended ≡ false
        → IsCounted (record s {
          identifiers = without_identifier t.identifier s.identifiers;
          active = s.active - 1;
          completed = suc s.completed;
          tickets = mark_ended n s.tickets;
        })
    ended_now e = record {
      active = omega (arith, c.active, count-mark_ended n s.tickets t h e);
      accepted = c.accepted ∙ sym (length-mark_ended n s.tickets);
      balance = omega (arith, c.balance, c.active, count-mark_ended n s.tickets t h e);
      below_peak = omega (arith, c.below_peak);
      peak_within = c.peak_within;
      identifiers =
          ap (without_identifier t.identifier) c.identifiers
          ∙ sym (
              live_identifiers-mark_ended n s.tickets t h e
                (subst IsDistinct c.identifiers c.distinct));
      distinct = IsDistinct-without t.identifier s.identifiers c.distinct;
    }

-- What happens on a bus: a request, with or without an identifier, or the end of a ticket, which may
-- come more than once.
pub data Event : Type 0 where
  requests : Option Text → Event
  ends : ℕ → Event

abbrev pub after : Event → Admission → Admission
after (requests i) s = (enter i s).1
after (ends n) s = end_ticket n s

abbrev pub after_all : List Event → Admission → Admission
after_all [] s = s
after_all (e ∷ es) s = after_all es (after e s)

abbrev pub is_request : Event → Bool
is_request (requests i) = true
is_request (ends n) = false

after-IsCounted : (e : Event) (s : Admission) → IsCounted s → IsCounted (after e s)
unfolding enter end_ticket
after-IsCounted (ends n) s c = end_found-IsCounted n (ticket_at n s.tickets) s refl c
after-IsCounted (requests i) s c = elim (Bool-cases (is_pending i s.identifiers)) [
  | inl p ↦ rw (after, p) (rejecting-IsCounted s c)
  | inr p ↦ elim (Bool-cases (leb s.limit s.active)) [
    | inl f ↦ rw (after, p, f) (rejecting-IsCounted s c)
    | inr f ↦ rw (after, p, f) (accepting-IsCounted i s p f c)
  ]
]

end_found-answers :
    (n : ℕ) (found : Option Ticket) (s : Admission)
    → ((end_found n found s).accepted ≡ s.accepted) × ((end_found n found s).rejected ≡ s.rejected)
end_found-answers n none s = (refl, refl)
end_found-answers n (some t) s = elim (Bool-cases t.ended) [
  | inl e ↦ rw e (refl, refl)
  | inr e ↦ rw e (refl, refl)
]

after-answers :
    (e : Event) (s : Admission)
    → (after e s).accepted + (after e s).rejected
      ≡ (if is_request e then 1 else 0) + (s.accepted + s.rejected)
unfolding enter end_ticket
after-answers (ends n) s =
    let (a, r) = end_found-answers n (ticket_at n s.tickets) s in omega (arith, a, r)
after-answers (requests i) s = elim (Bool-cases (is_pending i s.identifiers)) [
  | inl p ↦ rw (after, p) (omega arith)
  | inr p ↦ elim (Bool-cases (leb s.limit s.active)) [
    | inl f ↦ rw (after, p, f) (omega arith)
    | inr f ↦ rw (after, p, f) (omega arith)
  ]
]

limit-end_found :
    (n : ℕ) (found : Option Ticket) (s : Admission) → (end_found n found s).limit ≡ s.limit
limit-end_found n none s = refl
limit-end_found n (some t) s = elim (Bool-cases t.ended) [ inl e ↦ rw e refl | inr e ↦ rw e refl ]

limit-after : (e : Event) (s : Admission) → (after e s).limit ≡ s.limit
unfolding enter end_ticket
limit-after (ends n) s = limit-end_found n (ticket_at n s.tickets) s
limit-after (requests i) s = elim (Bool-cases (is_pending i s.identifiers)) [
  | inl p ↦ rw (after, p) refl
  | inr p ↦ elim (Bool-cases (leb s.limit s.active)) [
    | inl f ↦ rw (after, p, f) refl
    | inr f ↦ rw (after, p, f) refl
  ]
]

limit-all : (es : List Event) (s : Admission) → (after_all es s).limit ≡ s.limit
limit-all [] s = refl
limit-all (e ∷ es) s = limit-all es (after e s) ∙ limit-after e s

all-answers :
    (es : List Event) (s : Admission)
    → (after_all es s).accepted + (after_all es s).rejected
      ≡ count is_request es + (s.accepted + s.rejected)
all-answers [] s = omega arith
all-answers (e ∷ es) s = omega (arith, all-answers es (after e s), after-answers e s)

all-IsCounted : (es : List Event) (s : Admission) → IsCounted s → IsCounted (after_all es s)
all-IsCounted [] s c = c
all-IsCounted (e ∷ es) s c = all-IsCounted es (after e s) (after-IsCounted e s c)

admitting-IsCounted : (limit : ℕ) → IsCounted (admitting limit)
admitting-IsCounted limit = record {
  active = refl;
  accepted = refl;
  balance = omega arith;
  below_peak = omega arith;
  peak_within = omega arith;
  identifiers = refl;
  distinct = tt;
}

-- After any requests and ends, in any order and also where a ticket is ended twice: the active
-- requests are those whose ticket has not ended, every accepted one is active or completed, never
-- more than the limit were active, the pending identifiers are those of the active requests, no two
-- of them the same, and every request was either accepted or rejected. The limit
-- is the one given.
pub counts_hold :
    (limit : ℕ) (events : List Event)
    → IsCounted (after_all events (admitting limit))
      × ((after_all events (admitting limit)).accepted
            + (after_all events (admitting limit)).rejected
          ≡ count is_request events)
      × ((after_all events (admitting limit)).limit ≡ limit)
counts_hold limit events = (
  all-IsCounted events (admitting limit) (admitting-IsCounted limit),
  omega (arith, all-answers events (admitting limit)),
  limit-all events (admitting limit),
)
