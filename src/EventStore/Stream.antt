-- ===== src/EventStore/Stream.antt =====
-- A stream of the log delivers every wanted event from its start on, once and in order.
use kronos_ts.Common.{
  ℕ, zero, suc, ◌+◌, ◌≤◌, ◌<◌, ◌≡◌, refl, ap, sym, ◌∙◌, subst, Bool, true, false, ◌&&◌, Option,
  none, some, List, [], ◌∷◌, leb, filter, length, if◌then◌else◌, arith, Bool-cases, Option-cases,
  inl, inr, leb→le, &&_iff, some_inj,
}
use native.Mathlib.Numerals.{add-one}
use kronos_ts.Query.{EventCriteria}
use kronos_ts.EventStore.{Entry, EventLog}
use kronos_ts.EventStore.Reading.{MessageStream, wanted, find_from, find_next, next}
use kronos_ts.EventStore.Log.{Numbered, IsLog}

module _ {P : Type 0} where
  -- The entries that a stream at the cursor has to deliver.
  abbrev pub ahead : ℕ → Option EventCriteria → List (Entry P) → List (Entry P)
  ahead cursor c = filter (λ e. leb cursor e.position && wanted c e.event)

  -- Calls of `next` until one of them returns nothing, at most as many as the fuel.
  unfoldable pub drain : ℕ → EventLog P → MessageStream → List (Entry P)
  drain zero log stream = []
  drain (suc fuel) log stream = elim (next log stream).1 [
    | none ↦ []
    | some e ↦ e ∷ drain fuel log (next log stream).0
  ]

  ahead-cons :
      (cursor : ℕ) (c : Option EventCriteria) (e : Entry P) (es : List (Entry P))
      → ahead cursor c (e ∷ es) ≡ (
          if leb cursor e.position && wanted c e.event
          then e ∷ ahead cursor c es
          else ahead cursor c es)
  ahead-cons cursor c e es = refl

  -- Below all of the entries, the cursor makes no difference.
  ahead_low :
      (a b n m : ℕ) (c : Option EventCriteria) (es : List (Entry P))
      → Numbered n es m
      → a ≤ n
      → b ≤ n
      → ahead a c es ≡ ahead b c es
  ahead_low a b n m c [] h p q = refl
  ahead_low a b n m c (e ∷ es) h p q = ground (arith, h.0, ahead_low a b (suc n) m c es h.1)

  find_from-none :
      (cursor : ℕ) (c : Option EventCriteria) (es : List (Entry P))
      → find_from cursor c es ≡ none
      → ahead cursor c es ≡ []
  unfolding find_from
  find_from-none cursor c [] h = refl
  find_from-none cursor c (e ∷ es) h = ground (arith, find_from-none cursor c es)

  module _ (cursor : ℕ) (c : Option EventCriteria) (y : Entry P) (es : List (Entry P)) where
    find_from-hit :
        (leb cursor y.position && wanted c y.event) ≡ true → find_from cursor c (y ∷ es) ≡ some y
    unfolding find_from
    find_from-hit h = ground arith

    find_from-miss :
        (leb cursor y.position && wanted c y.event) ≡ false
        → find_from cursor c (y ∷ es) ≡ find_from cursor c es
    unfolding find_from
    find_from-miss h = ground arith

  ahead_past :
      (p : ℕ) (c : Option EventCriteria) (y : Entry P) (es : List (Entry P))
      → y.position < p
      → ahead p c (y ∷ es) ≡ ahead p c es
  ahead_past p c y es h = ground arith

  find_from-some :
      (cursor n m : ℕ) (c : Option EventCriteria) (es : List (Entry P)) (x : Entry P)
      → Numbered n es m
      → find_from cursor c es ≡ some x
      → (n ≤ x.position) × (ahead cursor c es ≡ x ∷ ahead (suc x.position) c es)
  unfolding find_from
  find_from-some cursor n m c [] x h e = cc
  find_from-some cursor n m c (y ∷ es) x h e =
      elim (Bool-cases (leb cursor y.position && wanted c y.event)) [
        | inl yes_y ↦
            let same = some_inj (sym (find_from-hit cursor c y es yes_y) ∙ e) in
            let low = leb→le cursor y.position ((&&_iff _ (wanted c y.event)).0 yes_y).0 in
            subst
              (λ x.
                (n ≤ x.position)
                × (ahead cursor c (y ∷ es) ≡ x ∷ ahead (suc x.position) c (y ∷ es)))
              same
              (
                omega (arith, h.0),
                rw yes_y (
                    ap (◌∷◌ y) (
                      ahead_low cursor (suc y.position) (suc n) m c es h.1 (omega (arith, low, h.0))
                        (omega (arith, h.0))
                      ∙ sym (ahead_past (suc y.position) c y es (omega arith)))),
              )
        | inr not_y ↦
            let later = sym (find_from-miss cursor c y es not_y) ∙ e in
            let (above, rest) = find_from-some cursor (suc n) m c es x h.1 later in
            (
              omega arith,
              rw not_y (
                  rest
                  ∙ ap (◌∷◌ x) (sym (ahead_past (suc x.position) c y es (omega (arith, h.0))))),
            )
      ]

  -- Keeping to the fields, so that the equations rewrite no stream.
  module _ (log : EventLog P) (cursor : ℕ) (c : Option EventCriteria) where
    abbrev at_cursor : MessageStream
    at_cursor = record { cursor = cursor; criteria = c; closed = false }

    next-none : find_from cursor c log.events ≡ none → next log at_cursor ≡ (at_cursor, none)
    unfolding next find_next
    next-none e = rw (e, next, find_next) refl

    next-some :
        (x : Entry P)
        → find_from cursor c log.events ≡ some x
        → next log at_cursor
          ≡ (record { cursor = x.position + 1; criteria = c; closed = false }, some x)
    unfolding next find_next
    next-some x e = rw (e, next, find_next) refl

    drain-none : (fuel : ℕ) → find_from cursor c log.events ≡ none → drain fuel log at_cursor ≡ []
    unfolding drain
    drain-none zero e = refl
    drain-none (suc fuel) e = rw (next-none e, drain) refl

    drain-some :
        (fuel : ℕ) (x : Entry P)
        → find_from cursor c log.events ≡ some x
        → drain (suc fuel) log at_cursor
          ≡ x ∷ drain fuel log (record { cursor = x.position + 1; criteria = c; closed = false })
    unfolding drain
    drain-some fuel x e = rw (next-some x e, drain) (rw (next-some x e) refl)

  drain-ahead :
      (fuel : ℕ) (log : EventLog P) (cursor : ℕ) (c : Option EventCriteria)
      → IsLog log
      → length (ahead cursor c log.events) ≤ fuel
      → drain fuel log (record { cursor = cursor; criteria = c; closed = false })
        ≡ ahead cursor c log.events
  drain-ahead zero log cursor c h f = elim (Option-cases (find_from cursor c log.events)) [
    | inl e ↦ drain-none log cursor c 0 e ∙ sym (find_from-none cursor c log.events e)
    | inr (x, e) ↦
        absurd (
          omega (arith, ap length (find_from-some cursor 0 log.next_position c log.events x h e).1))
  ]
  drain-ahead (suc fuel) log cursor c h f = elim (Option-cases (find_from cursor c log.events)) [
    | inl e ↦ drain-none log cursor c (suc fuel) e ∙ sym (find_from-none cursor c log.events e)
    | inr (x, e) ↦
        let (_, split) = find_from-some cursor 0 log.next_position c log.events x h e in
        let same = ap (λ (n : ℕ). ahead n c log.events) (add-one x.position) in
        drain-some log cursor c fuel x e
        ∙ ap (◌∷◌ x) (
            drain-ahead fuel log (x.position + 1) c h
              (omega (arith, ap length split, ap length same))
            ∙ same)
        ∙ sym split
  ]

  length-filter-le : (p : Entry P → Bool) (es : List (Entry P)) → length (filter p es) ≤ length es
  length-filter-le p [] = omega arith
  length-filter-le p (e ∷ es) = ground (arith, length-filter-le p es)

  -- On a log with its positions in order, reading an open stream until it has nothing left returns, once and in order, exactly the log's
  -- entries from the stream's position on that its query matches; no more calls are needed than
  -- the log has entries.
  pub drain-eq-ahead :
      (fuel : ℕ) (log : EventLog P) (cursor : ℕ) (c : Option EventCriteria)
      → IsLog log
      → length log.events ≤ fuel
      → drain fuel log (record { cursor = cursor; criteria = c; closed = false })
        ≡ filter (λ e. leb cursor e.position && wanted c e.event) log.events
  drain-eq-ahead fuel log cursor c h f =
      drain-ahead fuel log cursor c h (
        omega (arith, length-filter-le (λ e. leb cursor e.position && wanted c e.event) log.events))
