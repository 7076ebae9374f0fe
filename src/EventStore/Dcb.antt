-- ===== src/EventStore/Dcb.antt =====
-- The dynamic consistency boundary: what a successful conditional append says about earlier reads.
use kronos_ts.Common.{
  ℕ, zero, suc, ◌≤◌, ◌≡◌, ◌↔◌, ◌⊎◌, refl, ap, ap₂, sym, ◌∙◌, Bool, false, ◌&&◌, none, some, List,
  [], ◌∷◌, ◌++◌, append-nil, map, map-append, any, filter, filter-append, leb, arith, inl, inr, All,
  filter-or-nil, append_self, map-nil,
}
use kronos_ts.Common.Int.{pos, ltbℤ}
use kronos_ts.Outcome.{ok, throws, append_condition_error, >>=-eq-ok, ok-injective, traverse}
use kronos_ts.Messages.{EventMessage}
use kronos_ts.Query.{
  EventQuery, QueryItem, query_items, EventCriteria, compile_query, matches_criteria,
}
use kronos_ts.EventStore.{
  Entry, EventLog, AppendCondition, AppendConditionRead, SourcingCondition, SourcingResult, Check,
  before, conflicts_with, conflicting, refuse_conflicts, refuse_if_any, compile_read, source,
  matching,
}
use kronos_ts.EventStore.Log.{
  Numbered, Numbered-le, IsLog, Extends, Extends-IsLog, last_position-IsLog,
}

ltb-before : (k p : ℕ) → ltbℤ (before k) (pos p) ≡ leb k p
ltb-before zero p = ground arith
ltb-before (suc k) p = ground arith

module _ {P : Type 0} where
  -- The entries that a query's criteria pick.
  abbrev pub picked : EventCriteria → List (Entry P) → List (Entry P)
  picked criteria = filter (λ e. matches_criteria e.event criteria)

  from_zero : (es : List (Entry P)) → filter (λ e. leb 0 e.position) es ≡ es
  from_zero [] = refl
  from_zero (e ∷ es) = ground (arith, from_zero es)

  pub matching-zero : (es : List (Entry P)) (c : EventCriteria) → matching es 0 c ≡ picked c es
  unfolding matching
  matching-zero es c = ap (picked c) (from_zero es)

  behind :
      (k : ℕ) (c : EventCriteria) (e : Entry P)
      → conflicts_with e (record { criteria = c; after = before k })
        ≡ (leb k e.position && matches_criteria e.event c)
  behind k c e = ap (λ (b : Bool). b && matches_criteria e.event c) (ltb-before k e.position)

  -- A check at the marker n passes over the entries below n, and takes all that match behind it.
  check_old :
      (n m k : ℕ) (c : EventCriteria) (es : List (Entry P))
      → Numbered n es m
      → m ≤ k
      → filter (λ e. conflicts_with e (record { criteria = c; after = before k })) es ≡ []
  check_old n m k c [] h le = refl
  check_old n m k c (e ∷ es) h le =
      rw (behind k c e)
        (ground (arith, h.0, Numbered-le (suc n) m es h.1, check_old (suc n) m k c es h.1 le))

  check_new :
      (n m k : ℕ) (c : EventCriteria) (es : List (Entry P))
      → Numbered n es m
      → k ≤ n
      → filter (λ e. conflicts_with e (record { criteria = c; after = before k })) es ≡ picked c es
  check_new n m k c [] h le = refl
  check_new n m k c (e ∷ es) h le =
      rw (behind k c e) (ground (arith, h.0, check_new (suc n) m k c es h.1))

pub query_items_of_compiled :
    (q : EventQuery) (c : EventCriteria)
    → compile_query q ≡ ok c
    → (items : List QueryItem) × (query_items q ≡ ok items)
unfolding compile_query
query_items_of_compiled q c h = let (items, e, h₁) = >>=-eq-ok (query_items q) _ h in (items, e)

-- The condition of a read of the whole log by a query.
abbrev pub reading : EventQuery → SourcingCondition
reading q = record { query = q; start = none; snapshot = none }

source-reading :
    {P : Type 0} (log : EventLog P) (q : EventQuery) (c : EventCriteria)
    → IsLog log
    → compile_query q ≡ ok c
    → source log (reading q)
      ≡ ok (record {
        events = map (λ e. e.event) (picked c log.events);
        marker = record { position = before log.next_position };
      })
unfolding source
source-reading log q c valid e =
    rw (e, matching-zero log.events c, last_position-IsLog log valid) refl

-- A read that succeeds has compiled its query.
source-compiled :
    {P : Type 0} (log : EventLog P) (q : EventQuery) (r : SourcingResult P)
    → source log (reading q) ≡ ok r
    → (c : EventCriteria) × (compile_query q ≡ ok c)
unfolding source
source-compiled log q r h = let (c, e, h₁) = >>=-eq-ok (compile_query q) _ h in (c, e)

module _ {P : Type 0} (log later : EventLog P) (valid : IsLog log) (x : Extends log later) where
  -- Against a later log, a check at the earlier one's marker finds the new entries that match.
  pub conflicting-later :
      (c : EventCriteria)
      → filter
          (λ e. conflicts_with e (record { criteria = c; after = before log.next_position }))
          later.events
        ≡ picked c x.more
  conflicting-later c = rw x.events (
      filter-append
        (λ e. conflicts_with e (record { criteria = c; after = before log.next_position }))
        log.events x.more
      ∙ ap₂ ◌++◌ (check_old 0 log.next_position log.next_position c log.events valid (omega arith))
          (check_new log.next_position later.next_position log.next_position c x.more x.numbered
            (omega arith)))

  picked-later :
      (c : EventCriteria) → picked c later.events ≡ picked c log.events ++ picked c x.more
  picked-later c = rw x.events (filter-append (λ e. matches_criteria e.event c) log.events x.more)

  -- Reading the later log again adds exactly the events of these entries.
  pub source-later :
      (q : EventQuery) (c : EventCriteria) (r : SourcingResult P)
      → compile_query q ≡ ok c
      → source log (reading q) ≡ ok r
      → source later (reading q)
        ≡ ok (record {
          events = r.events ++ map (λ e. e.event) (picked c x.more);
          marker = record { position = before later.next_position };
        })
  source-later q c r e h =
      source-reading later q c (Extends-IsLog log later x valid) e
      ∙ ap
          (λ (es : List (EventMessage P)).
            ok (record { events = es; marker = record { position = before later.next_position } }))
          (ap (map λ e. e.event) (picked-later c)
            ∙ map-append (λ (e : Entry P). e.event) (picked c log.events) (picked c x.more)
            ∙ ap (λ (r : SourcingResult P). r.events ++ map (λ e. e.event) (picked c x.more))
                (ok-injective (sym (source-reading log q c valid e) ∙ h)))

-- A read of an earlier log, with what it returned.
pub record Seen {P : Type 0} (later : EventLog P) : Type 0 where
  pub query : EventQuery
  pub log : EventLog P
  pub valid : IsLog log
  pub extends : Extends log later
  pub result : SourcingResult P
  pub sourced : source log (reading query) ≡ ok result

pub refuse_if_any_iff : {P : Type 0} (es : List (Entry P)) → (refuse_if_any es ≡ ok tt) ↔ (es ≡ [])
refuse_if_any_iff [] = (λ h. refl, λ h. refl)
refuse_if_any_iff (e ∷ es) = (λ h. cc, λ h. cc)

refuse_if_any_cases :
    {P : Type 0} (es : List (Entry P))
    → (refuse_if_any es ≡ ok tt) ⊎ (refuse_if_any es ≡ throws append_condition_error)
refuse_if_any_cases [] = inl refl
refuse_if_any_cases (e ∷ es) = inr refl

module _ {P : Type 0} {later : EventLog P} where
  -- The read as an append condition carries it.
  abbrev pub to_read : Seen later → AppendConditionRead
  to_read s = record { query = s.query; marker = s.result.marker }

  -- Reading again gives what the read gave.
  abbrev pub StillHolds : Seen later → Type 0
  StillHolds s =
      (r : SourcingResult P) × (source later (reading s.query) ≡ ok r)
      × (r.events ≡ s.result.events)

  pub criteria_of : Seen later → EventCriteria
  criteria_of s = (source-compiled s.log s.query s.result s.sourced).0

  check_of : Seen later → Check
  check_of s = record { criteria = criteria_of s; after = before s.log.next_position }

  pub seen-compiled : (s : Seen later) → compile_query s.query ≡ ok (criteria_of s)
  unfolding criteria_of
  seen-compiled s = (source-compiled s.log s.query s.result s.sourced).1

  seen-marker : (s : Seen later) → s.result.marker.position ≡ before s.log.next_position
  seen-marker s =
      ap (λ (r : SourcingResult P). r.marker.position)
        (ok-injective
          (sym s.sourced ∙ source-reading s.log s.query (criteria_of s) s.valid (seen-compiled s)))

  compile_read-seen : (s : Seen later) → compile_read (to_read s) ≡ ok (check_of s)
  unfolding compile_read check_of
  compile_read-seen s = rw (seen-compiled s, seen-marker s) refl

  traverse-seen :
      (ss : List (Seen later)) → traverse compile_read (map to_read ss) ≡ ok (map check_of ss)
  traverse-seen [] = refl
  traverse-seen (s ∷ ss) = rw (compile_read-seen s, traverse-seen ss) refl

  no-conflict-holds :
      (s : Seen later)
      → filter (λ e. conflicts_with e (check_of s)) later.events ≡ []
      → StillHolds s
  unfolding check_of
  no-conflict-holds s h =
      let none_new = sym (conflicting-later s.log later s.valid s.extends (criteria_of s)) ∙ h in
      (
        _,
        source-later s.log later s.valid s.extends s.query (criteria_of s) s.result
            (seen-compiled s) s.sourced,
        ap (λ (es : List (Entry P)). s.result.events ++ map (λ e. e.event) es) none_new
            ∙ append-nil s.result.events,
      )

  holds-no-conflict :
      (s : Seen later)
      → StillHolds s
      → filter (λ e. conflicts_with e (check_of s)) later.events ≡ []
  unfolding check_of
  holds-no-conflict s (r, e, same) =
      let again =
        source-later s.log later s.valid s.extends s.query (criteria_of s) s.result
          (seen-compiled s) s.sourced in
      conflicting-later s.log later s.valid s.extends (criteria_of s)
      ∙ map-nil (λ (e : Entry P). e.event) _
          (append_self s.result.events _
            (ap (λ (r : SourcingResult P). r.events) (ok-injective (sym again ∙ e)) ∙ same))

  -- No entry conflicts with the reads exactly when every one of them still holds.
  no-conflicts_iff :
      (ss : List (Seen later))
      → (conflicting later.events (map check_of ss) ≡ []) ↔ All StillHolds ss
  unfolding conflicting
  no-conflicts_iff [] = (λ h. tt, λ h. filter-false later.events)
    where
      filter-false : (es : List (Entry P)) → filter (λ e. false) es ≡ []
      filter-false [] = refl
      filter-false (e ∷ es) = filter-false es
  no-conflicts_iff (s ∷ ss) =
      let (to, from) =
        filter-or-nil (λ e. conflicts_with e (check_of s))
          (λ e. any (conflicts_with e) (map check_of ss)) later.events in
      let (to', from') = no-conflicts_iff ss in
      (
        λ h. let (a, b) = to h in (no-conflict-holds s a, to' b),
        λ h. from (holds-no-conflict s h.0, from' h.1),
      )

  -- For reads of the whole log as it was at earlier times, a condition that carries them, each with its own marker, is met exactly when each of them,
  -- run again on the log as it is now, gives the events that it gave.
  pub refuse_conflicts_iff :
      (condition : AppendCondition) (ss : List (Seen later))
      → condition.reads ≡ some (map to_read ss)
      → (refuse_conflicts later condition ≡ ok tt) ↔ All StillHolds ss
  unfolding refuse_conflicts
  refuse_conflicts_iff condition ss e =
      let (to, from) = no-conflicts_iff ss in
      let (to', from') = refuse_if_any_iff (conflicting later.events (map check_of ss)) in
      rw (e, traverse-seen ss) (λ h. to (to' h), λ h. from' (from h))

  -- A condition of one read, by its query and the marker of what it gave, is met exactly when the read,
  -- run again on the log as it is now, gives the events that it gave.
  pub refuse_conflicts-one_iff :
      (s : Seen later)
      → (refuse_conflicts later (record { query = s.query; marker = s.result.marker; reads = none })
          ≡ ok tt)
        ↔ StillHolds s
  unfolding refuse_conflicts
  refuse_conflicts-one_iff s =
      let (to, from) = no-conflicts_iff (s ∷ []) in
      let (to', from') = refuse_if_any_iff (conflicting later.events (map check_of (s ∷ []))) in
      rw (compile_read-seen s) (λ h. (to (to' h)).0, λ h. from' (from (h, tt)))

  pub refuse_conflicts_cases :
      (condition : AppendCondition) (ss : List (Seen later))
      → condition.reads ≡ some (map to_read ss)
      → (refuse_conflicts later condition ≡ ok tt)
        ⊎ (refuse_conflicts later condition ≡ throws append_condition_error)
  unfolding refuse_conflicts
  refuse_conflicts_cases condition ss e =
      rw (e, traverse-seen ss) (refuse_if_any_cases (conflicting later.events (map check_of ss)))
