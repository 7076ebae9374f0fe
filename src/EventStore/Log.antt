-- ===== src/EventStore/Log.antt =====
-- The log is append-only and dense: positions run from 0 up to the next one.
use kronos_ts.Common.{
  ℕ, suc, ◌+◌, ◌≤◌, ◌≡◌, refl, ap, sym, ◌∙◌, subst, Option, List, [], ◌∷◌, ◌++◌, append_assoc,
  append-nil, length, arith,
}
use kronos_ts.Common.Int.{pos}
use kronos_ts.Outcome.{ok, >>=-eq-ok, ok-injective}
use kronos_ts.Messages.{EventMessage}
use kronos_ts.EventStore.{
  Entry, EventLog, AppendCondition, ConsistencyMarker, before, last_position, push_event, push_all,
  append, refuse_if_given,
}

module _ {P : Type 0} where
  -- The entries have the positions from n on, and m is the one after the last.
  abbrev pub Numbered : ℕ → List (Entry P) → ℕ → Type 0
  Numbered n [] m = n ≡ m
  Numbered n (e ∷ es) m = (e.position ≡ n) × Numbered (suc n) es m

  abbrev pub IsLog : EventLog P → Type 0
  IsLog log = Numbered 0 log.events log.next_position

  -- What is new in a later log.
  pub record Extends (log later : EventLog P) : Type 0 where
    pub more : List (Entry P)
    pub events : later.events ≡ log.events ++ more
    pub numbered : Numbered log.next_position more later.next_position

  pub Numbered-append :
      (n m k : ℕ) (xs ys : List (Entry P))
      → Numbered n xs m
      → Numbered m ys k
      → Numbered n (xs ++ ys) k
  Numbered-append n m k [] ys h g = subst (λ i. Numbered i ys k) (sym h) g
  Numbered-append n m k (x ∷ xs) ys h g = (h.0, Numbered-append (suc n) m k xs ys h.1 g)

  pub Numbered-le : (n m : ℕ) (xs : List (Entry P)) → Numbered n xs m → n ≤ m
  Numbered-le n m [] h = omega arith
  Numbered-le n m (x ∷ xs) h = omega (arith, Numbered-le (suc n) m xs h.1)

  pub Extends-refl : (log : EventLog P) → Extends log log
  Extends-refl log = record { more = []; events = sym (append-nil log.events); numbered = refl }

  pub Extends-trans : (a b c : EventLog P) → Extends a b → Extends b c → Extends a c
  Extends-trans a b c x y = record {
    more = x.more ++ y.more;
    events =
        y.events
        ∙ ap (λ (es : List (Entry P)). es ++ y.more) x.events
        ∙ append_assoc a.events x.more y.more;
    numbered = Numbered-append _ _ _ x.more y.more x.numbered y.numbered;
  }

  pub Extends-IsLog : (log later : EventLog P) → Extends log later → IsLog log → IsLog later
  Extends-IsLog log later x h =
      subst (λ es. Numbered 0 es later.next_position) (sym x.events)
        (Numbered-append 0 log.next_position later.next_position log.events x.more h x.numbered)

  -- The marker of the last entry is the one before the next position.
  pub last_position-Numbered :
      (n m : ℕ) (e : Entry P) (es : List (Entry P))
      → Numbered n (e ∷ es) m
      → last_position (e ∷ es) ≡ before m
  last_position-Numbered n m e [] h = ap pos h.0 ∙ ap before h.1
  last_position-Numbered n m e (f ∷ es) h = last_position-Numbered (suc n) m f es h.1

  pub last_position-IsLog :
      (log : EventLog P) → IsLog log → last_position log.events ≡ before log.next_position
  last_position-IsLog log h = last_of log.events log.next_position h
    where
      last_of : (es : List (Entry P)) (m : ℕ) → Numbered 0 es m → last_position es ≡ before m
      last_of [] m h = ap before h
      last_of (e ∷ es) m h = last_position-Numbered 0 m e es h

  pub push_all-Extends :
      (log : EventLog P) (es : List (EventMessage P)) → Extends log (push_all log es)
  unfolding push_all
  push_all-Extends log [] = Extends-refl log
  push_all-Extends log (e ∷ es) =
      Extends-trans log (push_event log e) (push_all (push_event log e) es)
        (record {
          more = record { position = log.next_position; event = e } ∷ [];
          events = refl;
          numbered = (refl, omega arith);
        })
        (push_all-Extends (push_event log e) es)

  pub next-push_all :
      (log : EventLog P) (es : List (EventMessage P))
      → (push_all log es).next_position ≡ log.next_position + length es
  unfolding push_all
  next-push_all log [] = omega arith
  next-push_all log (e ∷ es) = omega (arith, next-push_all (push_event log e) es)

  pub append-Extends :
      (log later : EventLog P) (es : List (EventMessage P)) (condition : Option AppendCondition)
      (marker : ConsistencyMarker)
      → append log es condition ≡ ok (later, marker)
      → Extends log later
  unfolding append
  append-Extends log later es condition marker h =
      let (u, e, h₁) = >>=-eq-ok (refuse_if_given log condition) _ h in
      subst (Extends log) (ap (λ (r : EventLog P × ConsistencyMarker). r.0) (ok-injective h₁))
        (push_all-Extends log es)
