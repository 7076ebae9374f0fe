-- ===== src/EventStore/Staging.antt =====
-- Staged appends: `appendEvents` with the members of the transaction that it returns.
use kronos_ts.Common.{
  ℕ, suc, ◌≤◌, ◌≡◌, refl, ap, sym, ◌∙◌, subst, false, Option, List, [], ◌∷◌, ◌++◌, arith, inl, inr,
}
use kronos_ts.Common.Int.{ℤ}
use kronos_ts.Outcome.{ok, ◌>>=◌, >>=-eq-ok, ok-injective, Outcome-cases}
use kronos_ts.Messages.{EventMessage}
use kronos_ts.EventStore.{
  Entry, EventLog, AppendCondition, AppendTransaction, before, push_all, append, append_events,
  commit, after_commit, rollback, drop_staged, refuse_if_given,
}
use kronos_ts.EventStore.Log.{Numbered, IsLog, Extends, Extends-trans, push_all-Extends}

module _ {P : Type 0} where
  -- Entries below the start are kept, and a tail of entries from the start on is dropped.
  drop_staged-tail :
      (start n m : ℕ) (es : List (Entry P))
      → Numbered n es m
      → start ≤ n
      → drop_staged start es ≡ []
  unfolding drop_staged
  drop_staged-tail start n m [] h le = refl
  drop_staged-tail start n m (e ∷ es) h le =
      rw (drop_staged-tail start (suc n) m es h.1 (omega arith)) (ground (arith, h.0))

  drop_staged-append :
      (n start m : ℕ) (xs ys : List (Entry P))
      → Numbered n xs start
      → Numbered start ys m
      → drop_staged start (xs ++ ys) ≡ xs
  unfolding drop_staged
  drop_staged-append n start m [] ys h g = drop_staged-tail start start m ys g (omega arith)
  drop_staged-append n start m (x ∷ []) ys h g =
      rw (drop_staged-tail start start m ys g (omega arith)) (ground (arith, h.0, h.1))
  drop_staged-append n start m (x ∷ x' ∷ xs) ys h g =
      rw (drop_staged-append (suc n) start m (x' ∷ xs) ys h.1 g) refl

  rollback_staged :
      (log later : EventLog P) (end : ℤ)
      → IsLog log
      → Extends log later
      → rollback later
          (record { start_position = log.next_position; end_position = end; committed = false })
        ≡ log
  unfolding rollback
  rollback_staged log later end valid x =
      ap (λ (es : List (Entry P)). record { events = es; next_position = log.next_position })
        (ap (drop_staged log.next_position) x.events
          ∙ drop_staged-append 0 log.next_position later.next_position log.events x.more valid
              x.numbered)

  -- On a log with its positions in order, rolling back a transaction that has not committed gives the log as it was before the staging,
  -- whatever was appended to it since: nothing that the transaction staged stays, and nothing that
  -- others appended behind it does.
  pub rollback-append_events :
      (log staged later : EventLog P) (es : List (EventMessage P))
      (condition : Option AppendCondition) (tx : AppendTransaction)
      → IsLog log
      → append_events log es condition ≡ ok (staged, tx)
      → Extends staged later
      → rollback later tx ≡ log
  unfolding append_events
  rollback-append_events log staged later es condition tx valid h x =
      let (u, e, h₁) = >>=-eq-ok (refuse_if_given log condition) _ h in
      let r = ok-injective h₁ in
      let start = Extends-trans log (push_all log es) later (push_all-Extends log es) (
        subst (λ s. Extends s later) (sym (ap (λ (p : EventLog P × AppendTransaction). p.0) r))
          x) in
      subst (λ t. rollback later t ≡ log) (ap (λ (p : EventLog P × AppendTransaction). p.1) r)
        (rollback_staged log later (before (push_all log es).next_position) valid start)

  -- A transaction that has committed is not rolled back.
  pub rollback-commit : (log : EventLog P) (tx : AppendTransaction) → rollback log (commit tx) ≡ log
  unfolding rollback commit
  rollback-commit log tx = refl

  -- Staging and committing comes to the same as appending: the same log, the same marker, the same
  -- refusals.
  pub append-append_events :
      (log : EventLog P) (es : List (EventMessage P)) (condition : Option AppendCondition)
      → append log es condition
        ≡ (do (staged, tx) ← append_events log es condition; ok (staged, after_commit (commit tx)))
  unfolding append append_events after_commit commit
  append-append_events log es condition = elim (Outcome-cases (refuse_if_given log condition)) [
    | inl (u, e) ↦ rw e refl
    | inr (f, e) ↦ rw e refl
  ]
