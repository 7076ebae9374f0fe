-- ===== src/Processor/Effect.antt =====
-- What a batch's unit of work does to the database, where the deliveries that return have a fixed effect.
use kronos_ts.Common.{
  ◌≤◌, ◌≡◌, refl, ap, sym, ◌∙◌, Bool, List, [], ◌∷◌, ◌++◌, if◌then◌else◌, Bool-cases, inl, inr,
}
use kronos_ts.Outcome.{ok, >>=-eq-ok, ok-injective}
use kronos_ts.Token.{TrackingToken}
use kronos_ts.TokenStore.{Entries}
use kronos_ts.Processor.{SequencedEvent, Marked, hash_of, mark_batch, deliver_event, deliver_batch}
use kronos_ts.Processor.Worker.{Settings, Log, Turn, batch_end}
use kronos_ts.Processor.Poll.{run_batch, write}
use kronos_ts.Processor.Batch.{Ascending}

-- Deliveries that return have this effect on the database, and a commit keeps it.
pub record IsFaithful {P W D : Type 0} (s : Settings P W D)
    (effect : Bool → SequencedEvent P → D → D) : Type 0 where
  pub delivers :
      (outside : W) (replaying : Bool) (e : SequencedEvent P) (d d' : D)
      → deliver_event s.handlers outside replaying e d ≡ ok d'
      → d' ≡ effect replaying e d
  pub commits : (outside : W) (d d' : D) → s.commit outside d ≡ ok d' → d' ≡ d

-- A log in the order of its positions, none of them at its head or past it.
abbrev pub IsLog : {P : Type 0} → Log P → Type 0
IsLog log = Ascending 0 log.events × (batch_end 0 log.events ≤ log.head)

module _ {P D : Type 0} (effect : Bool → SequencedEvent P → D → D) where
  -- The effects of the fresh events, in order.
  abbrev pub apply_all : List (Marked P) → D → D
  apply_all [] d = d
  apply_all (m ∷ ms) d = apply_all ms (if m.fresh then effect m.replaying m.item d else d)

  pub apply_all-append :
      (xs ys : List (Marked P)) (d : D) → apply_all (xs ++ ys) d ≡ apply_all ys (apply_all xs d)
  apply_all-append [] ys d = refl
  apply_all-append (m ∷ xs) ys d = apply_all-append xs ys _

module _ {P W D : Type 0} (s : Settings P W D) (effect : Bool → SequencedEvent P → D → D)
    (faithful : IsFaithful s effect) where
  deliver_one :
      (outside : W) (m : Marked P) (d d' : D)
      → (if m.fresh then deliver_event s.handlers outside m.replaying m.item d else ok d) ≡ ok d'
      → d' ≡ (if m.fresh then effect m.replaying m.item d else d)
  deliver_one outside m d d' h = elim (Bool-cases m.fresh) [
    | inl e ↦ rw e (faithful.delivers outside m.replaying m.item d d' (rw e at h))
    | inr e ↦ rw e (sym (ok-injective (rw e at h)))
  ]

  deliver_batch-effect :
      (outside : W) (ms : List (Marked P)) (d d' : D)
      → deliver_batch (deliver_event s.handlers outside) ms d ≡ ok d'
      → d' ≡ apply_all effect ms d
  unfolding deliver_batch
  deliver_batch-effect outside [] d d' h = sym (ok-injective h)
  deliver_batch-effect outside (m ∷ ms) d d' h =
      let (d₁, e, h₁) = >>=-eq-ok _ (deliver_batch (deliver_event s.handlers outside) ms) h in
      deliver_batch-effect outside ms d₁ d' h₁
      ∙ ap (apply_all effect ms) (deliver_one outside m d d₁ e)

  -- What a batch's unit of work leaves where it commits.
  pub run_batch-effect :
      (turn : Turn W) (t : TrackingToken) (batch : List (SequencedEvent P)) (d : D)
      (entries : Entries) (t' : TrackingToken) (d' : D) (entries' : Entries)
      → run_batch s turn t batch d entries ≡ ok (t', d', entries')
      → (t' ≡ (mark_batch (hash_of s.sequence_of) t batch).1)
        × (d' ≡ apply_all effect (mark_batch (hash_of s.sequence_of) t batch).0 d)
  unfolding run_batch
  run_batch-effect turn t batch d entries t' d' entries' h =
      let (d₁, e₁, h₁) =
        >>=-eq-ok
          (deliver_batch (deliver_event s.handlers turn.outside)
            (mark_batch (hash_of s.sequence_of) t batch).0 d)
          _ h in
      let (w, e₂, h₂) =
        >>=-eq-ok (write s turn.now (mark_batch (hash_of s.sequence_of) t batch).1 entries) _ h₁ in
      let (d₂, e₃, h₃) = >>=-eq-ok (s.commit turn.outside d₁) _ h₂ in
      (
        ap (λ r. r.0) (sym (ok-injective h₃)),
        ap (λ r. r.1) (sym (ok-injective h₃))
            ∙ faithful.commits turn.outside d₁ d₂ e₃
            ∙ deliver_batch-effect turn.outside _ d d₁ e₁,
      )
