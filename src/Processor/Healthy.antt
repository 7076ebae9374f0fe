-- ===== src/Processor/Healthy.antt =====
-- A worker whose handlers succeed and whose claim nobody takes: its batches commit.
use kronos_ts.Common.{
  ℕ, zero, suc, ◌≤◌, ◌≡◌, refl, ap, sym, ◌∙◌, subst, Bool, true, false, not, ◌&&◌, Option, none,
  some, List, [], ◌∷◌, length, arith, Bool-cases, if-holds, if-true, inl, inr, ltb, leb, ◌==◌,
  ltb→lt,
}
use kronos_ts.Common.Map.{get, get-set_self}
use kronos_ts.Outcome.{Outcome, ok, throws, ok-injective}
use kronos_ts.Token.{TrackingToken, position, advance_token_to}
use kronos_ts.TokenStore.{Entries, TokenEntry, store, store_found, written, key, owned_by}
use kronos_ts.Processor.{SequencedEvent, Marked, hash_of, mark_batch, deliver_event, deliver_batch}
use kronos_ts.Processor.Worker.{Settings, State, Turn, Next, take_batch}
use kronos_ts.Processor.Poll.{
  moved_to, run_batch, write, quiet_step, quiet_written, move_through, then_next, catch_poll,
}
use kronos_ts.Processor.Advance.{IsProgress, advanced}
use kronos_ts.Processor.Between.{ahead, between}
use kronos_ts.Processor.Effect.{IsFaithful, apply_all}
use kronos_ts.Processor.Steps.{HasLooked}

-- Every delivery returns, with this effect, and every commit succeeds.
pub record IsHealthy {P W D : Type 0} (s : Settings P W D)
    (effect : Bool → SequencedEvent P → D → D) : Type 0 where
  pub delivers :
      (outside : W) (replaying : Bool) (e : SequencedEvent P) (d : D)
      → deliver_event s.handlers outside replaying e d ≡ ok (effect replaying e d)
  pub commits : (outside : W) (d : D) → s.commit outside d ≡ ok d

pub healthy-IsFaithful :
    {P W D : Type 0} (s : Settings P W D) (effect : Bool → SequencedEvent P → D → D)
    → IsHealthy s effect
    → IsFaithful s effect
healthy-IsFaithful s effect h = record {
  delivers = λ outside r e d d' k. ok-injective (sym k ∙ h.delivers outside r e d);
  commits = λ outside d d' k. ok-injective (sym k ∙ h.commits outside d);
}

pub same_head : {A : Type 0} {x y : A} {xs ys : List A} → x ∷ xs ≡ y ∷ ys → x ≡ y
same_head h = cc

pub take-head :
    {P : Type 0} (n : ℕ) (xs : List (SequencedEvent P)) (e : SequencedEvent P)
    (rest : List (SequencedEvent P))
    → take_batch n xs ≡ e ∷ rest
    → (tail : List (SequencedEvent P)) × (xs ≡ e ∷ tail)
take-head zero xs e rest h = cc
take-head (suc n) [] e rest h = cc
take-head (suc n) (x ∷ xs) e rest h = (xs, ap (λ y. y ∷ xs) (same_head h))

pub length-none : {A : Type 0} (xs : List A) → length xs ≤ 0 → xs ≡ []
length-none [] h = refl
length-none (x ∷ xs) h = absurd (omega arith)

pub nil-cons : {A : Type 0} {x : A} {xs : List A} → [] ≡ x ∷ xs → ⊥
nil-cons h = cc

module _ {P : Type 0} (acc : SequencedEvent P → Bool) where
  ahead-hit :
      (a : ℕ) (e : SequencedEvent P) (xs : List (SequencedEvent P))
      → (leb a e.sequence && acc e) ≡ true
      → ahead acc a (e ∷ xs) ≡ e ∷ ahead acc a xs
  ahead-hit a e xs h = rw h refl

  ahead-miss :
      (a : ℕ) (e : SequencedEvent P) (xs : List (SequencedEvent P))
      → (leb a e.sequence && acc e) ≡ false
      → ahead acc a (e ∷ xs) ≡ ahead acc a xs
  ahead-miss a e xs h = rw h refl

  pub length-ahead_mono :
      (a b : ℕ) (xs : List (SequencedEvent P))
      → a ≤ b
      → length (ahead acc b xs) ≤ length (ahead acc a xs)
  length-ahead_mono a b [] le = omega arith
  length-ahead_mono a b (e ∷ xs) le = ground (arith, length-ahead_mono a b xs le)

  -- Past the first event that was ahead, fewer are.
  pub length-ahead_less :
      (a b : ℕ) (xs : List (SequencedEvent P)) (e : SequencedEvent P)
      (rest : List (SequencedEvent P))
      → ahead acc a xs ≡ e ∷ rest
      → a ≤ b
      → suc e.sequence ≤ b
      → suc (length (ahead acc b xs)) ≤ length (ahead acc a xs)
  length-ahead_less a b [] e rest h le le' = cc
  length-ahead_less a b (x ∷ xs) e rest h le le' = elim (Bool-cases (leb a x.sequence && acc x)) [
    | inl y ↦ ground (
      arith,
      length-ahead_mono a b xs le,
      ap (λ (z : SequencedEvent P). z.sequence) (same_head (sym (ahead-hit a x xs y) ∙ h)),
    )
    | inr y ↦ ground (arith, length-ahead_less a b xs e rest (sym (ahead-miss a x xs y) ∙ h) le le')
  ]

  pub between-all :
      (a b : ℕ) (xs : List (SequencedEvent P))
      → a ≤ b
      → ahead acc b xs ≡ []
      → between acc a b xs ≡ ahead acc a xs
  between-all a b [] le h = refl
  between-all a b (e ∷ xs) le h = ground (arith, between-all a b xs le)

module _ {P W D : Type 0} (s : Settings P W D) where
  -- The claim of the worker's segment is this owner's.
  abbrev pub IsHeld : Entries → Type 0
  IsHeld entries = owned_by (get (key s.name s.segment.id) entries) s.owner ≡ true

  written-IsHeld :
      (now : ℕ) (t : TrackingToken) (found : Option TokenEntry) (entries : Entries)
      → owned_by found s.owner ≡ true
      → (entries' : Entries) × (store_found now
            (key s.name s.segment.id)
            t
            (some s.owner)
            found
            entries
          ≡ ok entries')
        × IsHeld entries'
  unfolding owned_by
  written-IsHeld now t none entries h = absurd (ground arith)
  written-IsHeld now t (some entry) entries h = (
    written now (key s.name s.segment.id) t (some entry) entries,
    if-true (owned_by (some entry) s.owner) _ _ h,
    ap (λ o. owned_by o s.owner)
          (get-set_self (key s.name s.segment.id)
            (record entry { token = some t; claimed_at = now }) entries)
        ∙ h,
  )

  write-IsHeld :
      (now : ℕ) (t : TrackingToken) (entries : Entries)
      → IsHeld entries
      → (entries' : Entries) × (write s now t entries ≡ ok entries') × IsHeld entries'
  unfolding store
  write-IsHeld now t entries h =
      written-IsHeld now t (get (key s.name s.segment.id) entries) entries h

  -- An active worker with its claim, at the position or past it.
  pub record IsWell (p : ℕ) (st : State D) : Type 0 where
    pub active : st.worker.active ≡ true
    pub held : IsHeld st.entries
    pub reached : p ≤ position st.worker.token

  abbrev pub IsWellAfter {ℓ} : {A : Type ℓ} → ℕ → State D × Outcome A → Type 0
  IsWellAfter p (st, ok a) = IsWell p st
  IsWellAfter p (st, throws error) = ⊥

  pub written-IsWell :
      (p now : ℕ) (t : TrackingToken) (st : State D)
      → IsWell p (moved_to s t st.worker.unwritten st)
      → IsWellAfter p
          (quiet_written s (moved_to s t st.worker.unwritten st) (write s now t st.entries))
  written-IsWell p now t st h =
      let (entries', e, held) = write-IsHeld now t st.entries h.held in
      subst (λ r. IsWellAfter p (quiet_written s (moved_to s t st.worker.unwritten st) r)) (sym e)
        (record { active = h.active; held = held; reached = h.reached })

  step-IsWell :
      (p now : ℕ) (t : TrackingToken) (st : State D)
      → IsWell p st
      → p ≤ position t
      → IsWellAfter p (quiet_step s now t st)
  step-IsWell p now t st h le =
      if-holds {A = State D × Outcome (Unit {0})} (IsWellAfter p) (not (s.segment.mask == 0))
        (λ y. record { active = h.active; held = h.held; reached = le })
        (λ y. written-IsWell p now t st (record { active = h.active; held = h.held; reached = le }))

  pub move_through-IsWell :
      (p now head : ℕ) (looked : Option TrackingToken) (st : State D)
      → IsProgress st.worker.token
      → IsWell p st
      → HasLooked looked head
      → IsWellAfter p (move_through s now looked st)
  unfolding move_through
  move_through-IsWell p now head none st pr h l = h
  move_through-IsWell p now head (some looked) st pr h l =
      if-holds {A = State D × Outcome (Unit {0})} (IsWellAfter p)
        (ltb (position st.worker.token) (position looked))
        (λ y. step-IsWell p now (advance_token_to st.worker.token looked) st h (
          omega (
            arith,
            (advanced looked l.0 st.worker.token pr
                (omega (arith, ltb→lt (position st.worker.token) (position looked) y))).moved,
            h.reached,
          )))
        (λ y. h)

  pub then_next-IsWell :
      (p : ℕ) (next : Next) (r : State D × Outcome (Unit {0}))
      → IsWellAfter p r
      → IsWellAfter p (then_next s next r)
  then_next-IsWell p next (st, ok u) h = h
  then_next-IsWell p next (st, throws error) h = h

  pub catch_poll-IsWell :
      (p : ℕ) (r : State D × Outcome Next) → IsWellAfter p r → IsWell p (catch_poll s r).0
  unfolding catch_poll
  catch_poll-IsWell p (st, ok next) h = h
  catch_poll-IsWell p (st, throws error) h = absurd h

module _ {P W D : Type 0} (s : Settings P W D) (effect : Bool → SequencedEvent P → D → D)
    (healthy : IsHealthy s effect) where
  deliver_batch-ok :
      (outside : W) (ms : List (Marked P)) (d : D)
      → deliver_batch (deliver_event s.handlers outside) ms d ≡ ok (apply_all effect ms d)
  unfolding deliver_batch
  deliver_batch-ok outside [] d = refl
  deliver_batch-ok outside (m ∷ ms) d = elim (Bool-cases m.fresh) [
    | inl y ↦ rw (y, healthy.delivers outside m.replaying m.item d) (deliver_batch-ok outside ms _)
    | inr y ↦ rw y (deliver_batch-ok outside ms d)
  ]

  pub run_batch-ok :
      (turn : Turn W) (t : TrackingToken) (batch : List (SequencedEvent P)) (d : D)
      (entries : Entries)
      → IsHeld s entries
      → (entries' : Entries) × (run_batch s turn t batch d entries
          ≡ ok (
            (mark_batch (hash_of s.sequence_of) t batch).1,
            apply_all effect (mark_batch (hash_of s.sequence_of) t batch).0 d,
            entries',
          ))
        × IsHeld s entries'
  unfolding run_batch
  run_batch-ok turn t batch d entries h =
      let m = mark_batch (hash_of s.sequence_of) t batch in
      let (entries', e, held) = write-IsHeld s turn.now m.1 entries h in
      (
        entries',
        rw
            (
              deliver_batch-ok turn.outside m.0 d,
              e,
              healthy.commits turn.outside (apply_all effect m.0 d),
            )
            refl,
        held,
      )
