-- ===== src/Processor/Between.antt =====
-- The accepted events of a log that ascends, cut at positions: what a worker's batches are cut from.
use kronos_ts.Common.{
  ℕ, zero, suc, ◌≤◌, max, ◌≡◌, refl, ap, sym, ◌∙◌, subst, Bool, true, false, ◌&&◌, List, [], ◌∷◌,
  ◌++◌, leb, ltb, filter, arith, Bool-cases, inl, inr,
}
use kronos_ts.Processor.{SequencedEvent}
use kronos_ts.Processor.Worker.{take_batch, batch_end}
use kronos_ts.Processor.Batch.{Ascending, batch_end-ge}

module _ {P : Type 0} where
  pub Ascending-mono :
      (m n : ℕ) (xs : List (SequencedEvent P)) → m ≤ n → Ascending n xs → Ascending m xs
  Ascending-mono m n [] le asc = tt
  Ascending-mono m n (e ∷ xs) le (low, placed, asc) = (omega (arith, low), placed, asc)

  pub Ascending-append :
      (n head : ℕ) (xs ys : List (SequencedEvent P))
      → Ascending n xs
      → batch_end n xs ≤ head
      → Ascending head ys
      → Ascending n (xs ++ ys)
  Ascending-append n head [] ys asc le more = Ascending-mono n head ys le more
  Ascending-append n head (e ∷ xs) ys (low, placed, asc) le more =
      (low, placed, Ascending-append (suc e.sequence) head xs ys asc le more)

  pub batch_end-append :
      (n : ℕ) (xs ys : List (SequencedEvent P))
      → batch_end n (xs ++ ys) ≡ batch_end (batch_end n xs) ys
  batch_end-append n [] ys = refl
  batch_end-append n (e ∷ xs) ys = batch_end-append (suc e.sequence) xs ys

  pub batch_end_mono :
      (m n : ℕ) (xs : List (SequencedEvent P)) → m ≤ n → batch_end m xs ≤ batch_end n xs
  batch_end_mono m n [] le = le
  batch_end_mono m n (e ∷ xs) le = omega arith

  Ascending-filter :
      (p : SequencedEvent P → Bool) (n : ℕ) (xs : List (SequencedEvent P))
      → Ascending n xs
      → Ascending n (filter p xs)
  Ascending-filter p n [] asc = tt
  Ascending-filter p n (e ∷ xs) (low, placed, asc) = elim (Bool-cases (p e)) [
    | inl y ↦ rw y (low, placed, Ascending-filter p (suc e.sequence) xs asc)
    | inr y ↦ rw y (
        Ascending-mono n (suc e.sequence) (filter p xs) (omega (arith, low))
          (Ascending-filter p (suc e.sequence) xs asc))
  ]

  pub Ascending-take :
      (k n : ℕ) (xs : List (SequencedEvent P)) → Ascending n xs → Ascending n (take_batch k xs)
  Ascending-take zero n xs asc = tt
  Ascending-take (suc k) n [] asc = tt
  Ascending-take (suc k) n (e ∷ xs) (low, placed, asc) =
      (low, placed, Ascending-take k (suc e.sequence) xs asc)

  module _ (acc : SequencedEvent P → Bool) where
    -- The accepted events from a position on, and those between two positions.
    abbrev pub ahead : ℕ → List (SequencedEvent P) → List (SequencedEvent P)
    ahead a = filter (λ e. leb a e.sequence && acc e)

    abbrev pub between : ℕ → ℕ → List (SequencedEvent P) → List (SequencedEvent P)
    between a b = filter (λ e. (leb a e.sequence && ltb e.sequence b) && acc e)

    pub Ascending-ahead :
        (c n : ℕ) (xs : List (SequencedEvent P)) → Ascending n xs → Ascending c (ahead c xs)
    Ascending-ahead c n [] asc = tt
    Ascending-ahead c n (e ∷ xs) (low, placed, asc) =
        elim (Bool-cases (leb c e.sequence && acc e)) [
          | inl y ↦ rw y (ground arith, placed, Ascending-filter _ (suc e.sequence) xs asc)
          | inr y ↦ rw y (Ascending-ahead c (suc e.sequence) xs asc)
        ]

    -- Below every event there is none.
    pub between-low :
        (a b n : ℕ) (xs : List (SequencedEvent P)) → Ascending n xs → b ≤ n → between a b xs ≡ []
    between-low a b n [] asc le = refl
    between-low a b n (e ∷ xs) (low, placed, asc) le =
        ground (arith, between-low a b (suc e.sequence) xs asc (omega (arith, low)))

    pub between-none : (a b : ℕ) (xs : List (SequencedEvent P)) → b ≤ a → between a b xs ≡ []
    between-none a b [] le = refl
    between-none a b (e ∷ xs) le = ground (arith, between-none a b xs le)

    pub between-between :
        (a b c n : ℕ) (xs : List (SequencedEvent P))
        → Ascending n xs
        → a ≤ b
        → b ≤ c
        → between a b xs ++ between b c xs ≡ between a c xs
    between-between a b c n [] asc le le' = refl
    between-between a b c n (e ∷ xs) (low, placed, asc) le le' =
        elim (Bool-cases (ltb e.sequence b)) [
          | inl y ↦ ground (arith, between-between a b c (suc e.sequence) xs asc le le')
          | inr y ↦ ground (
            arith,
            between-between a b c (suc e.sequence) xs asc le le',
            between-low a b (suc e.sequence) xs asc (ground arith),
          )
        ]

    -- Where nothing lies between two positions, reading goes on alike from both.
    pub ahead-eq :
        (a b : ℕ) (xs : List (SequencedEvent P))
        → a ≤ b
        → between a b xs ≡ []
        → ahead a xs ≡ ahead b xs
    ahead-eq a b [] le h = refl
    ahead-eq a b (e ∷ xs) le h = ground (arith, ahead-eq a b xs le)

    pub between-ahead :
        (a b : ℕ) (xs : List (SequencedEvent P)) → ahead a xs ≡ [] → between a b xs ≡ []
    between-ahead a b [] h = refl
    between-ahead a b (e ∷ xs) h = ground (arith, between-ahead a b xs)

    between-hit :
        (c b : ℕ) (e : SequencedEvent P) (xs : List (SequencedEvent P))
        → (leb c e.sequence && acc e) ≡ true
        → suc e.sequence ≤ b
        → between c b (e ∷ xs) ≡ e ∷ between c b xs
    between-hit c b e xs h le = ground arith

    between-miss :
        (c b : ℕ) (e : SequencedEvent P) (xs : List (SequencedEvent P))
        → (leb c e.sequence && acc e) ≡ false
        → between c b (e ∷ xs) ≡ between c b xs
    between-miss c b e xs h = ground arith

    ahead-hit :
        (c : ℕ) (e : SequencedEvent P) (xs : List (SequencedEvent P))
        → (leb c e.sequence && acc e) ≡ true
        → ahead c (e ∷ xs) ≡ e ∷ ahead c xs
    ahead-hit c e xs h = rw h refl

    ahead-miss :
        (c : ℕ) (e : SequencedEvent P) (xs : List (SequencedEvent P))
        → (leb c e.sequence && acc e) ≡ false
        → ahead c (e ∷ xs) ≡ ahead c xs
    ahead-miss c e xs h = rw h refl

    -- The first k of the events `ys` are those of `xs` between c and their end.
    abbrev IsTaken : ℕ → ℕ → ℕ → List (SequencedEvent P) → List (SequencedEvent P) → Type 0
    IsTaken k c m xs ys = take_batch k ys ≡ between c (batch_end m (take_batch k ys)) xs

    -- The first events ahead are those up to where they end.
    pub take-between :
        (k c m n : ℕ) (xs : List (SequencedEvent P))
        → Ascending n xs
        → m ≤ max c n
        → take_batch k (ahead c xs) ≡ between c (batch_end m (take_batch k (ahead c xs))) xs
    take-between zero c m n xs asc le = elim (Bool-cases (leb m c)) [
      | inl y ↦ sym (between-none c m xs (ground arith))
      | inr y ↦ sym (between-low c m n xs asc (ground arith))
    ]
    take-between (suc k) c m n [] asc le = refl
    take-between (suc k) c m n (e ∷ xs) (low, placed, asc) le =
        elim (Bool-cases (leb c e.sequence && acc e)) [
          | inl y ↦ subst (IsTaken (suc k) c m (e ∷ xs)) (sym (ahead-hit c e xs y)) (
              ap (◌∷◌ e) (take-between k c (suc e.sequence) (suc e.sequence) xs asc (omega arith))
              ∙ sym (
                  between-hit c (batch_end (suc e.sequence) (take_batch k (ahead c xs))) e xs y (
                    batch_end-ge (suc e.sequence) (take_batch k (ahead c xs)) (
                      Ascending-take k (suc e.sequence) (ahead c xs)
                        (Ascending-filter _ (suc e.sequence) xs asc)))))
          | inr y ↦ subst (IsTaken (suc k) c m (e ∷ xs)) (sym (ahead-miss c e xs y)) (
              take-between (suc k) c m (suc e.sequence) xs asc (omega (arith, low, le))
              ∙ sym (between-miss c (batch_end m (take_batch (suc k) (ahead c xs))) e xs y))
        ]
