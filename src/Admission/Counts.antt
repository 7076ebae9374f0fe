-- ===== src/Admission/Counts.antt =====
-- The counters of an admission, against the tickets that it gave out.
use kronos_ts.Common.{
  ℕ, zero, suc, ◌+◌, ◌≤◌, ◌≡◌, refl, ap, sym, ◌∙◌, subst, Bool, true, false, not, Option, none,
  some, List, [], ◌∷◌, ◌++◌, if◌then◌else◌, any, filter, length, count, arith, Bool-cases, inl, inr,
  append_assoc, any-append, some_inj,
}
use kronos_ts.Common.Text.{Text, text_eq, text_eq_iff, text_eq_refl}
use kronos_ts.Admission.{Ticket, Admission, without_identifier, ticket_at, mark_ended}

abbrev pub is_live : Ticket → Bool
is_live t = not t.ended

abbrev pub identifier_list : Option Text → List Text
identifier_list none = []
identifier_list (some id) = id ∷ []

-- The identifiers of the tickets that have not ended.
abbrev pub live_identifiers : List Ticket → List Text
live_identifiers [] = []
live_identifiers (t ∷ ts) =
    (if t.ended then [] else identifier_list t.identifier) ++ live_identifiers ts

abbrev pub IsDistinct : List Text → Type 0
IsDistinct [] = Unit
IsDistinct (x ∷ xs) = (any (text_eq x) xs ≡ false) × IsDistinct xs

-- The counters say what the tickets show: the active ones are those not ended, every one accepted is
-- active or completed, the peak is within the limit, and the identifiers are those of the active
-- ones, no two of them the same.
pub record IsCounted (s : Admission) : Type 0 where
  pub active : s.active ≡ count is_live s.tickets
  pub accepted : s.accepted ≡ length s.tickets
  pub balance : s.accepted ≡ s.active + s.completed
  pub below_peak : s.active ≤ s.peak
  pub peak_within : s.peak ≤ s.limit
  pub identifiers : s.identifiers ≡ live_identifiers s.tickets
  pub distinct : IsDistinct s.identifiers

pub live_identifiers-append :
    (xs ys : List Ticket) → live_identifiers (xs ++ ys) ≡ live_identifiers xs ++ live_identifiers ys
live_identifiers-append [] ys = refl
live_identifiers-append (t ∷ xs) ys =
    ap (λ r. (if t.ended then [] else identifier_list t.identifier) ++ r)
      (live_identifiers-append xs ys)
    ∙ sym (
        append_assoc (if t.ended then [] else identifier_list t.identifier) (live_identifiers xs)
          (live_identifiers ys))

text_eq_comm : (s t : Text) → text_eq s t ≡ text_eq t s
text_eq_comm s t = ground (arith, text_eq_iff s t, text_eq_iff t s)

pub IsDistinct-snoc :
    (xs : List Text) (x : Text)
    → any (text_eq x) xs ≡ false
    → IsDistinct xs
    → IsDistinct (xs ++ x ∷ [])
IsDistinct-snoc [] x h d = (refl, tt)
IsDistinct-snoc (y ∷ xs) x h d = (
  ground (arith, d.0, any-append (text_eq y) xs (x ∷ []), text_eq_comm x y),
  IsDistinct-snoc xs x (ground arith) d.1,
)

pub filter-absent :
    (x : Text) (xs : List Text)
    → any (text_eq x) xs ≡ false
    → filter (λ t. not (text_eq x t)) xs ≡ xs
filter-absent x [] h = refl
filter-absent x (y ∷ xs) h = ground (arith, filter-absent x xs)

any-filter :
    (x y : Text) (xs : List Text)
    → any (text_eq x) xs ≡ false
    → any (text_eq x) (filter (λ t. not (text_eq y t)) xs) ≡ false
any-filter x y [] h = refl
any-filter x y (z ∷ xs) h = ground (arith, any-filter x y xs)

IsDistinct-filter :
    (y : Text) (xs : List Text) → IsDistinct xs → IsDistinct (filter (λ t. not (text_eq y t)) xs)
IsDistinct-filter y [] d = tt
IsDistinct-filter y (x ∷ xs) d = elim (Bool-cases (text_eq y x)) [
  | inl e ↦ rw e (IsDistinct-filter y xs d.1)
  | inr e ↦ rw e (any-filter x y xs d.0, IsDistinct-filter y xs d.1)
]

pub IsDistinct-without :
    (i : Option Text) (xs : List Text) → IsDistinct xs → IsDistinct (without_identifier i xs)
IsDistinct-without none xs d = d
IsDistinct-without (some y) xs d = IsDistinct-filter y xs d

without-nil : (i : Option Text) → without_identifier i [] ≡ []
without-nil none = refl
without-nil (some y) = refl

-- The identifier of a live ticket is among the live ones.
pub ticket-live :
    (n : ℕ) (ts : List Ticket) (t : Ticket) (x : Text)
    → ticket_at n ts ≡ some t
    → t.ended ≡ false
    → t.identifier ≡ some x
    → any (text_eq x) (live_identifiers ts) ≡ true
ticket-live n [] t x h e i = cc
ticket-live zero (u ∷ ts) t x h e i =
    subst
      (λ (t : Ticket).
        any (text_eq x)
          ((if t.ended then [] else identifier_list t.identifier) ++ live_identifiers ts)
        ≡ true)
      (sym (some_inj h)) (rw (e, i) (ground (arith, text_eq_refl x)))
ticket-live (suc n) (u ∷ ts) t x h e i = ground (
  arith,
  any-append (text_eq x) (if u.ended then [] else identifier_list u.identifier)
      (live_identifiers ts),
  ticket-live n ts t x h e i,
)

pub count-mark_ended :
    (n : ℕ) (ts : List Ticket) (t : Ticket)
    → ticket_at n ts ≡ some t
    → t.ended ≡ false
    → count is_live ts ≡ suc (count is_live (mark_ended n ts))
count-mark_ended n [] t h e = cc
count-mark_ended zero (u ∷ ts) t h e =
    subst (λ (t : Ticket). count is_live (t ∷ ts) ≡ suc (count is_live (mark_ended zero (t ∷ ts))))
      (sym (some_inj h)) (rw e (omega arith))
count-mark_ended (suc n) (u ∷ ts) t h e = omega (arith, count-mark_ended n ts t h e)

pub length-mark_ended : (n : ℕ) (ts : List Ticket) → length (mark_ended n ts) ≡ length ts
length-mark_ended n [] = refl
length-mark_ended zero (t ∷ ts) = refl
length-mark_ended (suc n) (t ∷ ts) = ap suc (length-mark_ended n ts)
