-- ===== src/Gym/Capacity.antt =====
-- No class takes more members on a date than it has room for, whatever is booked, marked and
-- cancelled in whatever order.
use native.Mathlib.Nat.{le_trans}
use fivuza_backend.Prelude.{
  Keyed, Keyed-nil, Keyed-cons, Keyed-update_where, ℕ, suc, ◌≤◌, ◌≡◌, refl, ap, ◌∙◌, leb, Bool,
  true, false, ◌&&◌, some, List, [], ◌∷◌, ◌==◌, length, first, update_where,
  count_where-update_where, first-only, first-passes, if◌then◌else◌, Bool-cases, inl, inr,
  true_of-not, arith,
}
use fivuza_backend.Result.{ok, raise_if-ok, >>=-eq-ok, ok-injective}
use fivuza_backend.Gym.Dates.{Date}
use fivuza_backend.Gym.Classes.{
  BookingStatus, reservado, asistio, no_asistio, cancelado, takes_place, is_reservado, GymClass,
  ClassBooking, is_taken, taken, same_date, has_id, with_status, reserved, book_class,
  mark_attendance, cancel_booking,
}

-- The calls on bookings. A booking that is marked or cancelled is read from the table by its key. The
-- capacity of a class can be edited between the calls; `room` is a bound on every capacity that the
-- class has when it is booked.
pub data Step (room : ℕ → ℕ) : List ClassBooking → List ClassBooking → Type 0 where
  books :
      {bs : List ClassBooking} {r : ClassBooking × List ClassBooking} (customer : ℕ) (c : GymClass)
      (on : Date)
      → c.max_capacity ≤ room c.id
      → book_class customer c on bs ≡ ok r
      → Step room bs r.1
  marks :
      {bs : List ClassBooking} {r : ClassBooking × List ClassBooking} (i : ℕ) (b : ClassBooking)
      (attended : Bool)
      → first (has_id i) bs ≡ some b
      → mark_attendance b attended bs ≡ ok r
      → Step room bs r.1
  cancels :
      {bs : List ClassBooking} {r : ClassBooking × List ClassBooking} (i : ℕ) (b : ClassBooking)
      → first (has_id i) bs ≡ some b
      → cancel_booking b bs ≡ ok r
      → Step room bs r.1

-- The tables that come about from an empty one.
pub data Reach (room : ℕ → ℕ) : List ClassBooking → Type 0 where
  here : Reach room []
  next : {bs bs' : List ClassBooking} → Reach room bs → Step room bs bs' → Reach room bs'

record Orderly (room : ℕ → ℕ) (bs : List ClassBooking) : Type 0 where
  fits : (c : ℕ) (on : Date) → taken c on bs ≤ room c
  keys : Keyed (λ b. b.id) bs

same_date-eq : (a b : Date) → same_date a b ≡ true → a ≡ b
same_date-eq a b h =
    let y : a.year ≡ b.year = ground arith in
    let m : a.month ≡ b.month = ground arith in
    let d : a.day ≡ b.day = ground arith in λ i. record { year = y i; month = m i; day = d i }

with_third : (p q a b : Bool) → (a ≡ true → b ≡ true) → (p && q && a) ≡ true → (p && q && b) ≡ true
with_third true true a b may h = may h
with_third true false a b may h = cc
with_third false q a b may h = cc

indicator : (b : Bool) → (if b then 1 else 0) ≤ 1
indicator true = omega arith
indicator false = omega arith

books-Orderly :
    (room : ℕ → ℕ) (customer : ℕ) (c : GymClass) (on : Date) (bs : List ClassBooking)
    (r : ClassBooking × List ClassBooking)
    → Orderly room bs
    → c.max_capacity ≤ room c.id
    → book_class customer c on bs ≡ ok r
    → Orderly room r.1
unfolding book_class
books-Orderly room customer c on bs r h cap_ e =
    let (_, e₁, h₁) = >>=-eq-ok _ _ e in
    let free = raise_if-ok _ _ e₁ in
    rw (← ok-injective h₁) record {
      fits = λ k d. room_left k d free;
      keys = Keyed-cons (λ b. b.id) (reserved (suc (length bs)) customer c on) bs refl h.keys;
    }
  where
    room_left :
        (k : ℕ) (d : Date)
        → leb c.max_capacity (taken c.id on bs) ≡ false
        → taken k d (reserved (suc (length bs)) customer c on ∷ bs) ≤ room k
    room_left k d free =
        elim (Bool-cases (is_taken k d (reserved (suc (length bs)) customer c on))) [
          | inl e ↦
              let same : c.id ≡ k = ground arith in
              let day = same_date-eq on d (ground arith) in
              let counts = ap (λ p. taken p on bs) same ∙ ap (λ q. taken k q bs) day in
              ground (
                arith,
                indicator (is_taken k d (reserved (suc (length bs)) customer c on)),
                free,
                counts,
                cap_,
                ap room same,
              )
          | inr e ↦ rw e (omega (arith, h.fits k d))
        ]

-- A status that takes no more room is written to the row of a key.
saved-Orderly :
    (room : ℕ → ℕ) (b : ClassBooking) (i : ℕ) (status : BookingStatus) (bs : List ClassBooking)
    → Orderly room bs
    → first (has_id i) bs ≡ some b
    → (takes_place status ≡ true → takes_place b.status ≡ true)
    → Orderly room (update_where (has_id b.id) (with_status status) bs)
saved-Orderly room b i status bs h row may = record {
  fits = λ c on.
      le_trans
        (count_where-update_where (is_taken c on) (has_id b.id) (with_status status) bs (
          first-only (has_id b.id)
            (λ x. is_taken c on (with_status status x) ≡ true → is_taken c on x ≡ true) b bs
            (h.keys.single b.id) here_
            (with_third (b.gym_class.id == c) (same_date b.class_date on) (takes_place status)
              (takes_place b.status) may)))
        (h.fits c on);
  keys = Keyed-update_where (λ b. b.id) (has_id b.id) (with_status status) bs (λ x. refl) h.keys;
}
  where
    here_ : first (has_id b.id) bs ≡ some b
    here_ =
        let same : b.id ≡ i = ground (arith, first-passes (has_id i) b bs row) in
        ap (λ k. first (has_id k) bs) same ∙ row

Step-Orderly :
    (room : ℕ → ℕ) (bs bs' : List ClassBooking)
    → Orderly room bs
    → Step room bs bs'
    → Orderly room bs'
unfolding mark_attendance cancel_booking
Step-Orderly room bs _ h (books {r = r} customer c on cap_ e) =
    books-Orderly room customer c on bs r h cap_ e
Step-Orderly room bs _ h (marks {r = r} i b attended row e) =
    let (_, e₁, h₁) = >>=-eq-ok _ _ e in
    rw (← ap (λ p. p.1) (ok-injective h₁)) (
      saved-Orderly room b i (if attended then asistio else no_asistio) bs h row
        (λ _. was_reserved b.status (true_of-not _ (raise_if-ok _ _ e₁))))
  where
    was_reserved : (s : BookingStatus) → is_reservado s ≡ true → takes_place s ≡ true
    was_reserved reservado e = refl
    was_reserved asistio e = refl
    was_reserved no_asistio e = cc
    was_reserved cancelado e = cc
Step-Orderly room bs _ h (cancels {r = r} i b row e) =
    let (_, _, h₁) = >>=-eq-ok _ _ e in
    rw (← ap (λ p. p.1) (ok-injective h₁)) (saved-Orderly room b i cancelado bs h row (λ t. cc))

Reach-Orderly : (room : ℕ → ℕ) (bs : List ClassBooking) → Reach room bs → Orderly room bs
Reach-Orderly room bs here = record { fits = λ c on. omega arith; keys = Keyed-nil (λ b. b.id) }
Reach-Orderly room bs' (next {bs = bs} reach step) =
    Step-Orderly room bs bs' (Reach-Orderly room bs reach) step

-- In every table of bookings that comes about from an empty one, by whatever bookings, marks of
-- attendance and cancellations in whatever order, no class has more bookings in force on a date than
-- any bound on the capacities that it had when they were made: with a capacity that is not edited, no
-- more than that. One call ends before the next begins.
pub Reach-fits :
    (room : ℕ → ℕ) (bs : List ClassBooking) (c : ℕ) (on : Date)
    → Reach room bs
    → taken c on bs ≤ room c
Reach-fits room bs c on reach = (Reach-Orderly room bs reach).fits c on
