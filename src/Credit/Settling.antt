-- ===== src/Credit/Settling.antt =====
-- An instalment pays the oldest debts first, in full as long as it lasts.
use fivuza_backend.Prelude.{
  ◌≡◌, refl, ℤ, pos, ◌+ℤ◌, ◌-ℤ◌, ◌≤ℤ◌, ◌<ℤ◌, ltb_ℤ, leb_ℤ, min_ℤ, false, List, [], ◌∷◌, All, arith,
  int_laws, inl, inr, Bool-cases, if◌then◌else◌, ◌⊎◌,
}
use fivuza_backend.Model.Sales.{Sale, paid, partial}
use fivuza_backend.Credit.{outstanding, settled_by, settle}

abbrev pub Owes : Sale → Type 0
Owes s = pos 0 <ℤ outstanding s

abbrev pub total_outstanding : List Sale → ℤ
total_outstanding [] = pos 0
total_outstanding (s ∷ ss) = outstanding s +ℤ total_outstanding ss

-- How much more is settled in the saved rows than it was.
abbrev pub paid_off : List Sale → List Sale → ℤ
paid_off _ [] = pos 0
paid_off [] (_ ∷ _) = pos 0
paid_off (s ∷ ss) (t ∷ ts) = (t.credit_settled_amount -ℤ s.credit_settled_amount) +ℤ paid_off ss ts

-- A sale that is not the last one paid is paid in full; each row shows its state, and is otherwise as
-- it was.
abbrev pub OldestFirst : List Sale → List Sale → Type 0
OldestFirst _ [] = Unit
OldestFirst [] (_ ∷ _) = ⊥
OldestFirst (s ∷ ss) (t ∷ ts) =
    (t ≡ record s {
      credit_settled_amount = t.credit_settled_amount;
      payment_status = t.payment_status;
    })
    × (s.credit_settled_amount <ℤ t.credit_settled_amount)
    × (t.credit_settled_amount ≤ℤ s.credit_amount)
    × ((ts ≡ []) ⊎ (t.credit_settled_amount ≡ s.credit_amount))
    × (t.payment_status ≡ (if leb_ℤ s.credit_amount t.credit_settled_amount then paid else partial))
    × OldestFirst ss ts

total_outstanding_nonneg : (ss : List Sale) → All Owes ss → pos 0 ≤ℤ total_outstanding ss
total_outstanding_nonneg [] h = omega arith
total_outstanding_nonneg (s ∷ ss) (h, hs) = omega (int_laws, total_outstanding_nonneg ss hs)

settle-nil : (r : ℤ) → settle r [] ≡ []
unfolding settle
settle-nil r = refl

settle-nothing : (r : ℤ) (ss : List Sale) → r ≤ℤ pos 0 → settle r ss ≡ []
unfolding settle
settle-nothing r [] h = refl
settle-nothing r (s ∷ ss) h = ground arith

settle-cons :
    (r : ℤ) (s : Sale) (ss : List Sale)
    → pos 0 <ℤ r
    → settle r (s ∷ ss)
      ≡ settled_by (min_ℤ r (outstanding s)) s ∷ settle (r -ℤ min_ℤ r (outstanding s)) ss
unfolding settle
settle-cons r s ss h = let more : leb_ℤ r (pos 0) ≡ false = ground arith in rw more

min_lem : (a b : ℤ) → ((min_ℤ a b ≡ a) × (a ≤ℤ b)) ⊎ ((min_ℤ a b ≡ b) × (b <ℤ a))
min_lem a b = elim (Bool-cases (ltb_ℤ b a)) [
  | inl e ↦ inr (rw e, ground arith)
  | inr e ↦ inl (rw e, ground arith)
]

min_left : (a b : ℤ) → a ≤ℤ b → min_ℤ a b ≡ a
min_left a b h = ground arith

min_right : (a b : ℤ) → b ≤ℤ a → min_ℤ a b ≡ b
min_right a b h = elim (min_lem a b) [ inl (e, le) ↦ rw e (omega int_laws) | inr (e, lt) ↦ e ]

min_shift : (r o t : ℤ) → o +ℤ min_ℤ (r -ℤ o) t ≡ min_ℤ r (o +ℤ t)
min_shift r o t = elim (min_lem r (o +ℤ t)) [
  | inl (e, le) ↦ rw (e, min_left (r -ℤ o) t (omega int_laws)) (omega int_laws)
  | inr (e, lt) ↦ rw (e, min_right (r -ℤ o) t (omega int_laws))
]

sign_lem : (r : ℤ) → (r ≤ℤ pos 0) ⊎ (pos 0 <ℤ r)
sign_lem r = ground arith

-- Of an instalment, all is used as long as something is owed.
pub paid_off-settle :
    (r : ℤ) (ss : List Sale)
    → pos 0 ≤ℤ r
    → All Owes ss
    → paid_off ss (settle r ss) ≡ min_ℤ r (total_outstanding ss)
paid_off-settle r [] h _ = rw (settle-nil r, min_right r (pos 0) h)
paid_off-settle r (s ∷ ss) h (owes, rest) = elim (sign_lem r) [
  | inl none_left ↦
      rw
        (
          settle-nothing r (s ∷ ss) none_left,
          min_left r (outstanding s +ℤ total_outstanding ss)
              (omega (int_laws, total_outstanding_nonneg ss rest)),
        )
        (omega int_laws)
  | inr left ↦ rw (settle-cons r s ss left) (elim (min_lem r (outstanding s)) [
    | inl (e, le) ↦
        rw
          (
            e,
            settle-nothing (r -ℤ r) ss (omega int_laws),
            min_left r (outstanding s +ℤ total_outstanding ss)
                (omega (int_laws, total_outstanding_nonneg ss rest)),
          )
          (omega int_laws)
    | inr (e, lt) ↦
        rw
          (
            e,
            paid_off-settle (r -ℤ outstanding s) ss (omega int_laws) rest,
            ← min_shift r (outstanding s) (total_outstanding ss),
          )
          (omega int_laws)
  ])
]

-- An instalment pays the pending sales from the oldest on: each row that it saves gained something
-- and owes no less than nothing, every row but the last is paid in full, and its payment status
-- says whether it is.
pub settle-OldestFirst : (r : ℤ) (ss : List Sale) → All Owes ss → OldestFirst ss (settle r ss)
settle-OldestFirst r [] h = rw (settle-nil r) tt
settle-OldestFirst r (s ∷ ss) (owes, rest) = elim (sign_lem r) [
  | inl none_left ↦ rw (settle-nothing r (s ∷ ss) none_left) tt
  | inr left ↦ rw (settle-cons r s ss left) (elim (min_lem r (outstanding s)) [
    | inl (e, le) ↦
        rw (e, settle-nothing (r -ℤ r) ss (omega int_laws))
          (refl, omega int_laws, omega int_laws, inl refl, refl, tt)
    | inr (e, lt) ↦ rw e (
      refl,
      omega int_laws,
      omega int_laws,
      inr (omega int_laws),
      refl,
      settle-OldestFirst (r -ℤ outstanding s) ss rest,
    )
  ])
]
