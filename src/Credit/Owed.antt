-- ===== src/Credit/Owed.antt =====
-- What the sales of each customer have open, before an instalment and after its writes.
use fivuza_backend.Prelude.{
  ℕ, ◌≡◌, refl, sym, ap, ◌∙◌, ℤ, pos, ◌+ℤ◌, ◌-ℤ◌, ◌≤ℤ◌, ◌<ℤ◌, leb_ℤ, ltb_ℤ, true, false, some, leb,
  List, [], ◌∷◌, ◌==◌, All, first, select, update_where, if◌then◌else◌, Bool-cases, inl, inr, arith,
  int_laws,
}
use fivuza_backend.Model.Sales.{Sale}
use fivuza_backend.Credit.{has_sale_id, insert_by_date, sort_by_date, is_pending, outstanding}
use fivuza_backend.Credit.Settling.{total_outstanding}
use fivuza_backend.Credit.Rows.{Apart}

-- The part of a sale that is not settled.
abbrev pub open_part : Sale → ℤ
open_part s =
    if leb_ℤ s.credit_amount s.credit_settled_amount
    then pos 0
    else s.credit_amount -ℤ s.credit_settled_amount

abbrev pub part_of : ℕ → Sale → ℤ
part_of k s = if s.customer.id == k then open_part s else pos 0

-- What a customer's sales have open.
abbrev pub owed : ℕ → List Sale → ℤ
owed k [] = pos 0
owed k (s ∷ ss) = part_of k s +ℤ owed k ss

total-insert :
    (s : Sale) (ss : List Sale)
    → total_outstanding (insert_by_date s ss) ≡ outstanding s +ℤ total_outstanding ss
total-insert s [] = refl
total-insert s (t ∷ ss) = elim (Bool-cases (leb s.occurred_at t.occurred_at)) [
  | inl e ↦ rw e refl
  | inr e ↦ rw (e, total-insert s ss) (omega int_laws)
]

total-sort : (ss : List Sale) → total_outstanding (sort_by_date ss) ≡ total_outstanding ss
total-sort [] = refl
total-sort (s ∷ ss) = total-insert s (sort_by_date ss) ∙ rw (total-sort ss) refl

total-select : (c : ℕ) (ss : List Sale) → total_outstanding (select (is_pending c) ss) ≡ owed c ss
total-select c [] = refl
total-select c (s ∷ ss) = elim (Bool-cases (s.customer.id == c)) [
  | inl e ↦ elim (Bool-cases (ltb_ℤ s.credit_settled_amount s.credit_amount)) [
    | inl f ↦
        let more : leb_ℤ s.credit_amount s.credit_settled_amount ≡ false = ground (arith, f) in
        rw (e, f, more, total-select c ss) refl
    | inr f ↦
        let no_more : leb_ℤ s.credit_amount s.credit_settled_amount ≡ true = ground (arith, f) in
        rw (e, f, no_more, total-select c ss) (omega int_laws)
  ]
  | inr e ↦ rw (e, total-select c ss) (omega int_laws)
]

-- The pending sales owe what the customer's sales have open.
pub pending-owed :
    (c : ℕ) (ss : List Sale)
    → total_outstanding (sort_by_date (select (is_pending c) ss)) ≡ owed c ss
pending-owed c ss = total-sort (select (is_pending c) ss) ∙ total-select c ss

-- One row is written.
kept-owed :
    (k i : ℕ) (t : Sale) (table : List Sale)
    → All (λ (u : Sale). (u.id == i) ≡ false) table
    → owed k (update_where (has_sale_id i) (λ _. t) table) ≡ owed k table
kept-owed k i t [] h = refl
kept-owed k i t (x ∷ table) (h, hs) = rw (h, kept-owed k i t table hs) refl

swap : (a b c : ℤ) → (a +ℤ c) +ℤ b ≡ (b +ℤ c) +ℤ a
swap a b c = omega int_laws

under : (p a b c d : ℤ) → a +ℤ b ≡ c +ℤ d → (p +ℤ a) +ℤ b ≡ (p +ℤ c) +ℤ d
under p a b c d h = assoc p a b ∙ ap (λ z. p +ℤ z) h ∙ sym (assoc p c d)
  where
    assoc : (x y z : ℤ) → (x +ℤ y) +ℤ z ≡ x +ℤ (y +ℤ z)
    assoc x y z = omega int_laws

pub written-owed :
    (k i : ℕ) (s t : Sale) (table : List Sale)
    → Apart table
    → first (has_sale_id i) table ≡ some s
    → owed k (update_where (has_sale_id i) (λ _. t) table) +ℤ part_of k s
      ≡ owed k table +ℤ part_of k t
written-owed k i s t [] apart h = cc
written-owed k i s t (x ∷ table) (away, apart) h = elim (Bool-cases (x.id == i)) [
  | inl e ↦
      let it : some x ≡ some s = rw e at h in
      let that : s ≡ x = cc in
      let key : x.id ≡ i = ground (arith, e) in
      let rest : All (λ (u : Sale). (u.id == i) ≡ false) table = rw key at away in
      rw (e, kept-owed k i t table rest, that) (swap (part_of k t) (part_of k x) (owed k table))
  | inr e ↦
      let ih = written-owed k i s t table apart (rw e at h) in
      rw e (
        under (part_of k x) (owed k (update_where (has_sale_id i) (λ _. t) table)) (part_of k s)
          (owed k table) (part_of k t) ih)
]

open_step :
    (whole before after : ℤ)
    → before <ℤ after
    → after ≤ℤ whole
    → (if leb_ℤ whole before then pos 0 else whole -ℤ before)
      ≡ (if leb_ℤ whole after then pos 0 else whole -ℤ after) +ℤ (after -ℤ before)
open_step whole before after more within =
    let left : leb_ℤ whole before ≡ false = ground arith in
    elim (Bool-cases (leb_ℤ whole after)) [
      | inl e ↦ let le : whole ≤ℤ after = ground (arith, e) in rw (left, e) (omega int_laws)
      | inr e ↦ rw (left, e) (omega int_laws)
    ]

-- What a settled row had open is what it has open and what was paid.
pub settled-part :
    (c k : ℕ) (s t : Sale)
    → s.customer.id ≡ c
    → t ≡ record s {
      credit_settled_amount = t.credit_settled_amount;
      payment_status = t.payment_status;
    }
    → s.credit_settled_amount <ℤ t.credit_settled_amount
    → t.credit_settled_amount ≤ℤ s.credit_amount
    → part_of k s
      ≡ part_of k t
        +ℤ (if c == k then t.credit_settled_amount -ℤ s.credit_settled_amount else pos 0)
settled-part c k s t mine kept more within =
    let who : t.customer.id ≡ c = ap (λ x. x.customer.id) kept ∙ mine in
    let same : t.credit_amount ≡ s.credit_amount = ap (λ x. x.credit_amount) kept in
    elim (Bool-cases (c == k)) [
      | inl e ↦
          rw (mine, who, e, same)
            (open_step s.credit_amount s.credit_settled_amount t.credit_settled_amount more within)
      | inr e ↦ rw (mine, who, e) (omega int_laws)
    ]
