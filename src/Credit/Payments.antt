-- ===== src/Credit/Payments.antt =====
-- `register_payment`: an instalment lowers the debt and settles the pending sales.
use fivuza_backend.Prelude.{
  ℕ, ◌≡◌, ℤ, pos, ◌-ℤ◌, ◌≤ℤ◌, ◌<ℤ◌, ◌≤◌, min_ℤ, true, int_laws, ◌∙◌, sym, ap, ◌+ℤ◌, ◌==◌, leb, Bool,
  false, first, if◌then◌else◌, List, [], ◌∷◌, All, arith, inl, inr, Bool-cases, select, none,
}
use fivuza_backend.Model.{Db}
use fivuza_backend.Model.Sales.{Sale}
use fivuza_backend.Credit.{
  get_debt, settle, save_sales, register_payment, pending_sales, is_pending, sort_by_date,
  insert_by_date, has_sale_id,
}
use fivuza_backend.Credit.Rows.{
  OneEach, IsFound, OneEach-Apart, All-IsFound, sort_by_date-OneEach, select-OneEach,
}
use fivuza_backend.Credit.Owed.{owed, pending-owed}
use fivuza_backend.Credit.Saved.{or_else, save_sales-first, save_sales-owed}
use fivuza_backend.Credit.Limits.{debt-credit}
use fivuza_backend.Credit.Settling.{
  Owes, total_outstanding, OldestFirst, paid_off-settle, settle-OldestFirst,
}

-- In the order of the dates.
abbrev pub SortedFrom : ℕ → List Sale → Type 0
SortedFrom d [] = Unit
SortedFrom d (s ∷ ss) = (d ≤ s.occurred_at) × SortedFrom s.occurred_at ss

insert_by_date-SortedFrom :
    (d : ℕ) (s : Sale) (ss : List Sale)
    → d ≤ s.occurred_at
    → SortedFrom d ss
    → SortedFrom d (insert_by_date s ss)
insert_by_date-SortedFrom d s [] h r = (h, tt)
insert_by_date-SortedFrom d s (t ∷ ss) h (le, r) =
    ground (arith, insert_by_date-SortedFrom t.occurred_at s ss)

sort_by_date-SortedFrom : (ss : List Sale) → SortedFrom 0 (sort_by_date ss)
sort_by_date-SortedFrom [] = tt
sort_by_date-SortedFrom (s ∷ ss) =
    insert_by_date-SortedFrom 0 s (sort_by_date ss) (omega arith) (sort_by_date-SortedFrom ss)

insert_by_date-All :
    (P : Sale → Type 0) (s : Sale) (ss : List Sale) → P s → All P ss → All P (insert_by_date s ss)
insert_by_date-All P s [] h r = (h, tt)
insert_by_date-All P s (t ∷ ss) h (ht, r) = elim (Bool-cases (leb s.occurred_at t.occurred_at)) [
  | inl e ↦ rw e (h, (ht, r))
  | inr e ↦ rw e (ht, insert_by_date-All P s ss h r)
]

sort_by_date-All : (P : Sale → Type 0) (ss : List Sale) → All P ss → All P (sort_by_date ss)
sort_by_date-All P [] h = tt
sort_by_date-All P (s ∷ ss) (h, r) =
    insert_by_date-All P s (sort_by_date ss) h (sort_by_date-All P ss r)

pending-Owes : (c : ℕ) (s : Sale) → is_pending c s ≡ true → Owes s × (s.customer.id ≡ c)
pending-Owes c s h =
    let more : s.credit_settled_amount <ℤ s.credit_amount = ground arith in
    (omega int_laws, ground arith)

select-pending :
    (P : Sale → Type 0) (c : ℕ) (ss : List Sale)
    → All P ss
    → All Owes (select (is_pending c) ss)
      × All (λ (s : Sale). s.customer.id ≡ c) (select (is_pending c) ss)
      × All P (select (is_pending c) ss)
select-pending P c [] h = (tt, tt, tt)
select-pending P c (s ∷ ss) (p, h) =
    let (a, b, d) = select-pending P c ss h in
    elim (Bool-cases (is_pending c s)) [
      | inl e ↦ let (owes, mine) = pending-Owes c s e in rw e ((owes, a), (mine, b), (p, d))
      | inr e ↦ rw e (a, b, d)
    ]

lowered :
    (b : Bool) (after paid before : ℤ)
    → after +ℤ (if b then paid else pos 0) ≡ before
    → after ≡ (if b then before -ℤ paid else before)
lowered true after paid before h = alone ∙ ap (λ z. z -ℤ paid) h
  where
    alone : after ≡ (after +ℤ paid) -ℤ paid
    alone = omega int_laws
lowered false after paid before h = alone ∙ h
  where
    alone : after ≡ after +ℤ pos 0
    alone = omega int_laws

-- In a table where each sale has its own key, an instalment of zero or more of a customer lowers his
-- debt by all of it, and what his sales have open by the smaller of it and all that they have open; for
-- every other customer both stay. His sales with an open part are settled in the order of their dates,
-- each in full before the next: the rows that are saved are found by their keys, every other key finds
-- the row that it found, and of a saved row only the settled amount and the payment status change.
pub register_payment_settles :
    (c : ℕ) (x : ℤ) (db : Db)
    → pos 0 ≤ℤ x
    → OneEach db.sales
    → let pending = pending_sales c db.sales in
      let saved = settle x pending in
      let after = register_payment c x db in
      ((k : ℕ) → get_debt k after ≡ (if c == k then get_debt k db -ℤ x else get_debt k db))
      × ((k : ℕ)
          → owed k after.sales
            ≡ (if c == k then owed k db.sales -ℤ min_ℤ x (owed c db.sales) else owed k db.sales))
      × ((k : ℕ)
          → first (has_sale_id k) after.sales
            ≡ or_else (first (has_sale_id k) saved) (first (has_sale_id k) db.sales))
      × All (λ (s : Sale). s.customer.id ≡ c) pending
      × All (IsFound db.sales) pending
      × (total_outstanding pending ≡ owed c db.sales)
      × SortedFrom 0 pending
      × OldestFirst pending saved
unfolding register_payment get_debt
register_payment_settles c x db h one =
    let chosen = select (is_pending c) db.sales in
    let pending = sort_by_date chosen in
    let (owes, mine, found) =
      select-pending (IsFound db.sales) c db.sales
        (All-IsFound db.sales (OneEach-Apart db.sales one)) in
    let owes' = sort_by_date-All Owes chosen owes in
    let mine' = sort_by_date-All (λ (s : Sale). s.customer.id ≡ c) chosen mine in
    let found' = sort_by_date-All (IsFound db.sales) chosen found in
    let apart =
      OneEach-Apart pending
        (sort_by_date-OneEach chosen (select-OneEach (is_pending c) db.sales one)) in
    let oldest = settle-OldestFirst x pending owes' in
    let all_paid = paid_off-settle x pending h owes' ∙ ap (min_ℤ x) (pending-owed c db.sales) in
    (
      λ k. debt-credit k c none none x db,
      λ k.
          lowered (c == k) (owed k (save_sales (settle x pending) db.sales))
            (min_ℤ x (owed c db.sales)) (owed k db.sales)
            (ap
                (λ z.
                  owed k (save_sales (settle x pending) db.sales) +ℤ (if c == k then z else pos 0))
                (sym all_paid)
              ∙ save_sales-owed c k pending (settle x pending) db.sales one apart found' mine'
                  oldest),
      λ k. save_sales-first k pending (settle x pending) db.sales apart found' oldest,
      mine',
      found',
      pending-owed c db.sales,
      sort_by_date-SortedFrom chosen,
      oldest,
    )
