-- ===== src/Credit/Tests.antt =====
-- Instances of the theorems on the customers' books, and runs.
use fivuza_backend.Prelude.{
  ℕ, pos, ◌≤ℤ◌, ◌-ℤ◌, ◌+ℤ◌, ◌≡◌, refl, false, none, some, ◌∷◌, arith, min_ℤ, ◌==◌, All, first,
  if◌then◌else◌,
}
use fivuza_backend.Result.{err, ◌>>=◌, credit_limit_exceeded}
use fivuza_backend.Model.{Db}
use fivuza_backend.Model.Sales.{Sale, debit}
use fivuza_backend.Credit.{
  get_debt, get_balance, entry, over_limit, register_credit_sale, register_balance_use,
  register_balance_credit, settle, has_sale_id, register_payment, pending_sales,
}
use fivuza_backend.Credit.Limits.{register_credit_sale_within, register_balance_use_within}
use fivuza_backend.Credit.Settling.{OldestFirst, total_outstanding}
use fivuza_backend.Credit.Payments.{SortedFrom, register_payment_settles}
use fivuza_backend.Credit.Rows.{OneEach, IsFound}
use fivuza_backend.Credit.Owed.{owed}
use fivuza_backend.Credit.Saved.{or_else}
use fivuza_backend.Samples.{shop, regular}

abbrev lent : Db
lent = record shop { debts = entry 4 (some 3) none debit (pos 46000) ∷ shop.debts }

register_credit_sale_within_example :
    (regular.is_walk_in ≡ false)
    × (get_debt 4 lent ≡ get_debt 4 shop +ℤ pos 46000)
    × (over_limit regular.credit_limit (get_debt 4 lent) ≡ false)
unfolding register_credit_sale ◌>>=◌ get_debt ◌-ℤ◌ ◌+ℤ◌
register_credit_sale_within_example = register_credit_sale_within regular 3 (pos 46000) shop refl

one_cent_more : register_credit_sale regular 3 (pos 46001) shop ≡ err credit_limit_exceeded
unfolding register_credit_sale ◌>>=◌ get_debt ◌-ℤ◌ ◌+ℤ◌
one_cent_more = refl

abbrev in_favour : Db
in_favour = register_balance_credit 4 2 1 (pos 700) shop

abbrev used : Db
used = record in_favour { balances = entry 4 (some 3) none debit (pos 500) ∷ in_favour.balances }

register_balance_use_within_example :
    (regular.is_walk_in ≡ false)
    × (pos 500 ≤ℤ get_balance 4 in_favour)
    × ((k : ℕ)
        → get_balance k used
          ≡ (if 4 == k then get_balance k in_favour -ℤ pos 500 else get_balance k in_favour))
    × ((k : ℕ) → pos 0 ≤ℤ get_balance k in_favour → pos 0 ≤ℤ get_balance k used)
unfolding register_balance_use ◌>>=◌ get_balance ◌-ℤ◌ ◌+ℤ◌
register_balance_use_within_example = register_balance_use_within regular 3 (pos 500) in_favour refl

-- Of 25.00, the older sale of 10.00 is settled first, and the newer one in part.
shop-OneEach : OneEach shop.sales
shop-OneEach i = ground arith

register_payment_settles_example :
    let pending = pending_sales 4 shop.sales in
    let saved = settle (pos 2500) pending in
    let after = register_payment 4 (pos 2500) shop in
    ((k : ℕ) → get_debt k after ≡ (if 4 == k then get_debt k shop -ℤ pos 2500 else get_debt k shop))
    × ((k : ℕ)
        → owed k after.sales ≡ (
            if 4 == k
            then owed k shop.sales -ℤ min_ℤ (pos 2500) (owed 4 shop.sales)
            else owed k shop.sales))
    × ((k : ℕ)
        → first (has_sale_id k) after.sales
          ≡ or_else (first (has_sale_id k) saved) (first (has_sale_id k) shop.sales))
    × All (λ (s : Sale). s.customer.id ≡ 4) pending
    × All (IsFound shop.sales) pending
    × (total_outstanding pending ≡ owed 4 shop.sales)
    × SortedFrom 0 pending
    × OldestFirst pending saved
register_payment_settles_example =
    register_payment_settles 4 (pos 2500) shop (omega arith) shop-OneEach
