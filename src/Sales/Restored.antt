-- ===== src/Sales/Restored.antt =====
-- What a voided sale gives back: its stock, its debt and its balance.
use fivuza_backend.Prelude.{
  ℕ, ◌≡◌, refl, ap, ◌∙◌, ℤ, pos, ◌+ℤ◌, ◌-ℤ◌, ◌≤ℤ◌, ltb_ℤ, true, false, Option, none, some, ◌==◌,
  if◌then◌else◌, Bool-cases, inl, inr, arith, int_laws, if_self,
}
use fivuza_backend.Result.{ok}
use fivuza_backend.Model.{Db}
use fivuza_backend.Model.Users.{User}
use fivuza_backend.Model.Sales.{Method, Sale}
use fivuza_backend.Inventory.{quantity_in}
use fivuza_backend.Inventory.Kardex.{IsLedger}
use fivuza_backend.Authorization.{Env}
use fivuza_backend.Credit.{get_debt, get_balance}
use fivuza_backend.Credit.Limits.{debt-credit, balance-credit}
use fivuza_backend.Sales.Void.{
  is_completed, paid_by, reversed_credit, reversed_balance, voided_sale, void_sale,
}
use fivuza_backend.Sales.Reversal.{held, Restocked, restock_all-Restocked}
use fivuza_backend.Sales.Voided.{MayVoid, Voids, void_sale-Voids}

-- The books depend on their own tables only.
get_debt-same : (c : ℕ) (db db' : Db) → db'.debts ≡ db.debts → get_debt c db' ≡ get_debt c db
unfolding get_debt
get_debt-same c db db' e = rw e refl

get_balance-same :
    (c : ℕ) (db db' : Db) → db'.balances ≡ db.balances → get_balance c db' ≡ get_balance c db
unfolding get_balance
get_balance-same c db db' e = rw e refl

no_less : (x y : ℤ) → ltb_ℤ (pos 0) y ≡ false → pos 0 ≤ℤ y → x ≡ x -ℤ y
no_less x y h le = let zero : y ≤ℤ pos 0 = ground arith in omega (int_laws, zero, le)

no_more : (x y : ℤ) → ltb_ℤ (pos 0) y ≡ false → pos 0 ≤ℤ y → x ≡ x +ℤ y
no_more x y h le = let zero : y ≤ℤ pos 0 = ground arith in omega (int_laws, zero, le)

reversed_credit-debt :
    (c sale : ℕ) (x : ℤ) (db : Db)
    → pos 0 ≤ℤ x
    → get_debt c (reversed_credit c sale x db) ≡ get_debt c db -ℤ x
reversed_credit-debt c sale x db le = elim (Bool-cases (ltb_ℤ (pos 0) x)) [
  | inl e ↦ rw e (debt-credit c c (some sale) none x db ∙ if_self c _ _)
  | inr e ↦ rw e (no_less (get_debt c db) x e le)
]

reversed_balance-balance :
    (c sale : ℕ) (x : ℤ) (db : Db)
    → pos 0 ≤ℤ x
    → get_balance c (reversed_balance c sale x db) ≡ get_balance c db +ℤ x
reversed_balance-balance c sale x db le = elim (Bool-cases (ltb_ℤ (pos 0) x)) [
  | inl e ↦ rw e (balance-credit c c (some sale) none x db ∙ if_self c _ _)
  | inr e ↦ rw e (no_more (get_balance c db) x e le)
]

-- The reversals touch one table each.
reversed_credit-rows :
    (c sale : ℕ) (x : ℤ) (db : Db)
    → reversed_credit c sale x db ≡ record db { debts = (reversed_credit c sale x db).debts }
reversed_credit-rows c sale x db = elim (Bool-cases (ltb_ℤ (pos 0) x)) [
  | inl e ↦ rw e refl
  | inr e ↦ rw e refl
]

reversed_balance-rows :
    (c sale : ℕ) (x : ℤ) (db : Db)
    → reversed_balance c sale x db
      ≡ record db { balances = (reversed_balance c sale x db).balances }
reversed_balance-rows c sale x db = elim (Bool-cases (ltb_ℤ (pos 0) x)) [
  | inl e ↦ rw e refl
  | inr e ↦ rw e refl
]

module _ (env : Env) (s : Sale) (user : User) (raw : Option ℕ) (db : Db) (s' : Sale) (db' : Db)
    (w : Voids env s user raw db s' db') where
  -- The two reversals, as changes of one table each.
  credit_only : w.credited ≡ record w.refunded { debts = w.credited.debts }
  credit_only =
      let x = paid_by Method.credit_ledger s.id w.refunded.payments in
      rw w.is_credited (reversed_credit-rows s.customer.id s.id x w.refunded)

  balance_only : w.balanced ≡ record w.credited { balances = w.balanced.balances }
  balance_only =
      let x = paid_by Method.balance s.id w.credited.payments in
      rw w.is_balanced (reversed_balance-rows s.customer.id s.id x w.credited)

  Voids-stocks : db'.stocks ≡ w.shelved.stocks
  Voids-stocks =
      ap (λ x. x.stocks) w.ends
      ∙ ap (λ x. x.stocks) balance_only
      ∙ ap (λ x. x.stocks) credit_only
      ∙ ap (λ x. x.stocks) w.refunds

  Voids-movements : db'.movements ≡ w.shelved.movements
  Voids-movements =
      ap (λ x. x.movements) w.ends
      ∙ ap (λ x. x.movements) balance_only
      ∙ ap (λ x. x.movements) credit_only
      ∙ ap (λ x. x.movements) w.refunds

  IsLedger-spent : IsLedger db → IsLedger w.spent
  IsLedger-spent l = rw w.spends (record { balanced = l.balanced; traced = l.traced })

  -- What the loop on the details did.
  shelving :
      IsLedger db
      → Restocked s.warehouse (λ v. held s.id v w.spent.variants w.spent.details) w.spent w.shelved
  shelving l =
      restock_all-Restocked user.id s.id s.warehouse w.spent.details w.spent (IsLedger-spent l)
        w.shelves

  Voids-payments : IsLedger db → w.refunded.payments ≡ db.payments
  Voids-payments l = ap (λ x. x.payments) w.refunds ∙ (shelving l).2 ∙ ap (λ x. x.payments) w.spends

  Voids-debt :
      IsLedger db
      → pos 0 ≤ℤ paid_by Method.credit_ledger s.id db.payments
      → get_debt s.customer.id db'
        ≡ get_debt s.customer.id db -ℤ paid_by Method.credit_ledger s.id db.payments
  Voids-debt l le =
      let pays = Voids-payments l in
      let owed : w.refunded.debts ≡ db.debts =
        ap (λ x. x.debts) w.refunds ∙ (shelving l).3 ∙ ap (λ x. x.debts) w.spends in
      get_debt-same s.customer.id w.credited db'
        (ap (λ x. x.debts) w.ends ∙ ap (λ x. x.debts) balance_only)
      ∙ ap (get_debt s.customer.id) w.is_credited
      ∙ reversed_credit-debt s.customer.id s.id _ w.refunded (rw pays le)
      ∙ rw (get_debt-same s.customer.id db w.refunded owed, pays) refl

  Voids-balance :
      IsLedger db
      → pos 0 ≤ℤ paid_by Method.balance s.id db.payments
      → get_balance s.customer.id db'
        ≡ get_balance s.customer.id db +ℤ paid_by Method.balance s.id db.payments
  Voids-balance l le =
      let pays : w.credited.payments ≡ db.payments =
        ap (λ x. x.payments) credit_only ∙ Voids-payments l in
      let had : w.credited.balances ≡ db.balances =
        ap (λ x. x.balances) credit_only
        ∙ ap (λ x. x.balances) w.refunds
        ∙ (shelving l).4
        ∙ ap (λ x. x.balances) w.spends in
      get_balance-same s.customer.id w.balanced db' (ap (λ x. x.balances) w.ends)
      ∙ ap (get_balance s.customer.id) w.is_balanced
      ∙ reversed_balance-balance s.customer.id s.id _ w.credited (rw pays le)
      ∙ rw (get_balance-same s.customer.id db w.credited had, pays) refl

  Voids-IsLedger : IsLedger db → IsLedger db'
  Voids-IsLedger l =
      let kept = (shelving l).0 in
      record {
        balanced = rw (Voids-stocks, Voids-movements) kept.balanced;
        traced = rw Voids-movements kept.traced;
      }

  Voids-restores :
      IsLedger db
      → (v k : ℕ)
      → quantity_in db'.stocks v k
        ≡ quantity_in db.stocks v k
          +ℤ (if s.warehouse == k then held s.id v db.variants db.details else pos 0)
  Voids-restores l v k =
      ap (λ x. quantity_in x v k) Voids-stocks
      ∙ (shelving l).5 v k
      ∙ ap
          (λ (x : Db).
            quantity_in x.stocks v k
            +ℤ (if s.warehouse == k then held s.id v x.variants x.details else pos 0))
          w.spends

-- A sale that was voided was completed, and was voided by someone who may do so or with a
-- supervisor's token for this sale. The quantity of each of its details whose variant exists is
-- back in the stock of its warehouse, no other stock changes, and the Kardex is kept. What it lent
-- is taken from the customer's debt and what it took from the balance is given back, if these
-- amounts are not negative.
pub void_sale_restores :
    (env : Env) (s : Sale) (user : User) (raw : Option ℕ) (db : Db) {s' : Sale} {db' : Db}
    → IsLedger db
    → void_sale env s user raw db ≡ ok (s', db')
    → MayVoid env user raw s db
      × (is_completed s.status ≡ true)
      × (s' ≡ voided_sale s)
      × IsLedger db'
      × ((v k : ℕ)
          → quantity_in db'.stocks v k
            ≡ quantity_in db.stocks v k
              +ℤ (if s.warehouse == k then held s.id v db.variants db.details else pos 0))
      × (pos 0 ≤ℤ paid_by Method.credit_ledger s.id db.payments
          → get_debt s.customer.id db'
            ≡ get_debt s.customer.id db -ℤ paid_by Method.credit_ledger s.id db.payments)
      × (pos 0 ≤ℤ paid_by Method.balance s.id db.payments
          → get_balance s.customer.id db'
            ≡ get_balance s.customer.id db +ℤ paid_by Method.balance s.id db.payments)
void_sale_restores env s user raw db {s'} {db'} l h =
    let w = void_sale-Voids env s user raw db h in
    (
      w.granted,
      w.completed,
      w.is_voided,
      Voids-IsLedger env s user raw db s' db' w l,
      Voids-restores env s user raw db s' db' w l,
      Voids-debt env s user raw db s' db' w l,
      Voids-balance env s user raw db s' db' w l,
    )
