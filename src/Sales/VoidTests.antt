-- ===== src/Sales/VoidTests.antt =====
-- An instance of the theorem on voided sales, and its run.
use fivuza_backend.Prelude.{
  ◌≤ℤ◌, true, ℕ, pos, ◌+ℤ◌, ◌-ℤ◌, ◌≡◌, refl, none, ◌==◌, if◌then◌else◌, arith,
}
use fivuza_backend.Result.{ok, ◌>>=◌}
use fivuza_backend.Model.Sales.{Method, SaleStatus}
use fivuza_backend.Inventory.{get_or_create, adjust_stock}
use fivuza_backend.Inventory.Kardex.{IsLedger}
use fivuza_backend.Permissions.{closure, resolve_codes, get_permission_codes, check_permission}
use fivuza_backend.Inventory.{quantity_in}
use fivuza_backend.Authorization.{require}
use fivuza_backend.Cash.{add_movement}
use fivuza_backend.Credit.{get_debt, get_balance}
use fivuza_backend.Permissions.{check_permission}
use fivuza_backend.Sales.Void.{is_completed, restock, restock_all, paid_by, voided_sale, void_sale}
use fivuza_backend.Sales.Reversal.{held}
use fivuza_backend.Sales.Voided.{MayVoid}
use fivuza_backend.Sales.Restored.{void_sale_restores}
use fivuza_backend.Samples.{env, supervisor}
use fivuza_backend.Sales.Samples.{made, granted, undone}

void_of_bread :
    void_sale env made supervisor none granted
    ≡ ok (record made { status = SaleStatus.voided }, undone)
unfolding void_sale require restock_all restock adjust_stock get_or_create add_movement
    check_permission get_permission_codes resolve_codes closure ◌>>=◌ ◌+ℤ◌ ◌-ℤ◌
void_of_bread = refl

kept_after : IsLedger granted
unfolding ◌+ℤ◌ ◌-ℤ◌
kept_after = record {
  balanced = λ v w. ground arith;
  traced = (omega arith, refl, (omega arith, refl, tt));
}

void_sale_restores_example :
    MayVoid env supervisor none made granted
    × (is_completed made.status ≡ true)
    × (record made { status = SaleStatus.voided } ≡ voided_sale made)
    × IsLedger undone
    × ((v k : ℕ)
        → quantity_in undone.stocks v k
          ≡ quantity_in granted.stocks v k
            +ℤ (if 1 == k then held 3 v granted.variants granted.details else pos 0))
    × (pos 0 ≤ℤ paid_by Method.credit_ledger 3 granted.payments
        → get_debt 4 undone ≡ get_debt 4 granted -ℤ paid_by Method.credit_ledger 3 granted.payments)
    × (pos 0 ≤ℤ paid_by Method.balance 3 granted.payments
        → get_balance 4 undone ≡ get_balance 4 granted +ℤ paid_by Method.balance 3 granted.payments)
void_sale_restores_example =
    void_sale_restores env made supervisor none granted kept_after void_of_bread
