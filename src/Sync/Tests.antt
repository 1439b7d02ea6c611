-- ===== src/Sync/Tests.antt =====
-- A batch of one sale that is sent twice, and one that breaks the loop off.
use fivuza_backend.Prelude.{◌≡◌, refl, pos, ◌+ℤ◌, ◌-ℤ◌, ◌*ℤ◌, true, false, some, none, [], ◌∷◌}
use fivuza_backend.Result.{invalid, ◌>>=◌}
use fivuza_backend.Model.Sales.{Sale}
use fivuza_backend.Decimals.{round2}
use fivuza_backend.Inventory.{get_or_create, adjust_stock}
use fivuza_backend.Cash.{assert_can_sell}
use fivuza_backend.Pricing.{
  resolve_unit_price, resolve_active_promotion, resolve_promotion_discount, exceeds_discount_limit,
}
use fivuza_backend.Sales.Lines.{prepare_line, prepare_lines}
use fivuza_backend.Sales.Payments.{check_payments, record_payment, record_payments}
use fivuza_backend.Sales.Create.{authorize_discount, record_lines, write_sale, create_sale}
use fivuza_backend.Samples.{env, cashier, regular, shop}
use fivuza_backend.Sales.Samples.{loaves, cash, made, after}
use fivuza_backend.Sync.{
  SaleData, Directory, created, answer, BatchOutcome, require_warehouse, resolve_references,
  make_sale, sync_batch,
}
use fivuza_backend.Sync.Repeat.{repeated, IsDone, sync_batch_idempotent}

abbrev directory : Directory
directory = record {
  customers = regular ∷ [];
  user_warehouses = record { user = 7; warehouse = 1; is_active = true } ∷ [];
  is_admin = λ r. false;
}

abbrev offline : SaleData
offline = record {
  customer_id = 4;
  cash_session_id = 1;
  lines = loaves (pos 300) ∷ [];
  payments = cash (pos 1350) ∷ [];
  client_side_uuid = 77;
  occurred_at = none;
}

abbrev made_offline : Sale
made_offline = record made { client_side_uuid = 77 }

abbrev synced_once : BatchOutcome
synced_once = record {
  synced = answer 77 created (some 3) none ∷ [];
  conflicts = [];
  db = record after { sales = made_offline ∷ shop.sales };
  raised = none;
}

sent : sync_batch env directory cashier (offline ∷ []) shop ≡ synced_once
unfolding sync_batch make_sale resolve_references require_warehouse create_sale write_sale
    record_lines record_payments record_payment check_payments prepare_lines prepare_line
    authorize_discount adjust_stock get_or_create assert_can_sell ◌>>=◌ resolve_unit_price
    resolve_active_promotion resolve_promotion_discount round2 exceeds_discount_limit ◌+ℤ◌ ◌-ℤ◌ ◌*ℤ◌
sent = refl

-- Two lines of one variant and one quantity raise an error that the loop does not catch: the sale
-- after them is not recorded, now or when the batch is sent again.
stuck :
    (sync_batch env directory cashier
      (record offline {
        lines = loaves (pos 300) ∷ loaves (pos 300) ∷ [];
        payments = cash (pos 2700) ∷ [];
      }
        ∷ record offline { client_side_uuid = 78 }
        ∷ [])
      shop)
    ≡ record { synced = []; conflicts = []; db = shop; raised = some invalid }
unfolding sync_batch make_sale resolve_references require_warehouse create_sale write_sale
    record_lines record_payments record_payment check_payments prepare_lines prepare_line
    authorize_discount adjust_stock get_or_create assert_can_sell ◌>>=◌ resolve_unit_price
    resolve_active_promotion resolve_promotion_discount round2 exceeds_discount_limit ◌+ℤ◌ ◌-ℤ◌ ◌*ℤ◌
stuck = refl

went_through : IsDone synced_once
went_through = (refl, (λ f. f, tt))

sync_batch_idempotent_example :
    sync_batch env directory cashier
      (offline ∷ [])
      (sync_batch env directory cashier (offline ∷ []) shop).db
    ≡ repeated
        (sync_batch env directory cashier (offline ∷ []) shop)
        (sync_batch env directory cashier (offline ∷ []) shop).db
sync_batch_idempotent_example =
    sync_batch_idempotent env env directory directory cashier cashier (offline ∷ []) shop
      (rw sent went_through)
