-- ===== src/Returns/Tests.antt =====
-- Instances of the theorems on returns, and runs.
use fivuza_backend.Prelude.{
  ℕ, ◌≡◌, refl, ap, ℤ, pos, pos_part, ◌+ℤ◌, ◌-ℤ◌, ◌*ℤ◌, true, false, none, some, [], ◌∷◌, ◌==◌,
  first, inl, inr, ◌⊎◌, Bool-cases, arith,
}
use fivuza_backend.Result.{ok, err, ◌>>=◌, return_exceeds_sold}
use fivuza_backend.Model.{Db}
use fivuza_backend.Model.Users.{Code, Action}
use fivuza_backend.Model.Inventory.{incoming, Concept}
use fivuza_backend.Model.Sales.{SaleDetail, SaleReturn, in_cash, outflow, devolucion}
use fivuza_backend.Decimals.{round2}
use fivuza_backend.Inventory.{adjust_stock, get_or_create}
use fivuza_backend.Permissions.{check_permission, get_permission_codes, resolve_codes, closure}
use fivuza_backend.Authorization.{require}
use fivuza_backend.Cash.{add_movement}
use fivuza_backend.Sales.Void.{restock}
use fivuza_backend.Sales.Samples.{units, made, after}
use fivuza_backend.Returns.{
  ReturnItem, is_detail, prepare_item, prepare_items, record_items, authorize_refund, write_return,
  create_return,
}
use fivuza_backend.Returns.Within.{Within, create_return-Within}
use fivuza_backend.Returns.Permits.{create_return_permits}
use fivuza_backend.Samples.{env, supervisor, session}

-- The supervisor may take goods back and pay for them in cash.
abbrev counter : Db
counter = record after {
  user_permissions =
      record { id = 1; user = 8; code = Code.sales_return; is_granted = true }
      ∷ record { id = 2; user = 8; code = Code.sales_cash_refund; is_granted = true }
      ∷ [];
}

abbrev back : ℤ → ReturnItem
back q = record { sale_detail_id = 1; quantity_returned = units q; restock = true }

-- One loaf of three that came to 13.50.
abbrev one_loaf : SaleReturn
one_loaf = record {
  id = 1;
  sale = 3;
  user = 8;
  total_refund_amount = pos 450;
  refund_type = in_cash;
}

abbrev taken_back : Db
taken_back = record counter {
  returns = one_loaf ∷ [];
  return_details =
      record {
        sale_return = 1;
        sale_detail = 1;
        quantity_returned = pos 100;
        restock = true;
        subtotal = pos 450;
      }
      ∷ [];
  stocks = record { variant = 1; warehouse = 1; quantity = pos 1800 } ∷ [];
  movements =
      record {
        id = 3;
        variant = 1;
        warehouse = 1;
        user = 8;
        type = incoming;
        quantity = pos 100;
        concept = Concept.return;
        reference_id = none;
        oversell_flag = false;
        resulting_balance = pos 1800;
      }
      ∷ after.movements;
  cash_movements =
      record { cash_session = 1; type = outflow; concept = devolucion; amount = pos 450; user = 8 }
      ∷ [];
  audit_log = record { user = 8; action = Action.sale_returned; entity_id = 1 } ∷ after.audit_log;
}

loaf_back :
    create_return env made (back (pos 100) ∷ []) none supervisor (some session) none counter
    ≡ ok (one_loaf, taken_back)
unfolding create_return write_return record_items prepare_items prepare_item authorize_refund
    restock adjust_stock get_or_create add_movement require check_permission get_permission_codes
    resolve_codes closure round2 ◌>>=◌ ◌+ℤ◌ ◌-ℤ◌ ◌*ℤ◌
loaf_back = refl

too_many :
    create_return env made (back (pos 301) ∷ []) none supervisor (some session) none counter
    ≡ err return_exceeds_sold
unfolding create_return write_return record_items prepare_items prepare_item authorize_refund
    require check_permission get_permission_codes resolve_codes closure round2 ◌>>=◌ ◌+ℤ◌ ◌-ℤ◌ ◌*ℤ◌
too_many = refl

abbrev sold_bread : SaleDetail
sold_bread = record {
  id = 1;
  sale = 3;
  variant_id = 1;
  quantity = pos 300;
  unit_price = pos 500;
  discount_amount = pos 150;
  subtotal = pos 1350;
}

only_bread :
    (i : ℕ) (d : SaleDetail) → first (is_detail i 3) (sold_bread ∷ []) ≡ some d → sold_bread ≡ d
only_bread i d row = elim (Bool-cases (1 == i)) [
  | inl e ↦ let both : some sold_bread ≡ some d = rw e at row in cc
  | inr e ↦ let both : none ≡ some d = rw e at row in absurd cc
]

nothing_back : Within 3 counter
nothing_back i d row = rw (← only_bread i d row) (
  omega arith,
  omega arith,
  λ e. let parts : 0 ≡ 300 = ap pos_part e in absurd (omega (arith, parts)),
)

create_return-Within_example : Within 3 taken_back
create_return-Within_example =
    create_return-Within env made (back (pos 100) ∷ []) none supervisor (some session) none counter
      (tt, tt) nothing_back loaf_back

create_return_permits_example :
    (check_permission supervisor Code.sales_return counter ≡ true)
    ⊎ (check_permission supervisor Code.sales_cash_refund counter ≡ true)
create_return_permits_example =
    create_return_permits env made (back (pos 100) ∷ []) none supervisor (some session) none counter
      refl loaf_back
