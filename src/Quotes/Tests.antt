-- ===== src/Quotes/Tests.antt =====
-- A quote that is made, accepted and sold after the price has gone up.
use fivuza_backend.Prelude.{◌≡◌, refl, pos, ltb_ℤ, false, ◌+ℤ◌, ◌-ℤ◌, ◌*ℤ◌, none, List, [], ◌∷◌}
use fivuza_backend.Result.{ok, ◌>>=◌}
use fivuza_backend.Model.{Db}
use fivuza_backend.Model.Users.{Action, AuditLog}
use fivuza_backend.Decimals.{round2}
use fivuza_backend.Inventory.{get_or_create, adjust_stock}
use fivuza_backend.Permissions.{closure, resolve_codes, get_permission_codes, check_permission}
use fivuza_backend.Authorization.{consume}
use fivuza_backend.Cash.{assert_can_sell}
use fivuza_backend.Pricing.{
  resolve_unit_price, resolve_active_promotion, resolve_promotion_discount, exceeds_discount_limit,
  discount_percent,
}
use fivuza_backend.Sales.Lines.{prepare_line, prepare_lines}
use fivuza_backend.Sales.Payments.{payments_total, check_payments, record_payment, record_payments}
use fivuza_backend.Sales.Create.{authorize_discount, record_lines, write_sale, create_sale}
use fivuza_backend.Samples.{env, cashier, regular, session, shop, bread, cheese}
use fivuza_backend.Sales.Samples.{units, cash, made, after}
use fivuza_backend.Quotes.{
  QuoteLine, Quote, Desk, accepted, marked, line_amount, quote_lines, authorize_quote, create_quote,
}
use fivuza_backend.Quotes.{draft as draft_status}
use fivuza_backend.Quotes.Conversion.{sold_by, sell_quote}
use fivuza_backend.Quotes.Frozen.{sell_quote-create_quote}

abbrev lines : List QuoteLine
lines = record { variant_id = 1; quantity = units (pos 300); discount_amount = none } ∷ []

abbrev offer : Quote
offer = record {
  id = 1;
  customer = regular;
  user = 7;
  status = draft_status;
  valid_until = 2000;
  subtotal = pos 1500;
  discount_total = pos 150;
  total = pos 1350;
  sale = none;
  details =
      record {
        variant_id = 1;
        quantity = pos 300;
        unit_price = pos 500;
        discount_amount = pos 150;
        subtotal = pos 1350;
      }
      ∷ [];
}

abbrev offered_log : List AuditLog
offered_log = record { user = 7; action = Action.quote_created; entity_id = 1 } ∷ []

abbrev offered : Desk
offered = record { db = record shop { audit_log = offered_log }; quotes = offer ∷ [] }

quote_loaves :
    create_quote env regular cashier lines 2000 none none (record { db = shop; quotes = [] })
    ≡ ok (offer, offered)
unfolding create_quote quote_lines authorize_quote ◌>>=◌ resolve_unit_price resolve_active_promotion
    resolve_promotion_discount round2 exceeds_discount_limit discount_percent ◌+ℤ◌ ◌-ℤ◌ ◌*ℤ◌
quote_loaves = refl

-- Bread now costs 7.00, and there are no promotions.
abbrev dearer : Db
dearer = record shop {
  variants = record bread { price = pos 700 } ∷ cheese ∷ [];
  promotions = [];
  audit_log = offered_log;
}

abbrev desk : Desk
desk = record { db = dearer; quotes = marked accepted offer ∷ [] }

abbrev sold_desk : Desk
sold_desk = record {
  db = record after {
    variants = dearer.variants;
    promotions = [];
    audit_log =
        record { user = 7; action = Action.quote_converted; entity_id = 1 }
        ∷ record { user = 7; action = Action.sale_created; entity_id = 3 }
        ∷ offered_log;
  };
  quotes = sold_by 3 (marked accepted offer) ∷ [];
}

sell_loaves :
    sell_quote env (marked accepted offer) session cashier (cash (pos 1350) ∷ []) desk
    ≡ ok (made, sold_desk)
unfolding sell_quote create_sale write_sale record_lines record_payments record_payment
    check_payments prepare_lines prepare_line authorize_discount adjust_stock get_or_create
    assert_can_sell ◌>>=◌ resolve_unit_price resolve_active_promotion resolve_promotion_discount
    round2 exceeds_discount_limit discount_percent consume check_permission get_permission_codes
    resolve_codes closure ◌+ℤ◌ ◌-ℤ◌ ◌*ℤ◌
sell_loaves = refl

covered : ltb_ℤ (line_amount (pos 500) (pos 300)) (pos 150) ≡ false
unfolding round2 ◌*ℤ◌
covered = refl

sell_quote-create_quote_example :
    (made.subtotal ≡ offer.subtotal)
    × (made.discount_total ≡ offer.discount_total)
    × (made.total ≡ offer.total)
    × (payments_total (cash (pos 1350) ∷ []) ≡ offer.total)
sell_quote-create_quote_example =
    sell_quote-create_quote env env regular cashier cashier lines 2000 none none session
      (cash (pos 1350) ∷ []) (record { db = shop; quotes = [] }) desk quote_loaves (covered, tt)
      sell_loaves
