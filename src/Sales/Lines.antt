-- ===== src/Sales/Lines.antt =====
-- The first loop of `create_sale`: each line is looked up, priced and discounted.
use fivuza_backend.Prelude.{
  ℕ, ℤ, pos, ◌+ℤ◌, ◌-ℤ◌, ◌*ℤ◌, ltb_ℤ, Bool, not, ◌&&◌, Option, none, some, List, [], ◌∷◌, ◌++◌,
  ◌==◌, if◌then◌else◌, first,
}
use fivuza_backend.Result.{
  Result, ok, err, ◌>>=◌, ◌>>◌, raise_if, invalid_request, insufficient_stock,
}
use fivuza_backend.Model.{Db}
use fivuza_backend.Model.Inventory.{ProductVariant}
use fivuza_backend.Decimals.{round2}
use fivuza_backend.Inventory.{quantity_in}
use fivuza_backend.Pricing.{resolve_unit_price, resolve_promotion_discount, discount_percent}

-- A decimal of a request, which may have more than two places: hundredths over a positive number.
pub record Given : Type 0 where
  pub hundredths : ℤ
  pub over : ℕ

abbrev pub rounded : Given → ℤ
rounded x = round2 x.hundredths x.over

pub record SaleLine : Type 0 where
  pub variant_id : ℕ
  pub quantity : Given
  pub unit_price : Option Given
  pub discount_amount : Option Given

pub record PreparedLine : Type 0 where
  pub variant : ProductVariant
  pub quantity : ℤ
  pub unit_price : ℤ
  pub discount_amount : ℤ
  pub subtotal : ℤ
  pub current_quantity : ℤ
  pub oversold : Bool

-- The variables that the loop adds to.
pub record Cart : Type 0 where
  pub subtotal : ℤ
  pub discount_total : ℤ
  pub manual_discount_percent : Option ℤ
  pub prepared_lines : List PreparedLine
  pub oversold_variant_ids : List ℕ

abbrev pub empty_cart : Cart
empty_cart = record {
  subtotal = pos 0;
  discount_total = pos 0;
  manual_discount_percent = none;
  prepared_lines = [];
  oversold_variant_ids = [];
}

abbrev pub is_variant : ℕ → ProductVariant → Bool
is_variant i v = v.id == i

abbrev pub found_variant : Option ProductVariant → Result ProductVariant
found_variant (some v) = ok v
found_variant none = err invalid_request

-- A price of the line goes before the catalogue's.
abbrev pub line_price : Option Given → ProductVariant → ℤ → Db → ℤ
line_price (some price) v quantity db = rounded price
line_price none v quantity db = resolve_unit_price v quantity db

-- `round2(min(discount_amount, line_subtotal))`
abbrev pub capped : Given → ℤ → ℤ
capped d line_subtotal =
    if ltb_ℤ (line_subtotal *ℤ pos d.over) d.hundredths then round2 line_subtotal 1 else rounded d

-- A manual discount goes before the promotion's.
abbrev pub line_discount : Option Given → ProductVariant → ℤ → ℤ → ℤ → ℕ → Db → ℤ
line_discount (some d) v quantity unit_price line_subtotal at_time db = capped d line_subtotal
line_discount none v quantity unit_price line_subtotal at_time db =
    resolve_promotion_discount v quantity unit_price at_time db

-- The line, and its amount before the discount.
unfoldable pub prepare_line : ℕ → Bool → ℕ → Db → SaleLine → Result (PreparedLine × ℤ)
prepare_line warehouse allow_oversell at_time db line = do
  variant ← found_variant (first (is_variant line.variant_id) db.variants)
  let quantity = rounded line.quantity
  let current = quantity_in db.stocks variant.id warehouse
  let oversold = ltb_ℤ current quantity
  raise_if (oversold && not allow_oversell) insufficient_stock
  let unit_price = line_price line.unit_price variant quantity db
  let line_subtotal = round2 (unit_price *ℤ quantity) 100
  let discount =
      line_discount line.discount_amount variant quantity unit_price line_subtotal at_time db
  ok (
    record {
      variant = variant;
      quantity = quantity;
      unit_price = unit_price;
      discount_amount = discount;
      subtotal = line_subtotal -ℤ discount;
      current_quantity = current;
      oversold = oversold;
    },
    line_subtotal,
  )

-- The highest percentage of the manual discounts.
abbrev pub higher_percent : Option ℤ → ℤ → Option ℤ
higher_percent none percent = some percent
higher_percent (some highest) percent = if ltb_ℤ highest percent then some percent else some highest

abbrev pub manual_percent : Option Given → ℤ → ℤ → Option ℤ → Option ℤ
manual_percent none discount line_subtotal highest = highest
manual_percent (some _) discount line_subtotal highest =
    higher_percent highest (discount_percent discount line_subtotal)

abbrev pub add_line : SaleLine → PreparedLine → ℤ → Cart → Cart
add_line line p line_subtotal cart = record {
  subtotal = cart.subtotal +ℤ line_subtotal;
  discount_total = cart.discount_total +ℤ p.discount_amount;
  manual_discount_percent =
      manual_percent line.discount_amount p.discount_amount line_subtotal
        cart.manual_discount_percent;
  prepared_lines = cart.prepared_lines ++ (p ∷ []);
  oversold_variant_ids =
      if p.oversold
      then cart.oversold_variant_ids ++ (p.variant.id ∷ [])
      else cart.oversold_variant_ids;
}

unfoldable pub prepare_lines : ℕ → Bool → ℕ → Db → List SaleLine → Cart → Result Cart
prepare_lines warehouse allow_oversell at_time db [] cart = ok cart
prepare_lines warehouse allow_oversell at_time db (line ∷ lines) cart = do
  (p, line_subtotal) ← prepare_line warehouse allow_oversell at_time db line
  prepare_lines warehouse allow_oversell at_time db lines (add_line line p line_subtotal cart)
