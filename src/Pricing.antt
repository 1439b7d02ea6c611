-- ===== src/Pricing.antt =====
-- Prices and discounts of a sale line: the helpers of SaleService in ventas/services/sales.py and
-- ventas/services/promotions.py.
mod Tests
pub mod Tiers
pub mod Discounts
pub mod PromotionIndex
use fivuza_backend.Prelude.{
  ℕ, ◌+◌, ◌-◌, ◌*◌, ◌/◌, suc, ℤ, pos, negsuc, pos_part, ◌-ℤ◌, ◌*ℤ◌, ltb_ℤ, leb_ℤ, min_ℤ, Bool, true,
  false, ◌&&◌, ◌||◌, Option, none, some, List, [], ◌∷◌, ◌==◌, leb, if◌then◌else◌, any, select,
  first,
}
use fivuza_backend.Model.{Db}
use fivuza_backend.Model.Inventory.{ProductVariant, VolumePricingTier}
use fivuza_backend.Model.Users.{Code, User}
use fivuza_backend.Model.Sales.{
  Promotion, PromotionProduct, PromotionType, percentage, fixed_amount,
}
use fivuza_backend.Decimals.{round2}
use fivuza_backend.Permissions.{check_permission}

-- `filter(variant=variant, min_quantity__lte=quantity)`
abbrev pub covers : ℕ → ℤ → VolumePricingTier → Bool
covers v quantity t = (t.variant == v) && leb_ℤ t.min_quantity quantity

abbrev pub higher : VolumePricingTier → Option VolumePricingTier → VolumePricingTier
higher t none = t
higher t (some u) = if ltb_ℤ t.min_quantity u.min_quantity then u else t

-- `order_by("-min_quantity").first()`
abbrev pub highest : List VolumePricingTier → Option VolumePricingTier
highest [] = none
highest (t ∷ ts) = some (higher t (highest ts))

abbrev pub price_of : Option VolumePricingTier → ℤ → ℤ
price_of (some t) price = t.unit_price
price_of none price = price

unfoldable pub resolve_unit_price : ProductVariant → ℤ → Db → ℤ
resolve_unit_price v quantity db =
    price_of (highest (select (covers v.id quantity) db.pricing_tiers)) v.price

-- `order_by("-id")`
abbrev pub insert_by_id : Promotion → List Promotion → List Promotion
insert_by_id p [] = p ∷ []
insert_by_id p (q ∷ qs) = if leb q.id p.id then p ∷ q ∷ qs else q ∷ insert_by_id p qs

abbrev pub newest_first : List Promotion → List Promotion
newest_first [] = []
newest_first (p ∷ ps) = insert_by_id p (newest_first ps)

-- `filter(is_active=True, start_date__lte=at, end_date__gte=at)`
abbrev pub is_active_at : ℕ → Promotion → Bool
is_active_at now p = p.is_active && leb p.start_date now && leb now p.end_date

abbrev pub is_key : Option ℕ → ℕ → Bool
is_key (some k) j = k == j
is_key none j = false

-- `targets__variant=variant` and `targets__category=category`
abbrev pub targets_variant : ℕ → Promotion → Bool
targets_variant v p = any (λ (t : PromotionProduct). is_key t.variant v) p.targets

abbrev pub targets_category : ℕ → Promotion → Bool
targets_category c p = any (λ (t : PromotionProduct). is_key t.category c) p.targets

abbrev pub active_promotions : ℕ → Db → List Promotion
active_promotions now db = select (is_active_at now) (newest_first db.promotions)

abbrev pub or_else : Option Promotion → Option Promotion → Option Promotion
or_else (some p) _ = some p
or_else none q = q

-- A promotion of the variant goes before one of its category; of several, the newest.
unfoldable pub resolve_active_promotion : ProductVariant → ℕ → Db → Option Promotion
resolve_active_promotion v now db =
    let active = active_promotions now db in
    or_else (first (targets_variant v.id) active) (first (targets_category v.category) active)

-- The two dictionaries of `build_active_promotion_index`, as functions of the key.
abbrev pub Index : Type 0
Index = ℕ → Option Promotion

-- `index.setdefault(key, promotion)`
abbrev pub setdefault : ℕ → Promotion → Index → Index
setdefault k p index j = if k == j then or_else (index j) (some p) else index j

abbrev pub index_target : Promotion → PromotionProduct → Index × Index → Index × Index
index_target p t (by_variant, by_category) = elim t.variant [
  | some v ↦ (setdefault v p by_variant, by_category)
  | none ↦ elim t.category [
    | some c ↦ (by_variant, setdefault c p by_category)
    | none ↦ (by_variant, by_category)
  ]
]

abbrev pub index_targets : Promotion → List PromotionProduct → Index × Index → Index × Index
index_targets p [] index = index
index_targets p (t ∷ ts) index = index_targets p ts (index_target p t index)

abbrev pub index_promotions : List Promotion → Index × Index → Index × Index
index_promotions [] index = index
index_promotions (p ∷ ps) index = index_promotions ps (index_targets p p.targets index)

unfoldable pub build_active_promotion_index : ℕ → Db → Index × Index
build_active_promotion_index now db =
    index_promotions (active_promotions now db) (λ _. none, λ _. none)

-- The look-up of the catalogue: `by_variant.get(variant.id) or by_category.get(category_id)`
abbrev pub indexed_promotion : Index × Index → ProductVariant → Option Promotion
indexed_promotion (by_variant, by_category) v = or_else (by_variant v.id) (by_category v.category)

-- The discount on a line by the kind of promotion. The percentage is of the rounded amount of the
-- line; a fixed amount is one for each unit.
abbrev pub discount_by : PromotionType → ℤ → ℤ → ℤ → ℤ
discount_by percentage value quantity line_subtotal = round2 (line_subtotal *ℤ value) 10000
discount_by fixed_amount value quantity line_subtotal =
    min_ℤ (round2 (value *ℤ quantity) 100) line_subtotal

abbrev pub promotion_discount : Option Promotion → ℤ → ℤ → ℤ
promotion_discount none quantity line_subtotal = pos 0
promotion_discount (some p) quantity line_subtotal =
    discount_by p.type p.value quantity line_subtotal

unfoldable pub resolve_promotion_discount : ProductVariant → ℤ → ℤ → ℕ → Db → ℤ
resolve_promotion_discount v quantity unit_price now db =
    promotion_discount (resolve_active_promotion v now db) quantity
      (round2 (unit_price *ℤ quantity) 100)

-- n / m, rounded up.
abbrev pub round_up : ℕ → ℕ → ℕ
round_up n m = (n + m - 1) / m

-- The percentage of the discount in hundredths, rounded away from zero.
unfoldable pub discount_percent : ℤ → ℤ → ℤ
discount_percent (pos d) line_subtotal =
    if leb_ℤ line_subtotal (pos 0)
    then pos 0
    else pos (round_up (d * 10000) (pos_part line_subtotal))
discount_percent (negsuc d) line_subtotal =
    if leb_ℤ line_subtotal (pos 0)
    then pos 0
    else pos 0 -ℤ pos (round_up (suc d * 10000) (pos_part line_subtotal))

abbrev pub beyond_role : Option ℤ → User → Db → Bool
beyond_role none user db = false
beyond_role (some percent) user db =
    if leb_ℤ percent (pos 0)
    then false
    else if check_permission user Code.sales_discount db
    then false
    else ltb_ℤ user.role.max_discount_percent percent

unfoldable pub exceeds_discount_limit : User → Option ℤ → Db → Bool
exceeds_discount_limit user percent db = beyond_role percent user db
