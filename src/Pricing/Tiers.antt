-- ===== src/Pricing/Tiers.antt =====
-- The price of a line is that of the highest tier that the quantity reaches.
use fivuza_backend.Prelude.{
  ℕ, ◌≡◌, refl, ℤ, ◌≤ℤ◌, ltb_ℤ, Bool, true, false, ◌⊎◌, inl, inr, Option, none, some, List, [], ◌∷◌,
  All, In, select, Bool-cases, if◌then◌else◌, arith, int_laws,
}
use fivuza_backend.Model.{Db}
use fivuza_backend.Model.Inventory.{ProductVariant, VolumePricingTier}
use fivuza_backend.Pricing.{covers, highest, higher, price_of, resolve_unit_price}

-- The tier is of the table, is reached, and no reached tier of the table is above it.
abbrev pub IsBest : ℕ → ℤ → VolumePricingTier → List VolumePricingTier → Type 0
IsBest v q t table =
    In t table
    × (covers v q t ≡ true)
    × All (λ u. covers v q u ≡ true → u.min_quantity ≤ℤ t.min_quantity) table

-- What the search finds in a table.
abbrev pub Found : ℕ → ℤ → List VolumePricingTier → Option VolumePricingTier → Type 0
Found v q table none = All (λ u. covers v q u ≡ false) table
Found v q table (some t) = IsBest v q t table

below_less :
    (v : ℕ) (q : ℤ) (t u : VolumePricingTier) (table : List VolumePricingTier)
    → t.min_quantity ≤ℤ u.min_quantity
    → All (λ w. covers v q w ≡ true → w.min_quantity ≤ℤ t.min_quantity) table
    → All (λ w. covers v q w ≡ true → w.min_quantity ≤ℤ u.min_quantity) table
below_less v q t u [] le h = tt
below_less v q t u (w ∷ table) le (h, hs) =
    (λ e. let le' = h e in omega int_laws, below_less v q t u table le hs)

below_none :
    (v : ℕ) (q : ℤ) (t : VolumePricingTier) (table : List VolumePricingTier)
    → All (λ w. covers v q w ≡ false) table
    → All (λ w. covers v q w ≡ true → w.min_quantity ≤ℤ t.min_quantity) table
below_none v q t [] h = tt
below_none v q t (w ∷ table) (h, hs) = (λ e. cc, below_none v q t table hs)

the_higher :
    (v : ℕ) (q : ℤ) (t u : VolumePricingTier) (table : List VolumePricingTier) (b : Bool)
    → ltb_ℤ t.min_quantity u.min_quantity ≡ b
    → covers v q t ≡ true
    → IsBest v q u table
    → IsBest v q (if b then u else t) (t ∷ table)
the_higher v q t u table true lt e (m, eu, hs) = (inr m, eu, (λ _. ground arith, hs))
the_higher v q t u table false ge e (m, eu, hs) =
    (inl refl, e, (λ _. omega int_laws, below_less v q u t table (ground arith) hs))

add_reached :
    (v : ℕ) (q : ℤ) (t : VolumePricingTier) (table : List VolumePricingTier)
    (o : Option VolumePricingTier)
    → covers v q t ≡ true
    → Found v q table o
    → IsBest v q (higher t o) (t ∷ table)
add_reached v q t table none e h = (inl refl, e, (λ _. omega int_laws, below_none v q t table h))
add_reached v q t table (some u) e h = the_higher v q t u table _ refl e h

add_missed :
    (v : ℕ) (q : ℤ) (t : VolumePricingTier) (table : List VolumePricingTier)
    (o : Option VolumePricingTier)
    → covers v q t ≡ false
    → Found v q table o
    → Found v q (t ∷ table) o
add_missed v q t table none e h = (e, h)
add_missed v q t table (some u) e (m, eu, hs) = (inr m, eu, (λ e'. cc, hs))

highest-Found :
    (v : ℕ) (q : ℤ) (table : List VolumePricingTier)
    → Found v q table (highest (select (covers v q) table))
highest-Found v q [] = tt
highest-Found v q (t ∷ table) = elim (Bool-cases (covers v q t)) [
  | inl e ↦ rw e (add_reached v q t table _ e (highest-Found v q table))
  | inr e ↦ rw e (add_missed v q t table _ e (highest-Found v q table))
]

price_of-Found :
    (v : ℕ) (q price : ℤ) (table : List VolumePricingTier) (o : Option VolumePricingTier)
    → Found v q table o
    → ((t : VolumePricingTier) × IsBest v q t table × (price_of o price ≡ t.unit_price))
      ⊎ (All (λ u. covers v q u ≡ false) table × (price_of o price ≡ price))
price_of-Found v q price table none h = inr (h, refl)
price_of-Found v q price table (some t) h = inl (t, h, refl)

-- The unit price is that of a tier of the variant that the quantity reaches and that no other
-- reached tier is above, or the catalogue's price when the quantity reaches no tier.
pub resolve_unit_price-IsBest :
    (v : ProductVariant) (q : ℤ) (db : Db)
    → ((t : VolumePricingTier) × IsBest v.id q t db.pricing_tiers
        × (resolve_unit_price v q db ≡ t.unit_price))
      ⊎ (All (λ u. covers v.id q u ≡ false) db.pricing_tiers
          × (resolve_unit_price v q db ≡ v.price))
unfolding resolve_unit_price
resolve_unit_price-IsBest v q db =
    price_of-Found v.id q v.price db.pricing_tiers _ (highest-Found v.id q db.pricing_tiers)
