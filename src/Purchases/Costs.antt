-- ===== src/Purchases/Costs.antt =====
-- The average cost stays between what there was and what came.
use fivuza_backend.Prelude.{
  ℕ, ◌+◌, ◌*◌, ◌≤◌, ◌<◌, ◌≡◌, refl, ap, ◌∙◌, ℤ, pos, negsuc, ◌+ℤ◌, ◌*ℤ◌, ◌≤ℤ◌, ◌<ℤ◌, leb_ℤ, eqb_ℤ,
  false, Bool-cases, inl, inr, if◌then◌else◌, some, first, first-update_where, ==-self, arith,
  int_laws,
}
use fivuza_backend.Model.{Db}
use fivuza_backend.Model.Inventory.{ProductVariant}
use fivuza_backend.Decimals.{half_up, round2}
use fivuza_backend.Decimals.Rounding.{half_up_mono, half_up_exact}
use fivuza_backend.Purchases.{
  total_quantity, average_cost, with_key, with_cost, update_weighted_average_cost,
}

sum_of : (c b t : ℕ) → pos c *ℤ pos b +ℤ pos 100 *ℤ pos t ≡ pos (c * b + 100 * t)
unfolding ◌*ℤ◌ ◌+ℤ◌
sum_of c b t = grind arith

total_of : (b q : ℕ) → pos b +ℤ pos q ≡ pos (b + q)
unfolding ◌+ℤ◌
total_of b q = ground arith

average_pos :
    (c b t q : ℕ)
    → average_cost (pos c) (pos b) (pos t) (pos b +ℤ pos q)
      ≡ pos (half_up (c * b + 100 * t) (b + q))
unfolding round2
average_pos c b t q = rw (total_of b q, sum_of c b t) refl

-- All amounts as numbers.
between :
    (lo hi c b t q : ℕ)
    → (lo ≤ c) × (c ≤ hi)
    → 1 ≤ q
    → (lo * q ≤ 100 * t) × (100 * t ≤ hi * q)
    → (lo ≤ half_up (c * b + 100 * t) (b + q)) × (half_up (c * b + 100 * t) (b + q) ≤ hi)
between lo hi c b t q (a, a') some_ (p, p') =
    let low : lo * (b + q) ≤ c * b + 100 * t = grind arith in
    let high : c * b + 100 * t ≤ hi * (b + q) = grind arith in
    let d = b + q in
    let positive : 0 < d = omega arith in
    (
      omega (arith, half_up_exact lo d positive, half_up_mono _ _ d positive low),
      omega (arith, half_up_exact hi d positive, half_up_mono _ _ d positive high),
    )

product : (a b : ℕ) → pos a *ℤ pos b ≡ pos (a * b)
unfolding ◌*ℤ◌
product a b = grind arith

paid_pos :
    (lo hi t q : ℕ)
    → (pos lo *ℤ pos q ≤ℤ pos 100 *ℤ pos t) × (pos 100 *ℤ pos t ≤ℤ pos hi *ℤ pos q)
    → (lo * q ≤ 100 * t) × (100 * t ≤ hi * q)
paid_pos lo hi t q (p, p') = (
  omega (arith, rw (product lo q, product 100 t) at p),
  omega (arith, rw (product hi q, product 100 t) at p'),
)

paid_less : (lo q t : ℕ) → pos lo *ℤ pos q ≤ℤ pos 100 *ℤ negsuc t → ⊥
unfolding ◌*ℤ◌
paid_less lo q t p = grind arith

-- The same of integers that are not negative.
average_cost-between :
    (lo hi : ℕ) (cost before total q : ℤ)
    → (pos lo ≤ℤ cost) × (cost ≤ℤ pos hi)
    → pos 0 ≤ℤ before
    → pos 0 <ℤ q
    → (pos lo *ℤ q ≤ℤ pos 100 *ℤ total) × (pos 100 *ℤ total ≤ℤ pos hi *ℤ q)
    → (pos lo ≤ℤ average_cost cost before total (before +ℤ q))
      × (average_cost cost before total (before +ℤ q) ≤ℤ pos hi)
average_cost-between lo hi (pos c) (pos b) (pos t) (pos q) cost_in b_in q_in paid =
    let (low, high) =
      between lo hi c b t q (omega (arith, cost_in), omega (arith, cost_in)) (omega (arith, q_in))
        (paid_pos lo hi t q paid) in
    rw (average_pos c b t q) (omega (arith, low), omega (arith, high))
average_cost-between lo hi (negsuc c) before total q cost_in b_in q_in paid =
    absurd (omega (arith, cost_in))
average_cost-between lo hi (pos c) (negsuc b) total q cost_in b_in q_in paid =
    absurd (omega (arith, b_in))
average_cost-between lo hi (pos c) (pos b) total (negsuc q) cost_in b_in q_in paid =
    absurd (omega (arith, q_in))
average_cost-between lo hi (pos c) (pos b) (negsuc t) (pos q) cost_in b_in q_in paid =
    absurd (paid_less lo q t paid.0)

-- When a line comes in, the cost of its variant stays between any two bounds that hold of the old
-- cost and of what was paid for each unit, in hundredths: lo * quantity ≤ total * 100 ≤ hi *
-- quantity. The stock before was not negative, and the line is of more than nothing. The row that is
-- written is the variant's, with nothing but its cost changed.
pub update_weighted_average_cost-between :
    (lo hi : ℕ) (v : ProductVariant) (q total : ℤ) (user : ℕ) (db : Db)
    → first (with_key v.id) db.variants ≡ some v
    → (pos lo ≤ℤ v.cost) × (v.cost ≤ℤ pos hi)
    → pos 0 ≤ℤ total_quantity v.id db.stocks
    → pos 0 <ℤ q
    → (pos lo *ℤ q ≤ℤ pos 100 *ℤ total) × (pos 100 *ℤ total ≤ℤ pos hi *ℤ q)
    → (cost : ℤ) × (first (with_key v.id) (update_weighted_average_cost v q total user db).variants
        ≡ some (with_cost cost v))
      × (pos lo ≤ℤ cost)
      × (cost ≤ℤ pos hi)
unfolding update_weighted_average_cost
update_weighted_average_cost-between lo hi v q total user db row old before_in q_in paid =
    let before = total_quantity v.id db.stocks in
    let new = average_cost v.cost before total (before +ℤ q) in
    let (low, high) = average_cost-between lo hi v.cost before total q old before_in q_in paid in
    rw (is_some_stock before q before_in q_in) (elim (Bool-cases (eqb_ℤ new v.cost)) [
      | inl same ↦ rw same (v.cost, row, old.0, old.1)
      | inr other ↦ rw other (
        new,
        first-update_where (with_key v.id) (with_key v.id) (with_cost new) (λ x. refl) db.variants v
              row
            ∙ ap (λ b. some (if b then with_cost new v else v)) (==-self v.id),
        low,
        high,
      )
    ])
  where
    is_some_stock : (b q : ℤ) → pos 0 ≤ℤ b → pos 0 <ℤ q → leb_ℤ (b +ℤ q) (pos 0) ≡ false
    is_some_stock b q h k =
        let more : pos 0 <ℤ (b +ℤ q) = omega (int_laws, h, k) in ground (arith, more)
