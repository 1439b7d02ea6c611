-- ===== src/Sales/Highest.antt =====
-- The percentage that is compared with the limit is the highest of the manual discounts.
use fivuza_backend.Prelude.{
  ℕ, ◌≡◌, refl, ap, ◌∙◌, ℤ, ◌*ℤ◌, ◌≤ℤ◌, ltb_ℤ, Bool, Option, none, some, List, [], ◌∷◌, ◌++◌, In,
  In-append, In-last, All, All-append, append_nil, append_one, Bool-cases, inl, inr, int_laws,
  arith,
}
use fivuza_backend.Result.{ok, >>=-eq-ok, ok-injective}
use fivuza_backend.Model.{Db}
use fivuza_backend.Decimals.{round2}
use fivuza_backend.Pricing.{discount_percent}
use fivuza_backend.Sales.Lines.{
  SaleLine, Given, PreparedLine, Cart, empty_cart, add_line, higher_percent, manual_percent,
  prepare_line, prepare_lines,
}

-- The percentage of the discount of a line, and those of the lines that came with a discount.
abbrev pub percent_of : PreparedLine → ℤ
percent_of p = discount_percent p.discount_amount (round2 (p.unit_price *ℤ p.quantity) 100)

abbrev pub with_manual : Option Given → ℤ → List ℤ → List ℤ
with_manual none percent percents = percents
with_manual (some _) percent percents = percent ∷ percents

abbrev pub manual_percents : List SaleLine → List PreparedLine → List ℤ
manual_percents (line ∷ lines) (p ∷ ps) =
    with_manual line.discount_amount (percent_of p) (manual_percents lines ps)
manual_percents [] _ = []
manual_percents (_ ∷ _) [] = []

abbrev pub IsHighest : Option ℤ → List ℤ → Type 0
IsHighest none percents = percents ≡ []
IsHighest (some highest) percents = In highest percents × All (λ x. x ≤ℤ highest) percents

All-higher : (a b : ℤ) (xs : List ℤ) → a ≤ℤ b → All (λ x. x ≤ℤ a) xs → All (λ x. x ≤ℤ b) xs
All-higher a b [] le h = tt
All-higher a b (x ∷ xs) le (h, hs) = (omega int_laws, All-higher a b xs le hs)

higher_percent-IsHighest :
    (m : Option ℤ) (x : ℤ) (xs : List ℤ)
    → IsHighest m xs
    → IsHighest (higher_percent m x) (xs ++ (x ∷ []))
higher_percent-IsHighest none x xs h = rw h (inl refl, (omega int_laws, tt))
higher_percent-IsHighest (some a) x xs (there, all) = elim (Bool-cases (ltb_ℤ a x)) [
  | inl e ↦
      let le : a ≤ℤ x = ground (arith, e) in
      rw e (
        In-last x xs,
        All-append (λ y. y ≤ℤ x) xs (x ∷ []) (All-higher a x xs le all) (omega int_laws, tt),
      )
  | inr e ↦
      let le : x ≤ℤ a = ground (arith, e) in
      rw e (In-append a xs (x ∷ []) there, All-append (λ y. y ≤ℤ a) xs (x ∷ []) all (le, tt))
]

prepare_line-amount :
    (w : ℕ) (allow : Bool) (at_time : ℕ) (db : Db) (line : SaleLine) {p : PreparedLine} {s : ℤ}
    → prepare_line w allow at_time db line ≡ ok (p, s)
    → s ≡ round2 (p.unit_price *ℤ p.quantity) 100
unfolding prepare_line
prepare_line-amount w allow at_time db line h =
    let (v, e₁, h₁) = >>=-eq-ok _ _ h in
    let (_, _, h₂) = >>=-eq-ok _ _ h₁ in
    rw (← ap (λ r. r.0) (ok-injective h₂), ← ap (λ r. r.1) (ok-injective h₂)) refl

-- The percentages of one line more, first or last.
with_manual-one :
    (given : Option Given) (m : Option ℤ) (d s : ℤ) (xs : List ℤ)
    → IsHighest m xs
    → (zs : List ℤ) × IsHighest (manual_percent given d s m) zs
      × ((ys : List ℤ) → zs ++ ys ≡ xs ++ with_manual given (discount_percent d s) ys)
with_manual-one none m d s xs h = (xs, h, λ ys. refl)
with_manual-one (some _) m d s xs h = (
  xs ++ (discount_percent d s ∷ []),
  higher_percent-IsHighest m (discount_percent d s) xs h,
  λ ys. append_one xs ys (discount_percent d s),
)

prepare_lines-IsHighest :
    (w : ℕ) (allow : Bool) (at_time : ℕ) (db : Db) (lines : List SaleLine) (cart : Cart)
    (xs : List ℤ) {cart' : Cart}
    → IsHighest cart.manual_discount_percent xs
    → prepare_lines w allow at_time db lines cart ≡ ok cart'
    → (ps : List PreparedLine) × (cart'.prepared_lines ≡ cart.prepared_lines ++ ps)
      × IsHighest cart'.manual_discount_percent (xs ++ manual_percents lines ps)
unfolding prepare_lines
prepare_lines-IsHighest w allow at_time db [] cart xs highest h = (
  [],
  rw (← ok-injective h) (append_nil cart.prepared_lines),
  rw (← ok-injective h, ← append_nil xs) highest,
)
prepare_lines-IsHighest w allow at_time db (line ∷ lines) cart xs highest h =
    let ((p, s), e₁, h₁) = >>=-eq-ok _ _ h in
    let amount = prepare_line-amount w allow at_time db line e₁ in
    let (zs, up, same) =
      with_manual-one line.discount_amount cart.manual_discount_percent p.discount_amount s xs
        highest in
    let (ps, e, above) =
      prepare_lines-IsHighest w allow at_time db lines (add_line line p s cart) zs up h₁ in
    let rest = manual_percents lines ps in
    let moved =
      same rest
      ∙ ap (λ q. xs ++ with_manual line.discount_amount (discount_percent p.discount_amount q) rest)
          amount in
    (p ∷ ps, e ∙ append_one cart.prepared_lines ps p, rw (← moved) above)

-- Of the whole cart.
pub cart-IsHighest :
    (w : ℕ) (allow : Bool) (at_time : ℕ) (db : Db) (lines : List SaleLine) {cart : Cart}
    → prepare_lines w allow at_time db lines empty_cart ≡ ok cart
    → IsHighest cart.manual_discount_percent (manual_percents lines cart.prepared_lines)
cart-IsHighest w allow at_time db lines h =
    let (ps, e, highest) = prepare_lines-IsHighest w allow at_time db lines empty_cart [] refl h in
    rw e highest
