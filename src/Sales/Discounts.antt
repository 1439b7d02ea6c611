-- ===== src/Sales/Discounts.antt =====
-- A manual discount over the limit of the cashier's role needs the authorization of a supervisor.
use fivuza_backend.Prelude.{
  ℕ, ◌≡◌, refl, ℤ, Bool, true, false, ◌&&◌, Option, none, some, if◌then◌else◌, ◌⊎◌, inl, inr, first,
  List, [], ◌∷◌, In, All, pos, ◌≤ℤ◌, ltb_ℤ, leb_ℤ, Bool-cases, arith, int_laws,
}
use fivuza_backend.Result.{ok, ◌>>=◌, >>=-eq-ok, ok-injective}
use fivuza_backend.Model.{Db}
use fivuza_backend.Model.Users.{Code, User, SupervisorAuthorization}
use fivuza_backend.Model.Sales.{Sale}
use fivuza_backend.Authorization.{Env, consume, has_hash}
use fivuza_backend.Authorization.Tokens.{consume_sound, IsGood}
use fivuza_backend.Pricing.{exceeds_discount_limit}
use fivuza_backend.Sales.Lines.{Cart}
use fivuza_backend.Sales.Create.{
  SaleRequest, DiscountLimit, is_enforced, discount_over_limit, authorize_discount, create_sale,
  is_checked, given_or,
}
use fivuza_backend.Permissions.{check_permission}
use fivuza_backend.Sales.Highest.{manual_percents, IsHighest, cart-IsHighest}
use fivuza_backend.Sales.Outcome.{Accepted, create_sale-Accepted}

-- A token of the request that is good for this discount of this cashier.
abbrev pub HasToken : Env → SaleRequest → Option ℤ → Db → Type 0
HasToken env r percent db =
    (token : ℕ) × (b : SupervisorAuthorization) × (r.authorization_token ≡ some token)
    × (first (has_hash (env.hash token)) db.authorizations ≡ some b)
    × IsGood env r.user Code.sales_discount none percent b

-- Either nothing was asked for, or a good token was spent; no other table changes.
authorized_by :
    (b : Bool) (env : Env) (r : SaleRequest) (percent : Option ℤ) (db : Db) {db' : Db}
    → (if b
        then (consume env r.authorization_token r.user Code.sales_discount none percent db
            >>= λ spent. ok spent.1)
        else ok db)
      ≡ ok db'
    → ((b ≡ false) ⊎ HasToken env r percent db)
      × (db' ≡ record db { authorizations = db'.authorizations })
authorized_by true env r percent db h =
    let ((a, db₁), e₁, h₁) = >>=-eq-ok _ _ h in
    let (token, b, given, stored, good, _, e) =
      consume_sound env r.authorization_token r.user Code.sales_discount none percent db e₁ in
    (inr (token, b, given, stored, good), rw (← ok-injective h₁) (rw e refl))
authorized_by false env r percent db h = (inl refl, rw (← ok-injective h) refl)

pub authorize_discount-ok :
    (env : Env) (r : SaleRequest) (percent : Option ℤ) (db : Db) {db' : Db}
    → authorize_discount env r percent db ≡ ok db'
    → ((discount_over_limit r percent db && is_enforced r.discount_limit ≡ false)
        ⊎ HasToken env r percent db)
      × (db' ≡ record db { authorizations = db'.authorizations })
unfolding authorize_discount
authorize_discount-ok env r percent db h = authorized_by _ env r percent db h

limited :
    (limit : DiscountLimit) (b : Bool)
    → limit ≡ DiscountLimit.enforce
    → ((is_checked limit && b) && is_enforced limit) ≡ false
    → b ≡ false
limited limit true e h = rw e at h
limited limit false e h = refl

-- A percentage that the cashier may give: none, any with SALES_DISCOUNT, or up to that of the role.
abbrev pub IsAllowed : User → Db → ℤ → Type 0
IsAllowed user db percent =
    (percent ≤ℤ pos 0)
    ⊎ ((check_permission user Code.sales_discount db ≡ true)
        ⊎ (percent ≤ℤ user.role.max_discount_percent))

not-exceeds-IsAllowed :
    (user : User) (db : Db) (percent : ℤ)
    → exceeds_discount_limit user (some percent) db ≡ false
    → IsAllowed user db percent
unfolding exceeds_discount_limit
not-exceeds-IsAllowed user db percent h = elim (Bool-cases (leb_ℤ percent (pos 0))) [
  | inl e ↦ inl (ground (arith, e))
  | inr e ↦ elim (Bool-cases (check_permission user Code.sales_discount db)) [
    | inl f ↦ inr (inl f)
    | inr f ↦
        let small : ltb_ℤ user.role.max_discount_percent percent ≡ false = rw (e, f) at h in
        inr (inr (ground (arith, small)))
  ]
]

lower-IsAllowed :
    (user : User) (db : Db) (a b : ℤ) → a ≤ℤ b → IsAllowed user db b → IsAllowed user db a
lower-IsAllowed user db a b le (inl h) = inl (omega int_laws)
lower-IsAllowed user db a b le (inr (inl h)) = inr (inl h)
lower-IsAllowed user db a b le (inr (inr h)) = inr (inr (omega int_laws))

All-IsAllowed :
    (user : User) (db : Db) (highest : ℤ) (percents : List ℤ)
    → IsAllowed user db highest
    → All (λ x. x ≤ℤ highest) percents
    → All (IsAllowed user db) percents
All-IsAllowed user db highest [] h all = tt
All-IsAllowed user db highest (x ∷ xs) h (le, all) =
    (lower-IsAllowed user db x highest le h, All-IsAllowed user db highest xs h all)

-- A token for the highest of the percentages.
abbrev pub HasTokenFor : Env → SaleRequest → Db → List ℤ → Type 0
HasTokenFor env r db percents =
    (highest : ℤ) × In highest percents
    × All (λ x. x ≤ℤ highest) percents
    × HasToken env r (some highest) db

by_highest :
    (env : Env) (r : SaleRequest) (db : Db) (m : Option ℤ) (percents : List ℤ)
    → IsHighest m percents
    → (exceeds_discount_limit r.user m db ≡ false) ⊎ HasToken env r m db
    → All (IsAllowed r.user db) percents ⊎ HasTokenFor env r db percents
by_highest env r db none percents h asked = inl (rw h tt)
by_highest env r db (some highest) percents (there, all) (inl e) =
    inl (All-IsAllowed r.user db highest percents (not-exceeds-IsAllowed r.user db highest e) all)
by_highest env r db (some highest) percents (there, all) (inr token) =
    inr (highest, there, all, token)

-- When the limit is enforced, a sale is recorded only if its session is open and its user owns it, and
-- if each of the discounts that came with its lines is one that the user may give (zero, or with
-- SALES_DISCOUNT, or of a percentage up to the role's), or the request has a token that is good for the
-- highest of their percentages.
pub create_sale-HasToken :
    (env : Env) (r : SaleRequest) (db : Db) {sale : Sale} {n : ℕ} {db' : Db}
    → r.discount_limit ≡ DiscountLimit.enforce
    → create_sale env r db ≡ ok (sale, n, db')
    → (cart : Cart) × Accepted env r db cart
      × (All (IsAllowed r.user db) (manual_percents r.lines cart.prepared_lines)
          ⊎ HasTokenFor env r db (manual_percents r.lines cart.prepared_lines))
create_sale-HasToken env r db enforced h =
    let (cart, a, w) = create_sale-Accepted env r db h in
    let (asked, _) = authorize_discount-ok env r cart.manual_discount_percent db w.authorized in
    (
      cart,
      a,
      by_highest env r db cart.manual_discount_percent (manual_percents r.lines cart.prepared_lines)
          (cart-IsHighest r.cash_session.cash_register.warehouse r.allow_oversell
            (given_or r.at_time env.now) db r.lines a.prepared)
          (elim asked [ inl e ↦ inl (limited r.discount_limit _ enforced e) | inr t ↦ inr t ]),
    )
