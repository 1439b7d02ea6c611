-- ===== src/Authorization/Tests.antt =====
-- A supervisor's token is spent on the sale that it names.
use fivuza_backend.Prelude.{ℕ, ◌≡◌, refl, none, some, first, update_where}
use fivuza_backend.Result.{err, ◌>>=◌, supervisor_authorization_invalid}
use fivuza_backend.Model.{Db}
use fivuza_backend.Model.Users.{Code, SupervisorAuthorization}
use fivuza_backend.Authorization.{consume, spend, has_hash, has_authorization_id}
use fivuza_backend.Authorization.Tokens.{IsGood, consume_sound, consume_once}
use fivuza_backend.Samples.{shop, cashier, env, token}

abbrev spent : Db
spent = record shop {
  authorizations = update_where (has_authorization_id 1) (spend 1000) shop.authorizations;
}

consume_sound_example :
    (t : ℕ) × (b : SupervisorAuthorization) × (some 99 ≡ some t)
    × (first (has_hash t) shop.authorizations ≡ some b)
    × IsGood env cashier Code.sales_void (some 1) none b
    × (spend 1000 token ≡ spend 1000 b)
    × (spent ≡ record shop {
      authorizations = update_where (has_authorization_id b.id) (spend 1000) shop.authorizations;
    })
unfolding consume ◌>>=◌
consume_sound_example = consume_sound env (some 99) cashier Code.sales_void (some 1) none shop refl

consume_once_example :
    consume env (some 99) cashier Code.sales_void (some 1) none spent
    ≡ err supervisor_authorization_invalid
unfolding consume ◌>>=◌
consume_once_example =
    consume_once env env (some 99) cashier cashier Code.sales_void Code.sales_void (some 1) (some 1)
      none none shop refl refl

other_sale :
    consume env (some 99) cashier Code.sales_void (some 2) none shop
    ≡ err supervisor_authorization_invalid
unfolding consume ◌>>=◌
other_sale = refl
