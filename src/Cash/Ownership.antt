-- ===== src/Cash/Ownership.antt =====
-- Who may sell, and who may close.
use fivuza_backend.Prelude.{
  ◌≡◌, refl, ◌↔◌, Bool, true, false, ◌==◌, arith, ◌⊎◌, inl, inr, if◌then◌else◌, not,
}
use fivuza_backend.Result.{ok, err, raise_if, cash_session_not_owned}
use fivuza_backend.Model.{Db}
use fivuza_backend.Model.Users.{User}
use fivuza_backend.Model.Sales.{CashSession}
use fivuza_backend.Cash.{sellable_by, assert_can_sell, assert_can_close, has_cash_close, owner_id}

pub sellable_by-owner_id :
    (user : User) (s : CashSession) → sellable_by user s ≡ (owner_id s == user.id)
sellable_by-owner_id user s = ground arith

raise_if_iff : (b : Bool) → (b ≡ true) ↔ (raise_if (not b) cash_session_not_owned ≡ ok tt)
raise_if_iff true = (λ _. refl, λ _. refl)
raise_if_iff false = (λ e. cc, λ e. cc)

close_iff :
    (own supervisor : Bool)
    → ((if own then ok tt else if supervisor then ok tt else err cash_session_not_owned)
        ≡ ok (tt {0}))
      ↔ ((raise_if (not own) cash_session_not_owned ≡ ok tt) ⊎ (supervisor ≡ true))
close_iff true supervisor = (λ _. inl refl, λ _. refl)
close_iff false true = (λ _. inr refl, λ _. refl)
close_iff false false = (λ e. cc, elim [ inl e ↦ cc | inr e ↦ cc ])

-- The filter that the till offers sessions by accepts exactly those that a sale is accepted in.
sellable_by_iff :
    (user : User) (s : CashSession) → (sellable_by user s ≡ true) ↔ (assert_can_sell s user ≡ ok tt)
unfolding assert_can_sell
sellable_by_iff user s = rw (sellable_by-owner_id user s) (raise_if_iff (owner_id s == user.id))

-- A shift may be closed by who may sell in it, and by whoever has CASH_CLOSE, and by nobody else;
-- CASH_CLOSE lets nobody sell.
assert_can_close_iff :
    (user : User) (s : CashSession) (db : Db)
    → (assert_can_close s user db ≡ ok tt)
      ↔ ((assert_can_sell s user ≡ ok tt) ⊎ (has_cash_close user db ≡ true))
unfolding assert_can_sell assert_can_close
assert_can_close_iff user s db = close_iff (owner_id s == user.id) (has_cash_close user db)
