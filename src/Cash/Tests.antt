-- ===== src/Cash/Tests.antt =====
-- A shift from its opening to its close.
use fivuza_backend.Prelude.{
  ◌≤◌, ◌≡◌, refl, ◌||◌, ◌⊎◌, ℕ, ◌==◌, first, if◌then◌else◌, ℤ, pos, ◌-ℤ◌, ◌+ℤ◌, true, none, some,
  [], ◌∷◌, arith,
}
use fivuza_backend.Result.{Result, ok, err, ◌>>=◌, cash_session_already_open}
use fivuza_backend.Model.{Db}
use fivuza_backend.Model.Users.{Code}
use fivuza_backend.Permissions.{check_permission}
use fivuza_backend.Model.Sales.{CashSession, SessionStatus, outflow, retiro}
use fivuza_backend.Cash.{
  is_open, is_pending_approval, has_session_id, sellable_by, assert_can_open, assert_can_close,
  open_session, submit_count, close_session, add_movement, calculate_expected_closing_amount,
  counted, closed_with,
}
use fivuza_backend.Cash.OpenSessions.{open_count, submits, here, next, Reach-one_open}
use fivuza_backend.Cash.Closing.{add_movement-expected, close_session_ends}
use fivuza_backend.Cash.Till.{in_till}
use fivuza_backend.Samples.{shop, session, register, cashier, supervisor, env}

after : {A : Type 0} → Result (A × Db) → Db
after (ok (_, db)) = db
after (err _) = shop

second_session : open_session register supervisor (pos 0) shop ≡ err cash_session_already_open
unfolding open_session assert_can_open ◌>>=◌
second_session = refl

abbrev counted_shop : Db
counted_shop = after (submit_count env session (pos 9500) cashier shop)

Reach-one_open_example : open_count 1 counted_shop ≤ 1
unfolding submit_count assert_can_close ◌>>=◌ after
Reach-one_open_example =
    Reach-one_open 1 {db = shop} {db' = counted_shop} (omega arith)
      (next here (submits env session (counted (pos 9500) 1000 session) (pos 9500) cashier refl))

abbrev withdrawn : Db
withdrawn = record shop {
  cash_movements =
      record { cash_session = 1; type = outflow; concept = retiro; amount = pos 500; user = 7 }
      ∷ [];
}

add_movement-expected_example :
    calculate_expected_closing_amount session withdrawn
    ≡ calculate_expected_closing_amount session shop -ℤ pos 500
unfolding add_movement ◌>>=◌
add_movement-expected_example =
    add_movement-expected session session outflow retiro (pos 500) 7 shop refl

abbrev shut : CashSession
shut = closed_with (pos 10000) (pos 9500) 1000 7 session

abbrev shut_shop : Db
shut_shop = after (close_session env session (some (pos 9500)) cashier shop)

close_session_ends_example :
    (total : ℤ) × ((sellable_by cashier session || check_permission cashier Code.cash_close shop)
      ≡ true)
    × ((is_open session.status || is_pending_approval session.status) ≡ true)
    × ((some (pos 9500) ≡ some total) ⊎ ((some (pos 9500) ≡ none) × (none ≡ some total)))
    × (shut ≡ record session {
      expected_closing_amount = some (in_till session shop);
      counted_closing_amount = some total;
      difference = some (total -ℤ in_till session shop);
      status = SessionStatus.closed;
      closing_at = some 1000;
      approved_by = some 7;
    })
    × ((k : ℕ)
        → first (has_session_id k) shut_shop.sessions
          ≡ (if 1 == k then some shut else first (has_session_id k) shop.sessions))
unfolding close_session assert_can_close ◌>>=◌ calculate_expected_closing_amount ◌+ℤ◌ ◌-ℤ◌ after
close_session_ends_example =
    close_session_ends env session (some (pos 9500)) cashier shop {s' = shut} {db' = shut_shop} refl
      refl
