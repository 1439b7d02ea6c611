-- ===== src/Cash.antt =====
-- ventas/services/cash.py, CashSessionService: the shifts of a cash register, who may sell in one
-- and who may close it, and the count at the end.
mod Tests
pub mod Ownership
pub mod OpenSessions
pub mod Till
pub mod Closing
use fivuza_backend.Prelude.{
  ℕ, suc, ℤ, pos, ◌+ℤ◌, ◌-ℤ◌, Bool, true, false, not, ◌&&◌, ◌||◌, Option, none, some, List, [], ◌∷◌,
  ◌==◌, if◌then◌else◌, any, first, update_where, length,
}
use fivuza_backend.Result.{
  Result, ok, err, ◌>>=◌, ◌>>◌, raise_if, cash_session_already_open, cash_session_not_open,
  cash_session_already_counted, cash_session_not_owned, counted_amount_required,
}
use fivuza_backend.Model.{Db}
use fivuza_backend.Model.Users.{Code, User, Action, AuditLog}
use fivuza_backend.Model.Sales.{
  CashRegister, CashSession, SessionStatus, CashMovement, Direction, inflow, outflow, CashConcept,
  Sale, SalePayment, Method,
}
use fivuza_backend.Permissions.{check_permission}
use fivuza_backend.Inventory.{logged}
use fivuza_backend.Authorization.{Env}

abbrev pub is_open : SessionStatus → Bool
is_open SessionStatus.open_ = true
is_open _ = false

abbrev pub is_pending_approval : SessionStatus → Bool
is_pending_approval SessionStatus.pending_approval = true
is_pending_approval _ = false

abbrev pub has_cash_close : User → Db → Bool
has_cash_close user db = check_permission user Code.cash_close db

-- `assigned_id is None or assigned_id == user.id`
abbrev pub unassigned_or : Option ℕ → ℕ → Bool
unassigned_or none u = true
unassigned_or (some a) u = a == u

unfoldable pub assert_can_open : CashRegister → User → Db → Result (Unit {0})
assert_can_open r user db =
    if unassigned_or r.assigned_user user.id
    then ok tt
    else if has_cash_close user db
    then ok tt
    else err cash_session_not_owned

abbrev pub assigned_else : Option ℕ → ℕ → ℕ
assigned_else (some a) opener = a
assigned_else none opener = opener

-- The owner of the shift: the person assigned to the register or, with none, who opened it.
abbrev pub owner_id : CashSession → ℕ
owner_id s = assigned_else s.cash_register.assigned_user s.user

-- `Q(assigned_user=user) | Q(assigned_user__isnull=True, user=user)`
abbrev pub sellable_by : User → CashSession → Bool
sellable_by user s = elim s.cash_register.assigned_user [
  | some a ↦ a == user.id
  | none ↦ s.user == user.id
]

unfoldable pub assert_can_sell : CashSession → User → Result (Unit {0})
assert_can_sell s user = raise_if (not (owner_id s == user.id)) cash_session_not_owned

unfoldable pub assert_can_close : CashSession → User → Db → Result (Unit {0})
assert_can_close s user db =
    if owner_id s == user.id
    then ok tt
    else if has_cash_close user db
    then ok tt
    else err cash_session_not_owned

abbrev pub is_open_on : ℕ → CashSession → Bool
is_open_on r s = (s.cash_register.id == r) && is_open s.status

abbrev pub new_session : ℕ → CashRegister → ℕ → ℤ → CashSession
new_session id r user opening_amount = record {
  id = id;
  cash_register = r;
  user = user;
  opening_amount = opening_amount;
  expected_closing_amount = none;
  counted_closing_amount = none;
  difference = none;
  status = SessionStatus.open_;
  counted_at = none;
  closing_at = none;
  approved_by = none;
}

unfoldable pub open_session : CashRegister → User → ℤ → Db → Result (CashSession × Db)
open_session r user opening_amount db = do
  assert_can_open r user db
  raise_if (any (is_open_on r.id) db.sessions) cash_session_already_open
  let session = new_session (suc (length db.sessions)) r user.id opening_amount
  ok (
    session,
    record db {
      sessions = session ∷ db.sessions;
      audit_log = logged user.id Action.cash_session_opened session.id db.audit_log;
    },
  )

abbrev pub has_session_id : ℕ → CashSession → Bool
has_session_id i s = s.id == i

-- What `submit_count` writes.
abbrev pub counted : ℤ → ℕ → CashSession → CashSession
counted amount now s = record s {
  counted_closing_amount = some amount;
  counted_at = some now;
  status = SessionStatus.pending_approval;
}

-- The mail to the administrator is sent by another process and is left out.
unfoldable pub submit_count : Env → CashSession → ℤ → User → Db → Result (CashSession × Db)
submit_count env s amount user db = do
  assert_can_close s user db
  raise_if (is_pending_approval s.status) cash_session_already_counted
  raise_if (not (is_open s.status)) cash_session_not_open
  ok (
    counted amount env.now s,
    record db {
      sessions = update_where (has_session_id s.id) (counted amount env.now) db.sessions;
      audit_log = logged user.id Action.cash_session_count_submitted s.id db.audit_log;
    },
  )

abbrev pub is_cash : Method → Bool
is_cash Method.cash = true
is_cash _ = false

abbrev pub is_inflow : Direction → Bool
is_inflow inflow = true
is_inflow outflow = false

abbrev pub in_session : ℕ → Option ℕ → Bool
in_session i (some s) = s == i
in_session i none = false

-- `sale__cash_session=session`, through the payment's sale
abbrev pub sold_in : ℕ → List Sale → ℕ → Bool
sold_in i [] sale = false
sold_in i (s ∷ sales) sale =
    if s.id == sale then in_session i s.cash_session else sold_in i sales sale

abbrev pub cash_sales : ℕ → List Sale → List SalePayment → ℤ
cash_sales i sales [] = pos 0
cash_sales i sales (p ∷ ps) =
    (if is_cash p.method && sold_in i sales p.sale then p.amount else pos 0)
    +ℤ cash_sales i sales ps

abbrev pub same : Bool → Bool → Bool
same true b = b
same false b = not b

abbrev pub movements_sum : Bool → ℕ → List CashMovement → ℤ
movements_sum incoming i [] = pos 0
movements_sum incoming i (m ∷ ms) =
    (if (m.cash_session == i) && same incoming (is_inflow m.type) then m.amount else pos 0)
    +ℤ movements_sum incoming i ms

unfoldable pub calculate_expected_closing_amount : CashSession → Db → ℤ
calculate_expected_closing_amount s db =
    s.opening_amount
    +ℤ cash_sales s.id db.sales db.payments
    +ℤ movements_sum true s.id db.cash_movements
    -ℤ movements_sum false s.id db.cash_movements

abbrev pub or_counted : Option ℤ → Option ℤ → Result ℤ
or_counted (some amount) _ = ok amount
or_counted none (some amount) = ok amount
or_counted none none = err counted_amount_required

-- What `close_session` writes.
abbrev pub closed_with : ℤ → ℤ → ℕ → ℕ → CashSession → CashSession
closed_with expected amount now user s = record s {
  expected_closing_amount = some expected;
  counted_closing_amount = some amount;
  difference = some (amount -ℤ expected);
  status = SessionStatus.closed;
  closing_at = some now;
  approved_by = some user;
}

-- The alert on a difference is sent by another process and is left out.
unfoldable pub close_session : Env → CashSession → Option ℤ → User → Db → Result (CashSession × Db)
close_session env s amount user db = do
  assert_can_close s user db
  raise_if (not (is_open s.status || is_pending_approval s.status)) cash_session_not_open
  total ← or_counted amount s.counted_closing_amount
  let expected = calculate_expected_closing_amount s db
  ok (
    closed_with expected total env.now user.id s,
    record db {
      sessions =
          update_where (has_session_id s.id) (closed_with expected total env.now user.id)
            db.sessions;
      audit_log = logged user.id Action.cash_session_closed s.id db.audit_log;
    },
  )

unfoldable pub add_movement : CashSession → Direction → CashConcept → ℤ → ℕ → Db → Result Db
add_movement s type concept amount user db = do
  raise_if (not (is_open s.status)) cash_session_not_open
  ok (record db {
    cash_movements =
        record { cash_session = s.id; type = type; concept = concept; amount = amount; user = user }
        ∷ db.cash_movements;
  })
