-- ===== src/Sync.antt =====
-- ventas/services/sync.py, SaleSyncService: a batch of sales that a till made without a connection.
mod Tests
pub mod OneSale
pub mod Repeat
use fivuza_backend.Prelude.{
  ℕ, ◌+◌, Bool, true, false, not, ◌&&◌, Option, none, some, List, [], ◌∷◌, ◌++◌, ◌==◌, ltb, leb,
  first, any, if◌then◌else◌,
}
use fivuza_backend.Result.{
  Error, Result, ok, err, ◌>>=◌, ◌>>◌, raise_if, invalid, does_not_exist, division_by_zero,
  integrity_error, type_error, date_out_of_range, customer_not_found, cash_session_not_found,
  warehouse_access_denied,
}
use fivuza_backend.Model.{Db}
use fivuza_backend.Model.Users.{User}
use fivuza_backend.Model.Sales.{Customer, CashSession, Sale}
use fivuza_backend.Authorization.{Env}
use fivuza_backend.Sales.Lines.{SaleLine, Cart, empty_cart, prepare_lines}
use fivuza_backend.Sales.Payments.{Payment}
use fivuza_backend.Sales.Create.{SaleRequest, DiscountLimit, given_or, has_uuid, create_sale}

-- `_MAX_CLOCK_SKEW`, in seconds.
abbrev pub max_clock_skew : ℕ
max_clock_skew = 300

-- `min(value, now)`, or now for a time that is missing or too far ahead.
abbrev pub occurred_at : ℕ → Option ℕ → ℕ
occurred_at now none = now
occurred_at now (some t) =
    if ltb (now + max_clock_skew) t then now else if leb t now then t else now

-- One sale of the batch.
pub record SaleData : Type 0 where
  pub customer_id : ℕ
  pub cash_session_id : ℕ
  pub lines : List SaleLine
  pub payments : List Payment
  pub client_side_uuid : ℕ
  pub occurred_at : Option ℕ

pub record UserWarehouse : Type 0 where
  pub user : ℕ
  pub warehouse : ℕ
  pub is_active : Bool

-- The tables that only this service reads: the customers, the warehouses of the users, each with
-- whether it is active, and whether a role is the administrator's.
pub record Directory : Type 0 where
  pub customers : List Customer
  pub user_warehouses : List UserWarehouse
  pub is_admin : ℕ → Bool

abbrev pub is_allowed : ℕ → ℕ → UserWarehouse → Bool
is_allowed user warehouse w = (w.user == user) && (w.warehouse == warehouse) && w.is_active

-- `WarehouseAccessService.require_warehouse`
unfoldable pub require_warehouse : Directory → User → ℕ → Result (Unit {0})
require_warehouse dir user warehouse =
    raise_if
      (not (dir.is_admin user.role.id)
        && not (any (is_allowed user.id warehouse) dir.user_warehouses))
      warehouse_access_denied

abbrev pub found_customer : Option Customer → Result Customer
found_customer (some c) = ok c
found_customer none = err customer_not_found

abbrev pub found_session : Option CashSession → Result CashSession
found_session (some s) = ok s
found_session none = err cash_session_not_found

abbrev pub is_customer : ℕ → Customer → Bool
is_customer i c = c.id == i

abbrev pub is_session : ℕ → CashSession → Bool
is_session i s = s.id == i

unfoldable pub resolve_references :
    Directory → SaleData → User → Db → Result (Customer × CashSession)
resolve_references dir data_ user db = do
  customer ← found_customer (first (is_customer data_.customer_id) dir.customers)
  session ← found_session (first (is_session data_.cash_session_id) db.sessions)
  require_warehouse dir user session.cash_register.warehouse
  ok (customer, session)

-- The arguments of the sale: it may oversell, and a discount over the limit is marked in the log.
abbrev pub synced_request : Env → Customer → CashSession → User → SaleData → SaleRequest
synced_request env customer session user data_ = record {
  customer = customer;
  cash_session = session;
  user = user;
  lines = data_.lines;
  payments = data_.payments;
  client_side_uuid = some data_.client_side_uuid;
  allow_oversell = true;
  at_time = some (occurred_at env.now data_.occurred_at);
  authorization_token = none;
  discount_limit = DiscountLimit.flag;
}

-- `sale.oversold_variant_ids`: what the first loop of `create_sale` found short.
abbrev pub oversold_in : Result Cart → List ℕ
oversold_in (ok cart) = cart.oversold_variant_ids
oversold_in (err e) = []

abbrev pub oversold_ids : Env → SaleRequest → Db → List ℕ
oversold_ids env r db = oversold_in (
    prepare_lines r.cash_session.cash_register.warehouse r.allow_oversell
      (given_or r.at_time env.now) db r.lines empty_cart)

pub data SyncStatus : Type 0 where
  created duplicate_ignored failed : SyncStatus

-- What is answered for one sale.
pub record Synced : Type 0 where
  pub client_side_uuid : ℕ
  pub status : SyncStatus
  pub sale_id : Option ℕ
  pub error : Option Error

pub record Conflict : Type 0 where
  pub client_side_uuid : ℕ
  pub variant_id : ℕ

abbrev pub answer : ℕ → SyncStatus → Option ℕ → Option Error → Synced
answer u status sale_id error = record {
  client_side_uuid = u;
  status = status;
  sale_id = sale_id;
  error = error;
}

abbrev pub conflicts_of : ℕ → List ℕ → List Conflict
conflicts_of u [] = []
conflicts_of u (v ∷ vs) = record { client_side_uuid = u; variant_id = v } ∷ conflicts_of u vs

-- The errors that `except APIException` catches: those of Django and of Python are not among them.
abbrev pub is_api_exception : Error → Bool
is_api_exception invalid = false
is_api_exception does_not_exist = false
is_api_exception division_by_zero = false
is_api_exception integrity_error = false
is_api_exception type_error = false
is_api_exception date_out_of_range = false
is_api_exception _ = true

-- `Sale.objects.get(client_side_uuid=…)` after an `IntegrityError`.
abbrev pub after_race : ℕ → Option Sale → Db → Result (Synced × List Conflict × Db)
after_race u (some s) db = ok (answer u duplicate_ignored (some s.id) none, [], db)
after_race u none db = err does_not_exist

abbrev pub is_integrity_error : Error → Bool
is_integrity_error integrity_error = true
is_integrity_error _ = false

abbrev pub caught : ℕ → Error → Db → Result (Synced × List Conflict × Db)
caught u e db =
    if is_integrity_error e
    then after_race u (first (has_uuid u) db.sales) db
    else if is_api_exception e
    then ok (answer u failed none (some e), [], db)
    else err e

abbrev pub tried : ℕ → Db → Result (Sale × List ℕ × Db) → Result (Synced × List Conflict × Db)
tried u db (ok (sale, short, db')) =
    ok (answer u created (some sale.id) none, conflicts_of u short, db')
tried u db (err e) = caught u e db

unfoldable pub make_sale : Env → Directory → User → SaleData → Db → Result (Sale × List ℕ × Db)
make_sale env dir user data_ db = do
  (customer, session) ← resolve_references dir data_ user db
  let r = synced_request env customer session user data_
  (sale, warnings, db') ← create_sale env r db
  ok (sale, oversold_ids env r db, db')

-- The body of the loop.
abbrev pub unless_there :
    Option Sale → Env → Directory → User → SaleData → Db → Result (Synced × List Conflict × Db)
unless_there (some s) env dir user data_ db =
    ok (answer data_.client_side_uuid duplicate_ignored (some s.id) none, [], db)
unless_there none env dir user data_ db =
    tried data_.client_side_uuid db (make_sale env dir user data_ db)

-- The answers, the tables, and the error that broke the loop off, if one did: each sale is its own
-- transaction, so what was written before it stays.
pub record BatchOutcome : Type 0 where
  pub synced : List Synced
  pub conflicts : List Conflict
  pub db : Db
  pub raised : Option Error

-- One turn of the loop, and the rest of it.
abbrev pub followed : Result (Synced × List Conflict × Db) → Db → (Db → BatchOutcome) → BatchOutcome
followed (err e) db rest = record { synced = []; conflicts = []; db = db; raised = some e }
followed (ok (s, cs, db')) db rest =
    let o = rest db' in record o { synced = s ∷ o.synced; conflicts = cs ++ o.conflicts }

unfoldable pub sync_batch : Env → Directory → User → List SaleData → Db → BatchOutcome
sync_batch env dir user [] db = record { synced = []; conflicts = []; db = db; raised = none }
sync_batch env dir user (x ∷ xs) db =
    followed (unless_there (first (has_uuid x.client_side_uuid) db.sales) env dir user x db) db
      (λ db'. sync_batch env dir user xs db')
