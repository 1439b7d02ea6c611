-- ===== src/Lib.antt =====
-- Verification of the Fivuza backend, a point of sale for many tenants: the rules of the sales,
-- the stock, the customers' books, the cash shifts, the permissions, the payroll and the gym of one
-- tenant, and the life of the tenants themselves.
--
-- The program. Django services change the tables of a tenant's schema; each call is one database
-- transaction. A sale (ventas/services/sales.py) reads prices and promotions
-- (ventas/services/promotions.py), moves the stock (inventario/services.py), writes in the
-- customer's books (ventas/services/credit.py) and belongs to the open shift of a till
-- (ventas/services/cash.py). Who may do what is decided by usuarios/services.py, and a supervisor's
-- one-time token (usuarios/authorization.py) stands in for a permission.
--
-- The model. `Db` (Model.antt) holds the tables as lists of rows, newest first; identifiers are
-- given in sequence, since no service deletes a row of the tables that it numbers so. A service is a
-- function from its arguments and the tables to `Result` (Result.antt): the value and the new tables,
-- or the error code that was raised. An error carries no tables, since the transaction is rolled
-- back; what runs outside of a transaction, as Sync and Tenants/Retention do, returns what it left.
-- The tables are passed from step to step, so that what a step reads is what the steps before it wrote;
-- one call ends before the next begins. The program locks the rows of the stock, of a variant that a
-- purchase prices and of a token that is consumed, and nothing else: shifts, customers' books, quotes,
-- bookings, memberships, roles, payrolls, subscriptions and tenants are read and written without a
-- lock, and what two such calls do at one time is not modelled.
--
-- Numbers. Amounts, quantities and percentages have two decimals in the program: they are integers
-- of hundredths, ℤ over the native numbers (Prelude/Int.antt). What a product or a division leaves
-- is rounded by `round2` (Decimals.antt, core/decimals.py), which takes a numerator and a positive
-- denominator. The limits on digits of the columns are not modelled.
--
--   Prelude, Result    shared names, lists, integers; results of calls and how to take them apart
--   Model              rows of inventario/models.py, usuarios/models.py and ventas/models.py
--   Decimals           core/decimals.py
--   Inventory          inventario/services.py, StockService: adjust_stock, transfer_stock
--   Credit             ventas/services/credit.py, CreditLedgerService: every operation
--   Permissions        usuarios/services.py, PermissionService: own codes, their closure, the cache
--                      and the switches for cashiers; RoleService (Roles) and the overrides of
--                      UserPermissionViewSet of usuarios/views.py (Overrides)
--   Authorization      usuarios/authorization.py: consume, require, grant (Grant)
--   Cash               ventas/services/cash.py, CashSessionService: ownership and life of a shift
--   Pricing            ventas/services/promotions.py, and the prices and discounts of sales.py
--   Sales              ventas/services/sales.py, SaleService: create_sale (Lines, Payments, Create)
--                      and void_sale (Void)
--   Returns            ventas/services/returns.py, ReturnService: create_return
--   Purchases          inventario/services.py, PurchaseService: receive_order and the average cost
--   Reservations       ventas/services/reservations.py, ReservationService: every operation
--   Quotes             ventas/services/quotes.py, QuoteService: every operation (convert_to_sale is
--                      sell_quote, in Conversion)
--   Sync               ventas/services/sync.py, SaleSyncService: sync_batch, with require_warehouse of
--                      core/warehouse_access.py
--   Gym                gimnasio/services.py: dates, memberships, access and bookings of classes
--   Payroll            usuarios/services.py: AttendanceService, PayrollService
--   Tenants            core/services/tenants.py: registration and life of a tenant; core/permissions.py,
--                      TenantNotSuspended and TenantNotCanceled; core/services/retention.py (Retention)
--   Billing            core/services/billing.py: payments and discounts of subscriptions, and the
--                      marking of those that expired (core/tasks.py)
--   Samples, Tests     concrete rows, runs and instances
--
-- From outside the tables come the clock, the hash of a token, the local day of a time, the digits
-- among the characters and a fresh identifier: the fields of `Env`, on which nothing is assumed;
-- and the start of a day, the check of a password and a random token: those of `Door`
-- (Authorization/Grant.antt).
-- The tables of the gym are a record of their own (`Gym`), since no other part reads them. Today is an
-- argument. A date is a year, a month and a day, and `timedelta` goes from day to day
-- (Gym/Dates.antt); Python refuses a date outside of the years 1 to 9999, and so does the model.
-- The tables of the platform are another record (`Platform`); the keys of new rows are arguments, and
-- what django-tenants does to the schema of a tenant is left out.
-- A row that a call was given, such as a shift, is an argument beside the tables.
--
-- Fuel. The closure of the permissions runs on fuel 4. Two rounds reach the fixed point and one more
-- finds that nothing changes, so that the fuel is never used up (Permissions/Closure.antt). Every
-- other loop is a recursion on a list.
--
-- Not modelled: other HTTP views, and serializers, mails and background tasks, texts for display and
-- warnings in words, soft deletion, settlements,
-- the catalogue, password resets, the seeding of a new tenant and the rest of the platform's administration.
-- `check_permission` leaves out that a miss of the cache stores what was found;
-- `get_permission_codes` has it.
pub mod Prelude
pub mod Result
pub mod Model
pub mod Decimals
pub mod Inventory
pub mod Credit
pub mod Permissions
pub mod Authorization
pub mod Cash
pub mod Pricing
pub mod Sales
pub mod Returns
pub mod Purchases
pub mod Reservations
pub mod Quotes
pub mod Sync
pub mod Gym
pub mod Payroll
pub mod Tenants
pub mod Billing
pub mod Samples
