-- ===== src/Model/Users.antt =====
-- Rows of usuarios/models.py. A permission code is one that the services name, or another one.
use fivuza_backend.Prelude.{ℕ, ◌+◌, ℤ, Bool, Option, ◌==◌}

pub data Code : Type 0 where
  sales_manage sales_void sales_return sales_discount sales_cash_refund : Code
  cash_manage cash_open cash_close cash_submit_count : Code
  other : ℕ → Code

-- The codes are told apart by a number each.
abbrev pub number : Code → ℕ
number Code.sales_manage = 0
number Code.sales_void = 1
number Code.sales_return = 2
number Code.sales_discount = 3
number Code.sales_cash_refund = 4
number Code.cash_manage = 5
number Code.cash_open = 6
number Code.cash_close = 7
number Code.cash_submit_count = 8
number (Code.other n) = n + 9

abbrev pub code_eq : Code → Code → Bool
code_eq a b = number a == number b

pub record Role : Type 0 where
  pub id : ℕ
  pub max_discount_percent : ℤ

pub record User : Type 0 where
  pub id : ℕ
  pub role : Role

pub record RolePermission : Type 0 where
  pub role : ℕ
  pub code : Code

pub record UserPermission : Type 0 where
  pub id : ℕ
  pub user : ℕ
  pub code : Code
  pub is_granted : Bool

-- A one-time authorization of a supervisor. The token's hash is a number; times are numbers too.
pub record SupervisorAuthorization : Type 0 where
  pub id : ℕ
  pub token_hash : ℕ
  pub permission : Code
  pub requested_by : ℕ
  pub authorized_by : ℕ
  pub target_id : Option ℕ
  pub discount_percent : Option ℤ
  pub expires_at : ℕ
  pub used_at : Option ℕ

pub data Action : Type 0 where
  stock_adjusted stock_transferred purchase_received : Action
  cash_session_opened cash_session_count_submitted cash_session_closed : Action
  sale_created sale_discount_over_limit sale_voided sale_returned : Action
  reservation_created reservation_cancelled reservation_converted : Action
  quote_created quote_converted : Action
  supervisor_authorization_granted supervisor_authorization_failed : Action
  membership_created membership_renewed membership_frozen membership_unfrozen : Action
  membership_cancelled : Action
  employee_clocked_in employee_clocked_out payroll_generated payroll_paid : Action

-- The text in `details` is for display and is left out.
pub record AuditLog : Type 0 where
  pub user : ℕ
  pub action : Action
  pub entity_id : ℕ
