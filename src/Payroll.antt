-- ===== src/Payroll.antt =====
-- usuarios/services.py, AttendanceService and PayrollService: when employees come and go, and what they
-- are paid.
mod Tests
pub mod Reach
use fivuza_backend.Prelude.{
  ℕ, suc, ◌+◌, ◌/◌, ℤ, pos, ◌+ℤ◌, ◌-ℤ◌, ◌*ℤ◌, Bool, true, false, not, ◌&&◌, ◌||◌, Option, none,
  some, List, [], ◌∷◌, ◌==◌, ltb, leb, any, first, select, update_where, length, if◌then◌else◌,
}
use fivuza_backend.Result.{
  Error, Result, ok, err, ◌>>=◌, ◌>>◌, raise_if, open_attendance_exists, attendance_already_closed,
  payroll_already_exists, payroll_already_paid,
}
use fivuza_backend.Decimals.{round2}
use fivuza_backend.Model.Users.{
  AuditLog, Action, employee_clocked_in, employee_clocked_out, payroll_generated, payroll_paid,
}
use fivuza_backend.Inventory.{logged}

-- `timezone.localtime`: the day, the day of the week and the second of the day of a time.
pub record LocalTime : Type 0 where
  pub date : ℕ → ℕ
  pub weekday : ℕ → ℕ
  pub time : ℕ → ℕ

pub data SalaryType : Type 0 where
  by_month by_day by_hour : SalaryType

pub record Employee : Type 0 where
  pub id : ℕ
  pub salary_type : SalaryType
  pub salary_amount : ℤ

pub record EmployeeSchedule : Type 0 where
  pub employee : ℕ
  pub day_of_week : ℕ
  pub start_time : ℕ
  pub is_active : Bool

pub data AttendanceStatus : Type 0 where
  on_time late : AttendanceStatus

pub record EmployeeAttendance : Type 0 where
  pub id : ℕ
  pub employee : ℕ
  pub warehouse : ℕ
  pub check_in : ℕ
  pub check_out : Option ℕ
  pub status : AttendanceStatus

pub record EmployeePayroll : Type 0 where
  pub id : ℕ
  pub employee : ℕ
  pub period_start : ℕ
  pub period_end : ℕ
  pub base_salary : ℤ
  pub bonuses : ℤ
  pub deductions : ℤ
  pub net_amount : ℤ
  pub is_paid : Bool
  pub payment_date : Option ℕ

pub record People : Type 0 where
  pub schedules : List EmployeeSchedule
  pub attendances : List EmployeeAttendance
  pub payrolls : List EmployeePayroll
  pub audit_log : List AuditLog

abbrev pub is_missing : Option ℕ → Bool
is_missing none = true
is_missing (some _) = false

abbrev pub is_open_of : ℕ → EmployeeAttendance → Bool
is_open_of e a = (a.employee == e) && is_missing a.check_out

abbrev pub is_schedule : ℕ → ℕ → EmployeeSchedule → Bool
is_schedule e day s = (s.employee == e) && (s.day_of_week == day) && s.is_active

abbrev pub compared : ℕ → Option EmployeeSchedule → AttendanceStatus
compared time none = on_time
compared time (some s) = if ltb s.start_time time then late else on_time

-- `_determine_status`
unfoldable pub determine_status : LocalTime → Employee → ℕ → People → AttendanceStatus
determine_status local e check_in db =
    compared (local.time check_in) (first (is_schedule e.id (local.weekday check_in)) db.schedules)

abbrev pub new_attendance : LocalTime → ℕ → Employee → ℕ → People → EmployeeAttendance
new_attendance local now e warehouse db = record {
  id = suc (length db.attendances);
  employee = e.id;
  warehouse = warehouse;
  check_in = now;
  check_out = none;
  status = determine_status local e now db;
}

unfoldable pub clock_in : LocalTime → ℕ → Employee → ℕ → ℕ → People → Result People
clock_in local now e warehouse user db = do
  raise_if (any (is_open_of e.id) db.attendances) open_attendance_exists
  ok (record db {
    attendances = new_attendance local now e warehouse db ∷ db.attendances;
    audit_log = logged user employee_clocked_in (suc (length db.attendances)) db.audit_log;
  })

abbrev pub is_attendance : ℕ → EmployeeAttendance → Bool
is_attendance i a = a.id == i

abbrev pub left_at : ℕ → EmployeeAttendance → EmployeeAttendance
left_at now a = record a { check_out = some now }

unfoldable pub clock_out : ℕ → EmployeeAttendance → ℕ → People → Result People
clock_out now a user db = do
  raise_if (not (is_missing a.check_out)) attendance_already_closed
  ok (record db {
    attendances = update_where (is_attendance a.id) (left_at now) db.attendances;
    audit_log = logged user employee_clocked_out a.id db.audit_log;
  })

abbrev pub hours_between : ℕ → Option ℕ → Option ℤ
hours_between check_in none = none
hours_between check_in (some check_out) =
    some (round2 ((pos check_out -ℤ pos check_in) *ℤ pos 100) 3600)

-- Hours with two decimals, rows hundredths.
unfoldable pub calculate_worked_hours : EmployeeAttendance → Option ℤ
calculate_worked_hours a = hours_between a.check_in a.check_out

abbrev pub is_of_period : LocalTime → ℕ → ℕ → ℕ → EmployeeAttendance → Bool
is_of_period local e period_start period_end a =
    (a.employee == e)
    && leb period_start (local.date a.check_in)
    && leb (local.date a.check_in) period_end
    && not (is_missing a.check_out)

-- `entry.check_in.date()` is the day in UTC, which the column stores.
abbrev pub utc_date : EmployeeAttendance → ℕ
utc_date a = a.check_in / 86400

abbrev pub is_on : ℕ → EmployeeAttendance → Bool
is_on day a = utc_date a == day

-- `len({…})`: each day once.
abbrev pub days_worked : List EmployeeAttendance → ℕ
days_worked [] = 0
days_worked (a ∷ rows) =
    if any (is_on (utc_date a)) rows then days_worked rows else suc (days_worked rows)

abbrev pub hours_or_zero : Option ℤ → ℤ
hours_or_zero none = pos 0
hours_or_zero (some hours) = hours

abbrev pub total_hours : List EmployeeAttendance → ℤ
total_hours [] = pos 0
total_hours (a ∷ rows) = hours_or_zero (calculate_worked_hours a) +ℤ total_hours rows

abbrev pub salary_for : SalaryType → ℤ → List EmployeeAttendance → ℤ
salary_for by_month amount rows = amount
salary_for by_day amount rows = round2 (amount *ℤ pos (days_worked rows)) 1
salary_for by_hour amount rows = round2 (amount *ℤ total_hours rows) 100

-- `_calculate_base_salary`
unfoldable pub calculate_base_salary : LocalTime → Employee → ℕ → ℕ → People → ℤ
calculate_base_salary local e period_start period_end db =
    salary_for e.salary_type e.salary_amount
      (select (is_of_period local e.id period_start period_end) db.attendances)

abbrev pub is_payroll_of : ℕ → ℕ → ℕ → EmployeePayroll → Bool
is_payroll_of e period_start period_end p =
    (p.employee == e) && (p.period_start == period_start) && (p.period_end == period_end)

abbrev pub new_payroll : LocalTime → Employee → ℕ → ℕ → ℤ → ℤ → People → EmployeePayroll
new_payroll local e period_start period_end bonuses deductions db =
    let base = calculate_base_salary local e period_start period_end db in
    record {
      id = suc (length db.payrolls);
      employee = e.id;
      period_start = period_start;
      period_end = period_end;
      base_salary = base;
      bonuses = bonuses;
      deductions = deductions;
      net_amount = (base +ℤ bonuses) -ℤ deductions;
      is_paid = false;
      payment_date = none;
    }

unfoldable pub generate_payroll : LocalTime → Employee → ℕ → ℕ → ℤ → ℤ → ℕ → People → Result People
generate_payroll local e period_start period_end bonuses deductions user db = do
  raise_if (any (is_payroll_of e.id period_start period_end) db.payrolls) payroll_already_exists
  ok (record db {
    payrolls = new_payroll local e period_start period_end bonuses deductions db ∷ db.payrolls;
    audit_log = logged user payroll_generated (suc (length db.payrolls)) db.audit_log;
  })

abbrev pub is_payroll : ℕ → EmployeePayroll → Bool
is_payroll i p = p.id == i

abbrev pub paid_on : ℕ → EmployeePayroll → EmployeePayroll
paid_on day p = record p { is_paid = true; payment_date = some day }

unfoldable pub mark_paid : EmployeePayroll → ℕ → ℕ → People → Result People
mark_paid p day user db = do
  raise_if p.is_paid payroll_already_paid
  ok (record db {
    payrolls = update_where (is_payroll p.id) (paid_on day) db.payrolls;
    audit_log = logged user payroll_paid p.id db.audit_log;
  })
