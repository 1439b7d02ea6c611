-- ===== src/Payroll/Tests.antt =====
-- An employee who comes, and what two ways of counting give.
use fivuza_backend.Prelude.{
  ℕ, ◌-◌, ◌/◌, ◌%◌, ◌+ℤ◌, ◌-ℤ◌, ◌*ℤ◌, ◌≡◌, refl, pos, some, [], ◌∷◌, arith,
}
use fivuza_backend.Result.{ok, ◌>>=◌}
use fivuza_backend.Model.Users.{employee_clocked_in}
use fivuza_backend.Inventory.{logged}
use fivuza_backend.Decimals.{round2}
use fivuza_backend.Payroll.{
  LocalTime, Employee, SalaryType, EmployeeAttendance, AttendanceStatus, People, new_attendance,
  clock_in, calculate_worked_hours, calculate_base_salary, total_hours,
}
use fivuza_backend.Payroll.Reach.{Sound, Step, start, then_, Reach-Sound}

-- Five hours behind UTC.
abbrev lima : LocalTime
lima = record { date = λ t. (t - 18000) / 86400; weekday = λ t. 0; time = λ t. (t - 18000) % 86400 }

abbrev cook : Employee
cook = record { id = 3; salary_type = SalaryType.by_day; salary_amount = pos 6000 }

abbrev nobody : People
nobody = record { schedules = []; attendances = []; payrolls = []; audit_log = [] }

abbrev one_in : People
one_in = record nobody {
  attendances = new_attendance lima 50000 cook 1 nobody ∷ [];
  audit_log = logged 8 employee_clocked_in 1 [];
}

arrives : clock_in lima 50000 cook 1 8 nobody ≡ ok one_in
unfolding clock_in ◌>>=◌
arrives = refl

nobody-Sound : Sound nobody
nobody-Sound = record {
  one_open = λ e. omega arith;
  one_payroll = λ e from to_. omega arith;
  adds = tt;
}

Reach-Sound_example : Sound one_in
Reach-Sound_example =
    Reach-Sound nobody one_in nobody-Sound (then_ start (Step.comes lima 50000 cook 1 8 arrives))

abbrev shift : ℕ → ℕ → EmployeeAttendance
shift from to_ = record {
  id = from;
  employee = 3;
  warehouse = 1;
  check_in = from;
  check_out = some to_;
  status = AttendanceStatus.on_time;
}

-- Three shifts of twenty minutes are an hour; each is rounded, and they make 0.99.
short_hour : total_hours (shift 0 1200 ∷ shift 2000 3200 ∷ shift 4000 5200 ∷ []) ≡ pos 99
unfolding calculate_worked_hours round2 ◌+ℤ◌ ◌*ℤ◌ ◌-ℤ◌
short_hour = refl

-- A shift in the morning and one in the evening of one day of Lima are paid as two days.
paid_twice :
    calculate_base_salary lima cook 0 0
      (record nobody { attendances = shift 86500 90000 ∷ shift 50000 60000 ∷ [] })
    ≡ pos 12000
unfolding calculate_base_salary round2 ◌*ℤ◌
paid_twice = refl
