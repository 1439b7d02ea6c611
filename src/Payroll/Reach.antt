-- ===== src/Payroll/Reach.antt =====
-- Employees who come and go, and payrolls that are generated and paid, in whatever order.
use fivuza_backend.Prelude.{
  ℕ, ◌≤◌, ℤ, ◌+ℤ◌, ◌-ℤ◌, ◌≡◌, refl, sym, ◌∙◌, Bool, true, false, ◌&&◌, List, [], ◌∷◌, ◌==◌, All,
  any, count_where, update_where, count_where-update_where, count_where-kept, Bool-cases, inl, inr,
  arith,
}
use fivuza_backend.Result.{ok, raise_if-bind, guarded-ok}
use fivuza_backend.Payroll.{
  LocalTime, Employee, EmployeeAttendance, EmployeePayroll, People, is_open_of, is_attendance,
  left_at, is_payroll_of, is_payroll, paid_on, new_attendance, new_payroll, clock_in, clock_out,
  generate_payroll, mark_paid,
}

-- The amounts of a payroll add up.
abbrev pub Adds : EmployeePayroll → Type 0
Adds p = p.net_amount ≡ (p.base_salary +ℤ p.bonuses) -ℤ p.deductions

pub record Sound (db : People) : Type 0 where
  pub one_open : (e : ℕ) → count_where (is_open_of e) db.attendances ≤ 1
  pub one_payroll : (e from to_ : ℕ) → count_where (is_payroll_of e from to_) db.payrolls ≤ 1
  pub adds : All Adds db.payrolls

pub data Step : People → People → Type 0 where
  comes :
      {db db' : People} (local : LocalTime) (now : ℕ) (e : Employee) (warehouse user : ℕ)
      → clock_in local now e warehouse user db ≡ ok db'
      → Step db db'
  goes :
      {db db' : People} (now : ℕ) (a : EmployeeAttendance) (user : ℕ)
      → clock_out now a user db ≡ ok db'
      → Step db db'
  generates :
      {db db' : People} (local : LocalTime) (e : Employee) (from to_ : ℕ) (bonuses deductions : ℤ)
      (user : ℕ)
      → generate_payroll local e from to_ bonuses deductions user db ≡ ok db'
      → Step db db'
  pays :
      {db db' : People} (p : EmployeePayroll) (day user : ℕ)
      → mark_paid p day user db ≡ ok db'
      → Step db db'

pub data Reach (db : People) : People → Type 0 where
  start : Reach db db
  then_ : {db₁ db₂ : People} → Reach db db₁ → Step db₁ db₂ → Reach db db₂

-- A test that no row passes counts none of them.
any-none :
    {A : Type 0} (test : A → Bool) (xs : List A) → any test xs ≡ false → count_where test xs ≡ 0
any-none test [] h = refl
any-none test (x ∷ xs) h = elim (Bool-cases (test x)) [
  | inl e ↦ let no_way : true ≡ false = rw e at h in cc
  | inr e ↦ rw e (omega (arith, any-none test xs (rw e at h)))
]

-- A new row with a key that no row has, where each key is there once at most.
one-more :
    {A : Type 0} (test tested : A → Bool) (x : A) (xs : List A)
    → any tested xs ≡ false
    → count_where test xs ≤ 1
    → (test x ≡ true → count_where test xs ≡ count_where tested xs)
    → count_where test (x ∷ xs) ≤ 1
one-more test tested x xs h le same = elim (Bool-cases (test x)) [
  | inl e ↦ rw e (omega (arith, any-none tested xs h, same e))
  | inr e ↦ rw e (omega (arith, le))
]

count-same :
    {A : Type 0} (test test' : A → Bool) (xs : List A)
    → ((x : A) → test x ≡ test' x)
    → count_where test xs ≡ count_where test' xs
count-same test test' [] h = refl
count-same test test' (x ∷ xs) h = rw (h x, count-same test test' xs h) refl

paid-Adds :
    (i day : ℕ) (ps : List EmployeePayroll)
    → All Adds ps
    → All Adds (update_where (is_payroll i) (paid_on day) ps)
paid-Adds i day [] h = tt
paid-Adds i day (p ∷ ps) (h, hs) = elim (Bool-cases (is_payroll i p)) [
  | inl e ↦ rw e (h, paid-Adds i day ps hs)
  | inr e ↦ rw e (h, paid-Adds i day ps hs)
]

both_true : (b c : Bool) → (b && c) ≡ true → (b ≡ true) × (c ≡ true)
both_true true true h = (refl, refl)
both_true true false h = cc
both_true false c h = cc

-- The keys of a payroll that is one of a period.
same_period :
    (e from to_ e' from' to' : ℕ) (ps : List EmployeePayroll)
    → ((e == e') && (from == from') && (to_ == to')) ≡ true
    → count_where (is_payroll_of e' from' to') ps ≡ count_where (is_payroll_of e from to_) ps
same_period e from to_ e' from' to' ps h =
    let (ab, c) = both_true ((e == e') && (from == from')) (to_ == to') h in
    let (a, b) = both_true (e == e') (from == from') ab in
    let a' : e' ≡ e = ground (arith, a) in
    let b' : from' ≡ from = ground (arith, b) in
    let c' : to' ≡ to_ = ground (arith, c) in rw (a', b', c') refl

clock_in-Sound :
    (local : LocalTime) (now : ℕ) (e : Employee) (warehouse user : ℕ) (db db' : People)
    → Sound db
    → clock_in local now e warehouse user db ≡ ok db'
    → Sound db'
unfolding clock_in
clock_in-Sound local now e warehouse user db db' h done =
    let (fresh, it) = guarded-ok _ _ (sym (raise_if-bind _ _ _) ∙ done) in
    rw it (record {
      one_open = λ k.
          one-more (is_open_of k) (is_open_of e.id) (new_attendance local now e warehouse db)
            db.attendances fresh (h.one_open k)
            (λ mine.
              let (a, _) = both_true (e.id == k) true mine in
              let same : k ≡ e.id = ground (arith, a) in rw same refl);
      one_payroll = h.one_payroll;
      adds = h.adds;
    })

clock_out-Sound :
    (now : ℕ) (a : EmployeeAttendance) (user : ℕ) (db db' : People)
    → Sound db
    → clock_out now a user db ≡ ok db'
    → Sound db'
unfolding clock_out
clock_out-Sound now a user db db' h done =
    let (_, it) = guarded-ok _ _ (sym (raise_if-bind _ _ _) ∙ done) in
    rw it (record {
      one_open = λ k. omega (
        arith,
        h.one_open k,
        count_where-update_where (is_open_of k) (is_attendance a.id) (left_at now) db.attendances
            (never k db.attendances),
      );
      one_payroll = h.one_payroll;
      adds = h.adds;
    })
  where
    gone : (b : Bool) → (b && false) ≡ true → false ≡ true
    gone true e = e
    gone false e = e

    never :
        (k : ℕ) (xs : List EmployeeAttendance)
        → All
            (λ x.
              is_attendance a.id x ≡ true
              → is_open_of k (left_at now x) ≡ true
              → is_open_of k x ≡ true)
            xs
    never k [] = tt
    never k (x ∷ xs) = (λ _ e. let no_way = gone (x.employee == k) e in cc, never k xs)

generate_payroll-Sound :
    (local : LocalTime) (e : Employee) (from to_ : ℕ) (bonuses deductions : ℤ) (user : ℕ)
    (db db' : People)
    → Sound db
    → generate_payroll local e from to_ bonuses deductions user db ≡ ok db'
    → Sound db'
unfolding generate_payroll
generate_payroll-Sound local e from to_ bonuses deductions user db db' h done =
    let (fresh, it) = guarded-ok _ _ (sym (raise_if-bind _ _ _) ∙ done) in
    rw it (record {
      one_open = h.one_open;
      one_payroll = λ e' from' to'.
          one-more (is_payroll_of e' from' to') (is_payroll_of e.id from to_)
            (new_payroll local e from to_ bonuses deductions db) db.payrolls fresh
            (h.one_payroll e' from' to') (same_period e.id from to_ e' from' to' db.payrolls);
      adds = (refl, h.adds);
    })

mark_paid-Sound :
    (p : EmployeePayroll) (day user : ℕ) (db db' : People)
    → Sound db
    → mark_paid p day user db ≡ ok db'
    → Sound db'
unfolding mark_paid
mark_paid-Sound p day user db db' h done =
    let (_, it) = guarded-ok _ _ (sym (raise_if-bind _ _ _) ∙ done) in
    rw it (record {
      one_open = h.one_open;
      one_payroll = λ e from to_.
          rw
            (count_where-kept (is_payroll_of e from to_) (is_payroll p.id) (paid_on day) (λ x. refl)
              db.payrolls)
            (h.one_payroll e from to_);
      adds = paid-Adds p.id day db.payrolls h.adds;
    })

Step-Sound : (db db' : People) → Sound db → Step db db' → Sound db'
Step-Sound db db' h (comes local now e warehouse user done) =
    clock_in-Sound local now e warehouse user db db' h done
Step-Sound db db' h (goes now a user done) = clock_out-Sound now a user db db' h done
Step-Sound db db' h (generates local e from to_ bonuses deductions user done) =
    generate_payroll-Sound local e from to_ bonuses deductions user db db' h done
Step-Sound db db' h (pays p day user done) = mark_paid-Sound p day user db db' h done

-- Whoever comes and goes, and whatever payrolls are generated and paid, in whatever order, from tables
-- where it holds, such as empty ones: an employee has at most one open attendance and at most one
-- payroll of a period, and what is paid is the base salary with the bonuses less the deductions.
pub Reach-Sound : (db db' : People) → Sound db → Reach db db' → Sound db'
Reach-Sound db db' h start = h
Reach-Sound db db' h (then_ {db₁ = db₁} reach step) =
    Step-Sound db₁ db' (Reach-Sound db db₁ h reach) step
