-- ===== src/Cash/OpenSessions.antt =====
-- A register has at most one open shift, whatever is done in whatever order.
use native.Mathlib.Nat.{le_trans}
use fivuza_backend.Prelude.{
  ℕ, ◌+◌, ◌≤◌, ◌≡◌, refl, ℤ, Bool, true, false, ◌&&◌, Option, List, [], ◌∷◌, ◌==◌, any,
  update_where, count_where, if◌then◌else◌, arith, ap, inl, inr, Bool-cases,
}
use fivuza_backend.Result.{ok, >>=-eq-ok, raise_if-ok, ok-injective}
use fivuza_backend.Model.{Db}
use fivuza_backend.Model.Users.{User}
use fivuza_backend.Model.Sales.{CashRegister, CashSession, Direction, CashConcept}
use fivuza_backend.Authorization.{Env}
use fivuza_backend.Cash.{
  is_open_on, has_session_id, counted, closed_with, open_session, calculate_expected_closing_amount,
  submit_count, close_session, add_movement,
}

-- How many shifts of a register are open.
abbrev pub open_count : ℕ → Db → ℕ
open_count r db = count_where (is_open_on r) db.sessions

-- The operations on shifts, each as the step that it makes when it is not refused.
pub data Step : Db → Db → Type 0 where
  opens :
      {db db' : Db} (r : CashRegister) (user : User) (amount : ℤ) (s : CashSession)
      → open_session r user amount db ≡ ok (s, db')
      → Step db db'
  submits :
      {db db' : Db} (env : Env) (s s' : CashSession) (amount : ℤ) (user : User)
      → submit_count env s amount user db ≡ ok (s', db')
      → Step db db'
  closes :
      {db db' : Db} (env : Env) (s s' : CashSession) (amount : Option ℤ) (user : User)
      → close_session env s amount user db ≡ ok (s', db')
      → Step db db'
  moves :
      {db db' : Db} (s : CashSession) (type : Direction) (concept : CashConcept) (amount : ℤ)
      (user : ℕ)
      → add_movement s type concept amount user db ≡ ok db'
      → Step db db'

pub data Reach (db : Db) : Db → Type 0 where
  here : Reach db db
  next : {db₁ db₂ : Db} → Reach db db₁ → Step db₁ db₂ → Reach db db₂

none-open :
    (r : ℕ) (ss : List CashSession)
    → any (is_open_on r) ss ≡ false
    → count_where (is_open_on r) ss ≡ 0
none-open r [] h = refl
none-open r (s ∷ ss) h = ground (arith, none-open r ss)

-- A write that leaves no session open makes no more of them.
shut-le :
    (r : ℕ) (test : CashSession → Bool) (f : CashSession → CashSession) (ss : List CashSession)
    → ((s : CashSession) → is_open_on r (f s) ≡ false)
    → count_where (is_open_on r) (update_where test f ss) ≤ count_where (is_open_on r) ss
shut-le r test f [] h = omega arith
shut-le r test f (s ∷ ss) h = elim (Bool-cases (test s)) [
  | inl e ↦ rw (e, h s) (omega (arith, shut-le r test f ss h))
  | inr e ↦ rw e (omega (arith, shut-le r test f ss h))
]

open_session-count :
    (k : ℕ) (r : CashRegister) (user : User) (amount : ℤ) (s : CashSession) (db db' : Db)
    → open_count k db ≤ 1
    → open_session r user amount db ≡ ok (s, db')
    → open_count k db' ≤ 1
unfolding open_session
open_session-count k r user amount s db db' h e =
    let (_, e₁, h₁) = >>=-eq-ok _ _ e in
    let (_, e₂, h₂) = >>=-eq-ok _ _ h₁ in
    let free = none-open r.id db.sessions (raise_if-ok (any (is_open_on r.id) db.sessions) _ e₂) in
    rw (← ap (λ p. p.1) (ok-injective h₂)) (one_more free)
  where
    one_more :
        count_where (is_open_on r.id) db.sessions ≡ 0
        → (if (r.id == k) && true then 1 else 0) + open_count k db ≤ 1
    one_more free = elim (Bool-cases (r.id == k)) [
      | inl same ↦ let here : r.id ≡ k = ground arith in rw (same, ← here, free) (omega arith)
      | inr other ↦ rw other (omega arith)
    ]

closed-not_open : (r : ℕ) (b : Bool) → (b && false) ≡ false
closed-not_open r true = refl
closed-not_open r false = refl

submit_count-count :
    (k : ℕ) (env : Env) (s s' : CashSession) (amount : ℤ) (user : User) (db db' : Db)
    → submit_count env s amount user db ≡ ok (s', db')
    → open_count k db' ≤ open_count k db
unfolding submit_count
submit_count-count k env s s' amount user db db' e =
    let (_, _, h₁) = >>=-eq-ok _ _ e in
    let (_, _, h₂) = >>=-eq-ok _ _ h₁ in
    let (_, _, h₃) = >>=-eq-ok _ _ h₂ in
    rw (← ap (λ p. p.1) (ok-injective h₃)) (
      shut-le k (has_session_id s.id) (counted amount env.now) db.sessions
        (λ t. closed-not_open k (t.cash_register.id == k)))

close_session-count :
    (k : ℕ) (env : Env) (s s' : CashSession) (amount : Option ℤ) (user : User) (db db' : Db)
    → close_session env s amount user db ≡ ok (s', db')
    → open_count k db' ≤ open_count k db
unfolding close_session
close_session-count k env s s' amount user db db' e =
    let (_, _, h₁) = >>=-eq-ok _ _ e in
    let (_, _, h₂) = >>=-eq-ok _ _ h₁ in
    let (total, _, h₃) = >>=-eq-ok _ _ h₂ in
    rw (← ap (λ p. p.1) (ok-injective h₃)) (
      shut-le k (has_session_id s.id)
        (closed_with (calculate_expected_closing_amount s db) total env.now user.id) db.sessions
        (λ t. closed-not_open k (t.cash_register.id == k)))

add_movement-count :
    (k : ℕ) (s : CashSession) (type : Direction) (concept : CashConcept) (amount : ℤ) (user : ℕ)
    (db db' : Db)
    → add_movement s type concept amount user db ≡ ok db'
    → open_count k db' ≡ open_count k db
unfolding add_movement
add_movement-count k s type concept amount user db db' e =
    let (_, _, h) = >>=-eq-ok _ _ e in rw (← ok-injective h)

Step-count : (k : ℕ) {db db' : Db} → Step db db' → open_count k db ≤ 1 → open_count k db' ≤ 1
Step-count k {db} {db'} (opens r user amount s e) h =
    open_session-count k r user amount s db db' h e
Step-count k {db} {db'} (submits env s s' amount user e) h =
    le_trans (submit_count-count k env s s' amount user db db' e) h
Step-count k {db} {db'} (closes env s s' amount user e) h =
    le_trans (close_session-count k env s s' amount user db db' e) h
Step-count k {db} {db'} (moves s type concept amount user e) h =
    rw (add_movement-count k s type concept amount user db db' e) h

-- If a register has at most one open shift, it has at most one after any sequence of opening,
-- counting, closing and cash movements, each of which ends before the next begins.
pub Reach-one_open :
    (k : ℕ) {db db' : Db} → open_count k db ≤ 1 → Reach db db' → open_count k db' ≤ 1
Reach-one_open k h here = h
Reach-one_open k h (next r s) = Step-count k s (Reach-one_open k h r)
