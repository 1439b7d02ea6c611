-- ===== src/Cash/Closing.antt =====
-- The end of a shift: what the count is compared with, and that an ended shift stays ended.
use fivuza_backend.Prelude.{
  ℕ, ◌≡◌, ℤ, ◌+ℤ◌, ◌-ℤ◌, true, ◌||◌, inl, inr, Option, none, some, List, [], ◌∷◌, first,
  update_where, first-update_where, ==-self, refl, ◌∙◌, ◌⊎◌, Bool, false, arith, int_laws, ap, sym,
  Bool-cases, true_of-not, ◌≢◌, ◌==◌, if◌then◌else◌,
}
use fivuza_backend.Result.{
  ok, err, cash_session_not_owned, >>=-eq-ok, raise_if-ok, ok-injective, cash_session_not_open,
}
use fivuza_backend.Model.{Db}
use fivuza_backend.Model.Users.{Code, User}
use fivuza_backend.Permissions.{check_permission}
use fivuza_backend.Cash.Ownership.{sellable_by-owner_id}
use fivuza_backend.Cash.Till.{in_till, expected-in_till}
use fivuza_backend.Model.Sales.{CashSession, SessionStatus, Direction, inflow, outflow, CashConcept}
use fivuza_backend.Authorization.{Env}
use fivuza_backend.Cash.{
  is_open, is_pending_approval, or_counted, has_session_id, closed_with, sellable_by,
  has_cash_close, owner_id, close_session, submit_count, add_movement,
  calculate_expected_closing_amount, assert_can_close,
}

others :
    (k i : ℕ) (f : CashSession → CashSession) (xs : List CashSession)
    → ((x : CashSession) → (f x).id ≡ x.id)
    → (i == k) ≡ false
    → first (has_session_id k) (update_where (has_session_id i) f xs) ≡ first (has_session_id k) xs
others k i f [] keeps h = refl
others k i f (x ∷ xs) keeps h = elim (Bool-cases (x.id == i)) [
  | inl e ↦
      let not_k : (x.id == k) ≡ false = ground (arith, e, h) in
      rw (e, keeps x, not_k, others k i f xs keeps h) refl
  | inr e ↦ rw (e, others k i f xs keeps h) refl
]

-- A write to the row of a shift, seen by every key.
written :
    (k : ℕ) (s : CashSession) (f : CashSession → CashSession) (xs : List CashSession)
    → ((x : CashSession) → (f x).id ≡ x.id)
    → first (has_session_id s.id) xs ≡ some s
    → first (has_session_id k) (update_where (has_session_id s.id) f xs)
      ≡ (if s.id == k then some (f s) else first (has_session_id k) xs)
written k s f xs keeps there = elim (Bool-cases (s.id == k)) [
  | inl e ↦
      let it : k ≡ s.id = ground (arith, e) in
      rw (e, it)
        (first-update_where (has_session_id s.id) (has_session_id s.id) f (λ x. rw (keeps x) refl)
            xs s there
          ∙ rw (==-self s.id) refl)
  | inr e ↦ rw e (others k s.id f xs keeps e)
]

-- A cash movement changes what the till is expected to hold by its amount, in or out, and only that
-- of its own shift.
pub add_movement-expected :
    (s t : CashSession) (type : Direction) (concept : CashConcept) (x : ℤ) (user : ℕ) (db : Db)
    {db' : Db}
    → add_movement s type concept x user db ≡ ok db'
    → calculate_expected_closing_amount t db' ≡ (
        if s.id == t.id
        then (elim type [
          | inflow ↦ calculate_expected_closing_amount t db +ℤ x
          | outflow ↦ calculate_expected_closing_amount t db -ℤ x
        ])
        else calculate_expected_closing_amount t db)
unfolding add_movement calculate_expected_closing_amount
add_movement-expected s t inflow concept x user db h =
    let (_, _, h₁) = >>=-eq-ok _ _ h in
    rw (← ok-injective h₁) (elim (Bool-cases (s.id == t.id)) [
      | inl e ↦ rw e (omega int_laws)
      | inr e ↦ rw e (omega int_laws)
    ])
add_movement-expected s t outflow concept x user db h =
    let (_, _, h₁) = >>=-eq-ok _ _ h in
    rw (← ok-injective h₁) (elim (Bool-cases (s.id == t.id)) [
      | inl e ↦ rw e (omega int_laws)
      | inr e ↦ rw e (omega int_laws)
    ])

counted_or :
    (amount stored : Option ℤ) {total : ℤ}
    → or_counted amount stored ≡ ok total
    → (amount ≡ some total) ⊎ ((amount ≡ none) × (stored ≡ some total))
counted_or (some x) stored h = inl (ap some (ok-injective h))
counted_or none (some x) h = inr (refl, ap some (ok-injective h))
counted_or none none h = cc

may_close :
    (user : User) (s : CashSession) (db : Db)
    → assert_can_close s user db ≡ ok tt
    → (sellable_by user s || check_permission user Code.cash_close db) ≡ true
unfolding assert_can_close
may_close user s db h =
    rw (sellable_by-owner_id user s) (by_tests (owner_id s == user.id) (has_cash_close user db) h)
  where
    by_tests :
        (a b : Bool)
        → (if a then ok tt else if b then ok tt else err cash_session_not_owned) ≡ ok (tt {0})
        → (a || b) ≡ true
    by_tests true b h = refl
    by_tests false true h = refl
    by_tests false false h = cc

-- A shift of the table that was closed was open or counted, by someone to whom the till offers it or
-- who has CASH_CLOSE. Its count is the one given now or, with none, the one before. What was expected is
-- the opening amount, the cash payments of the sales of the shift, and what was put in less what was
-- taken out; the difference is what the count exceeds that by. The row is written so, and every other
-- shift is as it was.
pub close_session_ends :
    (env : Env) (s : CashSession) (amount : Option ℤ) (user : User) (db : Db) {s' : CashSession}
    {db' : Db}
    → first (has_session_id s.id) db.sessions ≡ some s
    → close_session env s amount user db ≡ ok (s', db')
    → (total : ℤ) × ((sellable_by user s || check_permission user Code.cash_close db) ≡ true)
      × ((is_open s.status || is_pending_approval s.status) ≡ true)
      × ((amount ≡ some total) ⊎ ((amount ≡ none) × (s.counted_closing_amount ≡ some total)))
      × (s' ≡ record s {
        expected_closing_amount = some (in_till s db);
        counted_closing_amount = some total;
        difference = some (total -ℤ in_till s db);
        status = SessionStatus.closed;
        closing_at = some env.now;
        approved_by = some user.id;
      })
      × ((k : ℕ)
          → first (has_session_id k) db'.sessions
            ≡ (if s.id == k then some s' else first (has_session_id k) db.sessions))
unfolding close_session
close_session_ends env s amount user db there h =
    let (_, e₁, h₁) = >>=-eq-ok _ _ h in
    let (_, e₂, h₂) = >>=-eq-ok _ _ h₁ in
    let (total, e₃, h₃) = >>=-eq-ok _ _ h₂ in
    let e = ok-injective h₃ in
    (
      total,
      may_close user s db e₁,
      true_of-not _ (raise_if-ok _ _ e₂),
      counted_or amount s.counted_closing_amount e₃,
      sym (ap (λ r. r.0) e)
          ∙ ap (λ x. closed_with x total env.now user.id s) (expected-in_till s db),
      λ k.
          ap (λ r. first (has_session_id k) r.1.sessions) (sym e)
          ∙ written k s (closed_with (calculate_expected_closing_amount s db) total env.now user.id)
              db.sessions (λ x. refl) there
          ∙ ap (λ r. if s.id == k then some r.0 else first (has_session_id k) db.sessions) e,
    )

-- A closed shift stays closed: it is neither counted nor closed again, and takes no cash movement.
closed_refuses :
    (env : Env) (s : CashSession) (amount : Option ℤ) (total x : ℤ) (user : User) (type : Direction)
    (concept : CashConcept) (db : Db)
    → s.status ≡ SessionStatus.closed
    → ((r : CashSession × Db) → close_session env s amount user db ≢ ok r)
      × ((r : CashSession × Db) → submit_count env s total user db ≢ ok r)
      × ((r : Db) → add_movement s type concept x user.id db ≢ ok r)
unfolding close_session submit_count add_movement
closed_refuses env s amount total x user type concept db e = (
  λ r h.
      let (_, _, h₁) = >>=-eq-ok _ _ h in let (_, e₂, _) = >>=-eq-ok _ _ h₁ in refused (rw e at e₂),
  λ r h.
      let (_, _, h₁) = >>=-eq-ok _ _ h in
      let (_, _, h₂) = >>=-eq-ok _ _ h₁ in
      let (_, e₃, _) = >>=-eq-ok _ _ h₂ in refused (rw e at e₃),
  λ r h. let (_, e₁, _) = >>=-eq-ok _ _ h in refused (rw e at e₁),
)
  where
    refused : {u : Unit {0}} → err cash_session_not_open ≡ ok u → ⊥
    refused h = cc
