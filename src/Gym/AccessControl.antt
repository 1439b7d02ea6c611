-- ===== src/Gym/AccessControl.antt =====
-- Access to the gym while the periodic task has not run yet.
use fivuza_backend.Prelude.{
  ℕ, ◌+◌, ◌≡◌, refl, Bool, true, false, not, ◌&&◌, Bool-cases, inl, inr, List, [], ◌∷◌, count_where,
  update_where, arith,
}
use fivuza_backend.Gym.Dates.{Date, is_before}
use fivuza_backend.Gym.Memberships.{
  Membership, is_active, is_overdue, lapsed, Gym, expire_overdue_memberships,
}
use fivuza_backend.Gym.Access.{check_access}
use fivuza_backend.Gym.Life.{overtaken, left_of}

no_rest : (b : Bool) → (b && not b) ≡ false
no_rest true = refl
no_rest false = refl

-- Access does not depend on whether the task has run that day: the answer on a row, its reason
-- included, is the answer on what the task makes of the row.
pub check_access-overtaken :
    (m : Membership) (at : Date) → check_access (overtaken at m) at ≡ check_access m at
unfolding check_access
check_access-overtaken m at = elim (Bool-cases (is_active m.status)) [
  | inl a ↦ elim (Bool-cases (is_before m.end_date at)) [
    | inl b ↦ rw (a, b) refl
    | inr b ↦ rw (a, b, a, b) refl
  ]
  | inr a ↦ rw (a, a) refl
]

abbrev pub active_count : List Membership → ℕ
active_count ms = count_where (λ m. is_active m.status) ms

-- What a run of the task leaves to another run of that day.
record Settled (at : Date) (before : List Membership) (n : ℕ) (after : List Membership)
    : Type 0 where
  pub none_left : count_where (is_overdue at) after ≡ 0
  pub counted : active_count after + n ≡ active_count before

Settled-update :
    (at : Date) (ms : List Membership)
    → Settled at ms (count_where (is_overdue at) ms) (update_where (is_overdue at) lapsed ms)
Settled-update at [] = record { none_left = refl; counted = refl }
Settled-update at (m ∷ ms) =
    let rest = Settled-update at ms in
    elim (Bool-cases (is_overdue at m)) [
      | inl e ↦
          let act = left_of (is_active m.status) _ e in
          rw e record {
            none_left = omega (arith, rest.none_left);
            counted = rw act (omega (arith, rest.counted));
          }
      | inr e ↦ rw e record {
        none_left = rw e (omega (arith, rest.none_left));
        counted = omega (arith, rest.counted);
      }
    ]

unchanged :
    (at : Date) (ms : List Membership)
    → count_where (is_overdue at) ms ≡ 0
    → update_where (is_overdue at) lapsed ms ≡ ms
unchanged at [] h = refl
unchanged at (m ∷ ms) h = elim (Bool-cases (is_overdue at m)) [
  | inl e ↦ absurd (omega (arith, rw e at h))
  | inr e ↦ rw (e, unchanged at ms (omega (arith, rw e at h))) refl
]

-- A run of the task expires as many rows as it says, all of them active before, and leaves no active
-- row whose end date has passed: another run that day finds none and writes nothing.
pub expire_overdue_memberships-Settled :
    (at : Date) (g : Gym)
    → (active_count (expire_overdue_memberships at g).1.memberships
          + (expire_overdue_memberships at g).0
        ≡ active_count g.memberships)
      × (expire_overdue_memberships at (expire_overdue_memberships at g).1
          ≡ (0, (expire_overdue_memberships at g).1))
unfolding expire_overdue_memberships
expire_overdue_memberships-Settled at g =
    let s = Settled-update at g.memberships in
    (s.counted, rw (s.none_left, unchanged at _ s.none_left) refl)
