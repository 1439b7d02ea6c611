-- ===== src/Gym/Life.antt =====
-- The life of a membership: what each call and each run of the periodic task makes of one row.
use fivuza_backend.Prelude.{
  ℕ, suc, length, ◌≡◌, refl, ap, ◌∙◌, ℤ, Bool, true, false, ◌&&◌, Option, some, none, List, first,
  update_where, first-update_where, if◌then◌else◌, Bool-cases, inl, inr, ==-self, ◌⊎◌, true_of-not,
}
use fivuza_backend.Result.{ok, err, ◌>>=◌, date_out_of_range, raise_if-ok, >>=-eq-ok, ok-injective}
use fivuza_backend.Gym.Dates.{Date, moved, is_out, add_days, days_between}
use fivuza_backend.Gym.Memberships.{
  Membership, MembershipPlan, MembershipStatus, active, frozen, expired, cancelled, is_active,
  is_overdue, lapsed, is_renewable, PaymentMethod, Gym, has_id, create_membership, renew_membership,
  freeze_membership, unfreeze_membership, cancel_membership, expire_overdue_memberships, renewed,
  paused, resumed, ended, with_payment, saved,
}

-- The row that a run of the task leaves.
abbrev pub overtaken : Date → Membership → Membership
overtaken at m = if is_overdue at m then lapsed m else m

-- One call on a membership, or one run of the task, with the object and the tables before and after.
pub data Step : Membership × Gym → Membership × Gym → Type 0 where
  renews :
      {m : Membership} {g : Gym} {r : Membership × Gym} (today : Date) (user : ℕ)
      (amount : Option ℤ) (method : PaymentMethod)
      → renew_membership today m user amount method g ≡ ok r
      → Step (m, g) r
  freezes :
      {m : Membership} {g : Gym} {r : Membership × Gym} (today : Date) (user : ℕ)
      → freeze_membership today m user g ≡ ok r
      → Step (m, g) r
  unfreezes :
      {m : Membership} {g : Gym} {r : Membership × Gym} (today : Date) (user : ℕ)
      → unfreeze_membership today m user g ≡ ok r
      → Step (m, g) r
  cancels :
      {m : Membership} {g : Gym} {r : Membership × Gym} (user : ℕ)
      → cancel_membership m user g ≡ ok r
      → Step (m, g) r
  expires :
      {m : Membership} {g : Gym} (at : Date)
      → Step (m, g) (overtaken at m, (expire_overdue_memberships at g).1)

-- What can become of a membership after it is created.
pub data Life : Membership × Gym → Type 0 where
  created :
      {r : Membership × Gym} (customer : ℕ) (plan : MembershipPlan) (start : Date) (user : ℕ)
      (g : Gym)
      → create_membership customer plan start user g ≡ ok r
      → Life r
  next : {r r' : Membership × Gym} → Life r → Step r r' → Life r'

-- A frozen membership says since when, one that runs or has run out does not.
abbrev pub IsSince : MembershipStatus → Option Date → Type 0
IsSince active since = since ≡ none
IsSince expired since = since ≡ none
IsSince frozen since = (d : Date) × (since ≡ some d)
IsSince cancelled since = Unit

-- The row of the table is the object, and its columns agree.
pub record Sound (r : Membership × Gym) : Type 0 where
  pub row : first (has_id r.0.id) r.1.memberships ≡ some r.0
  pub since : IsSince r.0.status r.0.frozen_since

-- What a call saves is the row of the object that it returns.
row-saved :
    (f : Membership → Membership) (m : Membership) (ms : List Membership)
    → ((x : Membership) → (f x).id ≡ x.id)
    → first (has_id m.id) ms ≡ some m
    → first (has_id m.id) (update_where (has_id m.id) f ms) ≡ some (f m)
row-saved f m ms keeps h =
    first-update_where (has_id m.id) (has_id m.id) f (λ x. rw (keeps x)) ms m h
    ∙ ap (λ b. some (if b then f m else m)) (==-self m.id)

IsSince-renewed :
    (s : MembershipStatus) (d : Option Date) → is_renewable s ≡ true → IsSince s d → d ≡ none
IsSince-renewed active d e h = h
IsSince-renewed expired d e h = h
IsSince-renewed frozen d e h = cc
IsSince-renewed cancelled d e h = cc

IsSince-active :
    (s : MembershipStatus) (d : Option Date) → is_active s ≡ true → IsSince s d → d ≡ none
IsSince-active active d e h = h
IsSince-active expired d e h = h
IsSince-active frozen d e h = cc
IsSince-active cancelled d e h = cc

pub left_of : (a b : Bool) → (a && b) ≡ true → a ≡ true
left_of true b e = refl
left_of false b e = cc

IsSince-overtaken :
    (at : Date) (m : Membership)
    → IsSince m.status m.frozen_since
    → IsSince (overtaken at m).status (overtaken at m).frozen_since
IsSince-overtaken at m h = elim (Bool-cases (is_overdue at m)) [
  | inl e ↦ rw e (IsSince-active m.status m.frozen_since (left_of (is_active m.status) _ e) h)
  | inr e ↦ rw e h
]

overtaken-id : (at : Date) (m : Membership) → (overtaken at m).id ≡ m.id
overtaken-id at m = elim (Bool-cases (is_overdue at m)) [ inl e ↦ rw e refl | inr e ↦ rw e refl ]

paid_rows :
    (i : ℕ) (amount : Option ℤ) (method : PaymentMethod) (user : ℕ) (g : Gym)
    → (with_payment i amount method user g).memberships ≡ g.memberships
paid_rows i none method user g = refl
paid_rows i (some amount) method user g = refl

Step-Sound : (r r' : Membership × Gym) → Sound r → Step r r' → Sound r'
unfolding renew_membership freeze_membership unfreeze_membership cancel_membership
    expire_overdue_memberships
Step-Sound r r' h (renews {m = m} {g = g} today user amount method e) =
    let (_, e₁, h₁) = >>=-eq-ok _ _ e in
    let (end, _, h₂) = >>=-eq-ok _ _ h₁ in
    rw (← ok-injective h₂) record {
      row =
          rw (paid_rows m.id amount method user (saved m.id (renewed end) g))
            (row-saved (renewed end) m g.memberships (λ x. refl) h.row);
      since = IsSince-renewed m.status m.frozen_since (true_of-not _ (raise_if-ok _ _ e₁)) h.since;
    }
Step-Sound r r' h (freezes {m = m} {g = g} today user e) =
    let (_, _, h₁) = >>=-eq-ok _ _ e in
    rw (← ok-injective h₁) record {
      row = row-saved (paused today) m g.memberships (λ x. refl) h.row;
      since = (today, refl);
    }
Step-Sound r r' h (unfreezes {m = m} {g = g} today user e) =
    let (_, _, h₁) = >>=-eq-ok _ _ e in
    let (_, _, h₂) = >>=-eq-ok _ _ h₁ in
    let (end, _, h₃) = >>=-eq-ok _ _ h₂ in
    rw (← ok-injective h₃)
      record { row = row-saved (resumed end) m g.memberships (λ x. refl) h.row; since = refl }
Step-Sound r r' h (cancels {m = m} {g = g} user e) =
    let (_, _, h₁) = >>=-eq-ok _ _ e in
    rw (← ok-injective h₁)
      record { row = row-saved ended m g.memberships (λ x. refl) h.row; since = tt }
Step-Sound r r' h (expires {m = m} {g = g} at) = record {
  row =
      rw (overtaken-id at m)
        (first-update_where (has_id m.id) (is_overdue at) lapsed (λ x. refl) g.memberships m h.row);
  since = IsSince-overtaken at m h.since;
}

-- Whatever happens to a membership after it is created, the table's row of its key is the object
-- that the services hold, it says since when it is frozen if it is frozen, and says nothing of it
-- while it is active or expired.
pub Life-Sound : (r : Membership × Gym) → Life r → Sound r
unfolding create_membership
Life-Sound r (created customer plan start user g e) =
    let (_, _, h₁) = >>=-eq-ok _ _ e in
    rw (← ok-injective h₁)
      record { row = rw (==-self (suc (length g.memberships))) refl; since = refl }
Life-Sound r' (next {r = r} l s) = Step-Sound r r' (Life-Sound r l) s

add_days-or_out :
    (d : Date) (n : ℤ)
    → ((d' : Date) × (add_days d n ≡ ok d')) ⊎ (add_days d n ≡ err date_out_of_range)
unfolding add_days ◌>>=◌
add_days-or_out d n = elim (Bool-cases (is_out (moved n d))) [
  | inl e ↦ inr (rw e refl)
  | inr e ↦ inl (moved n d, rw e refl)
]

-- So an unfreeze of a frozen membership never subtracts from a missing date: it fails only if the
-- new end date leaves Python's calendar.
pub Life-unfreezes :
    (r : Membership × Gym) (today : Date) (user : ℕ)
    → Life r
    → r.0.status ≡ frozen
    → ((r' : Membership × Gym) × (unfreeze_membership today r.0 user r.1 ≡ ok r'))
      ⊎ (unfreeze_membership today r.0 user r.1 ≡ err date_out_of_range)
unfolding unfreeze_membership ◌>>=◌
Life-unfreezes r today user l e =
    let (from, is) = rw e at (Life-Sound r l).since in
    elim (add_days-or_out r.0.end_date (days_between today from)) [
      | inl (_, made) ↦ inl (rw (e, is, made) (_, refl))
      | inr out ↦ inr (rw (e, is, out) refl)
    ]
