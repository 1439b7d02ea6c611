-- ===== src/Gym/Memberships.antt =====
-- gimnasio/services.py, MembershipService, MembershipGroupService and AccessCheckService.
use fivuza_backend.Prelude.{
  ℕ, suc, ℤ, Bool, true, false, not, ◌&&◌, Option, none, some, List, [], ◌∷◌, ◌==◌, ltb, length,
  update_where, count_where, if◌then◌else◌,
}
use fivuza_backend.Result.{
  Result, ok, err, ◌>>=◌, ◌>>◌, raise_if, type_error, membership_not_active, membership_not_frozen,
  membership_not_renewable, membership_already_cancelled, membership_group_too_small,
}
use fivuza_backend.Model.Users.{Action, AuditLog}
use fivuza_backend.Inventory.{logged}
use fivuza_backend.Gym.Dates.{Date, Periodicity, is_before, add_days, add_period, days_between}

pub data MembershipStatus : Type 0 where
  active frozen expired cancelled : MembershipStatus

abbrev pub is_active : MembershipStatus → Bool
is_active active = true
is_active _ = false

abbrev pub is_frozen : MembershipStatus → Bool
is_frozen frozen = true
is_frozen _ = false

abbrev pub is_cancelled : MembershipStatus → Bool
is_cancelled cancelled = true
is_cancelled _ = false

-- `status in ("ACTIVE", "EXPIRED")`
abbrev pub is_renewable : MembershipStatus → Bool
is_renewable active = true
is_renewable expired = true
is_renewable _ = false

pub record MembershipPlan : Type 0 where
  pub id : ℕ
  pub price : ℤ
  pub periodicity : Periodicity

pub record Membership : Type 0 where
  pub id : ℕ
  pub customer : ℕ
  pub plan : MembershipPlan
  pub start_date : Date
  pub end_date : Date
  pub status : MembershipStatus
  pub frozen_since : Option Date
  pub group : Option ℕ

pub data PaymentMethod : Type 0 where
  cash card yape : PaymentMethod

pub record MembershipPayment : Type 0 where
  pub membership : ℕ
  pub amount : ℤ
  pub method : PaymentMethod
  pub user : ℕ

pub record MembershipGroup : Type 0 where
  pub id : ℕ
  pub holder_customer : ℕ

pub record Gym : Type 0 where
  pub memberships : List Membership
  pub payments : List MembershipPayment
  pub groups : List MembershipGroup
  pub log : List AuditLog

abbrev pub has_id : ℕ → Membership → Bool
has_id i m = m.id == i

-- `membership.save(update_fields=[…])`: the fields that `f` sets, in the row of that key.
abbrev pub saved : ℕ → (Membership → Membership) → Gym → Gym
saved i f g = record g { memberships = update_where (has_id i) f g.memberships }

-- `_audit`
abbrev pub audited : ℕ → Action → ℕ → Gym → Gym
audited user action i g = record g { log = logged user action i g.log }

unfoldable pub create_membership : ℕ → MembershipPlan → Date → ℕ → Gym → Result (Membership × Gym)
create_membership customer plan start user g = do
  end ← add_period start plan.periodicity
  let m : Membership = record {
    id = suc (length g.memberships);
    customer = customer;
    plan = plan;
    start_date = start;
    end_date = end;
    status = active;
    frozen_since = none;
    group = none;
  }
  ok (m, audited user Action.membership_created m.id (record g { memberships = m ∷ g.memberships }))

-- What a renewal is counted from: the end date, or today if it has passed.
abbrev pub renewal_base : Date → Date → Date
renewal_base today end = if not (is_before end today) then end else today

abbrev pub renewed : Date → Membership → Membership
renewed end m = record m { end_date = end; status = active }

abbrev pub with_payment : ℕ → Option ℤ → PaymentMethod → ℕ → Gym → Gym
with_payment i none method user g = g
with_payment i (some amount) method user g = record g {
  payments = record { membership = i; amount = amount; method = method; user = user } ∷ g.payments;
}

unfoldable pub renew_membership :
    Date → Membership → ℕ → Option ℤ → PaymentMethod → Gym → Result (Membership × Gym)
renew_membership today m user amount method g = do
  raise_if (not (is_renewable m.status)) membership_not_renewable
  end ← add_period (renewal_base today m.end_date) m.plan.periodicity
  ok (
    renewed end m,
    audited user Action.membership_renewed m.id
        (with_payment m.id amount method user (saved m.id (renewed end) g)),
  )

abbrev pub paused : Date → Membership → Membership
paused today m = record m { status = frozen; frozen_since = some today }

unfoldable pub freeze_membership : Date → Membership → ℕ → Gym → Result (Membership × Gym)
freeze_membership today m user g = do
  raise_if (not (is_active m.status)) membership_not_active
  ok (paused today m, audited user Action.membership_frozen m.id (saved m.id (paused today) g))

-- `localdate() - None` is a `TypeError`.
abbrev pub since : Option Date → Result Date
since (some d) = ok d
since none = err type_error

abbrev pub resumed : Date → Membership → Membership
resumed end m = record m { end_date = end; status = active; frozen_since = none }

unfoldable pub unfreeze_membership : Date → Membership → ℕ → Gym → Result (Membership × Gym)
unfreeze_membership today m user g = do
  raise_if (not (is_frozen m.status)) membership_not_frozen
  from ← since m.frozen_since
  end ← add_days m.end_date (days_between today from)
  ok (resumed end m, audited user Action.membership_unfrozen m.id (saved m.id (resumed end) g))

abbrev pub ended : Membership → Membership
ended m = record m { status = cancelled }

unfoldable pub cancel_membership : Membership → ℕ → Gym → Result (Membership × Gym)
cancel_membership m user g = do
  raise_if (is_cancelled m.status) membership_already_cancelled
  ok (ended m, audited user Action.membership_cancelled m.id (saved m.id ended g))

-- `filter(status="ACTIVE", end_date__lt=at)`
abbrev pub is_overdue : Date → Membership → Bool
is_overdue at m = is_active m.status && is_before m.end_date at

abbrev pub lapsed : Membership → Membership
lapsed m = record m { status = expired }

-- The rows that it expires, and how many they are.
unfoldable pub expire_overdue_memberships : Date → Gym → ℕ × Gym
expire_overdue_memberships at g = (
  count_where (is_overdue at) g.memberships,
  record g { memberships = update_where (is_overdue at) lapsed g.memberships },
)

abbrev pub grouped : ℕ → Membership → Membership
grouped i m = record m { group = some i }

abbrev pub join : ℕ → List Membership → Gym → Gym
join i [] g = g
join i (m ∷ ms) g = join i ms (saved m.id (grouped i) g)

unfoldable pub create_group : ℕ → List Membership → Gym → Result (MembershipGroup × Gym)
create_group holder ms g = do
  raise_if (ltb (length ms) 2) membership_group_too_small
  let made : MembershipGroup = record { id = suc (length g.groups); holder_customer = holder }
  ok (made, join made.id ms (record g { groups = made ∷ g.groups }))
