-- ===== src/Gym/Access.antt =====
-- gimnasio/services.py, AccessCheckService.check_access.
use fivuza_backend.Prelude.{Bool, true, false, not, ◌&&◌, Option, none, some, if◌then◌else◌}
use fivuza_backend.Gym.Dates.{Date, is_before}
use fivuza_backend.Gym.Memberships.{
  MembershipStatus, active, frozen, expired, cancelled, is_active, Membership,
}

pub data DenialReason : Type 0 where
  membership_frozen membership_expired membership_cancelled other_status : DenialReason

-- `_DENIAL_REASONS.get(status, status)`
abbrev pub denial_reason : MembershipStatus → DenialReason
denial_reason frozen = membership_frozen
denial_reason expired = membership_expired
denial_reason cancelled = membership_cancelled
denial_reason active = other_status

pub record Access : Type 0 where
  pub allowed : Bool
  pub reason : Option DenialReason

abbrev pub turned_away : DenialReason → Access
turned_away reason = record { allowed = false; reason = some reason }

unfoldable pub check_access : Membership → Date → Access
check_access m at =
    if is_active m.status && not (is_before m.end_date at)
    then record { allowed = true; reason = none }
    else if is_active m.status && is_before m.end_date at
    then turned_away membership_expired
    else turned_away (denial_reason m.status)
