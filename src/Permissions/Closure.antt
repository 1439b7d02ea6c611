-- ===== src/Permissions/Closure.antt =====
-- The fixpoint of the implied permissions is reached, and is the least one above the user's own.
use fivuza_backend.Prelude.{
  ℕ, suc, ◌≡◌, refl, Bool, true, ◌&&◌, ◌||◌, some, List, [], ◌∷◌, ◌++◌, inl, inr, Bool-cases,
  if◌then◌else◌, arith,
}
use fivuza_backend.Model.{Db}
use fivuza_backend.Model.Users.{Code, code_eq, User}
use fivuza_backend.Permissions.{
  contains, subset, imply, expand, closure, resolve_codes, override, role_codes,
}

pub contains-append :
    (c : Code) (xs ys : List Code) → contains c (xs ++ ys) ≡ contains c xs || contains c ys
contains-append c [] ys = refl
contains-append c (x ∷ xs) ys = ground (arith, contains-append c xs ys)

contains-imply :
    (c k : Code) (implied codes : List Code)
    → contains c (imply k implied codes)
      ≡ contains c codes || (contains k codes && contains c implied)
contains-imply c k implied codes = elim (Bool-cases (contains k codes)) [
  | inl e ↦ rw (e, contains-append c implied codes) (ground arith)
  | inr e ↦ rw e (ground arith)
]

subset-of :
    (a b : List Code) → ((c : Code) → contains c a ≡ true → contains c b ≡ true) → subset a b ≡ true
subset-of [] b h = refl
subset-of (x ∷ a) b h = rw (h x (ground arith)) (subset-of a b (λ c e. h c (ground arith)))

-- What one round holds.
abbrev pub implied_by : Code → List Code → Bool
implied_by c own =
    contains c own
    || (contains Code.cash_manage own
        && contains c (Code.cash_open ∷ Code.cash_close ∷ Code.cash_submit_count ∷ []))
    || (contains Code.cash_close own && contains c (Code.cash_submit_count ∷ []))

contains-expand : (c : Code) (own : List Code) → contains c (expand own) ≡ implied_by c own
contains-expand c own =
    rw (contains-imply c, contains-imply c, contains-imply Code.cash_close) (ground arith)

implied_twice : (c : Code) (own : List Code) → implied_by c (expand own) ≡ implied_by c own
implied_twice c own =
    rw
      (
        contains-expand c own,
        contains-expand Code.cash_manage own,
        contains-expand Code.cash_close own,
      )
      (ground arith)

-- A second round adds nothing,
subset-expand : (own : List Code) → subset (expand (expand own)) (expand own) ≡ true
subset-expand own = subset-of (expand (expand own)) (expand own) (λ c e.
    rw (contains-expand c own) (rw (contains-expand c (expand own), implied_twice c own) at e))

-- so two rounds end the loop, with the codes or with their expansion.
closure_two :
    (n : ℕ) (own : List Code)
    → closure (suc (suc n)) own ≡ some (if subset (expand own) own then own else expand own)
unfolding closure
closure_two n own = elim (Bool-cases (subset (expand own) own)) [
  | inl e ↦ rw e
  | inr e ↦ rw (e, subset-expand own)
]

same-contains :
    (x c : Code) (b : List Code) → code_eq x c ≡ true → contains x b ≡ true → contains c b ≡ true
same-contains x c [] e h = cc
same-contains x c (d ∷ b) e h = ground (arith, same-contains x c b e)

subset-contains :
    (a b : List Code) (c : Code) → subset a b ≡ true → contains c a ≡ true → contains c b ≡ true
subset-contains [] b c h m = cc
subset-contains (x ∷ a) b c h m = ground (arith, same-contains x c b, subset-contains a b c)

-- The user's codes are those of the role and the overrides, with what they imply and nothing else:
-- cash_manage implies cash_open, cash_close and cash_submit_count, and cash_close implies
-- cash_submit_count.
pub resolve_codes_lem :
    (u : User) (db : Db) (c : Code)
    → contains c (resolve_codes u db)
      ≡ implied_by c (override u.id db.user_permissions (role_codes u.role.id db.role_permissions))
unfolding resolve_codes
resolve_codes_lem u db c =
    let own = override u.id db.user_permissions (role_codes u.role.id db.role_permissions) in
    rw (closure_two 2 own) (elim (Bool-cases (subset (expand own) own)) [
      | inl e ↦ rw e (ground (arith, contains-expand c own, subset-contains (expand own) own c e))
      | inr e ↦ rw e (contains-expand c own)
    ])
