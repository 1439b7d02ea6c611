-- ===== src/Credit/Limits.antt =====
-- No operation takes a customer over the credit limit, or a balance below zero.
use fivuza_backend.Prelude.{
  ℕ, ◌≡◌, refl, ℤ, pos, ◌+ℤ◌, ◌-ℤ◌, ◌≤ℤ◌, ltb_ℤ, true, false, Option, none, some, ◌==◌, arith,
  int_laws, ◌∙◌, if_self, inl, inr, Bool-cases, if◌then◌else◌, List, ◌∷◌, ◌&&◌,
}
use fivuza_backend.Result.{ok, insufficient_balance, >>=-eq-ok, raise_if-ok, ok-injective}
use fivuza_backend.Model.{Db}
use fivuza_backend.Model.Sales.{Customer, LedgerEntry, EntryType, debit, credit}
use fivuza_backend.Credit.{
  get_debt, get_balance, over_limit, register_credit_sale, register_balance_use, total_of, entry,
  same_type,
}

-- An entry counts for its own customer and side only.
pub total_of-entry :
    (t t' : EntryType) (c c' : ℕ) (s r : Option ℕ) (x : ℤ) (es : List LedgerEntry)
    → total_of t c (entry c' s r t' x ∷ es)
      ≡ (if (c' == c) && same_type t' t then x +ℤ total_of t c es else total_of t c es)
total_of-entry t t' c c' s r x es = elim (Bool-cases ((c' == c) && same_type t' t)) [
  | inl e ↦ rw e
  | inr e ↦ rw e (omega int_laws)
]

-- The sum of one side after an entry, for any customer.
total_after :
    (k c : ℕ) (s r : Option ℕ) (t : EntryType) (x : ℤ) (es : List LedgerEntry)
    → total_of t k (entry c s r t x ∷ es)
      ≡ (if c == k then total_of t k es +ℤ x else total_of t k es)
total_after k c s r t x es = elim (Bool-cases (c == k)) [
  | inl e ↦ rw (total_of-entry, e, same_type_self t) (omega int_laws)
  | inr e ↦ rw (total_of-entry, e)
]
  where
    same_type_self : (t : EntryType) → same_type t t ≡ true
    same_type_self debit = refl
    same_type_self credit = refl

-- The other side stays.
total_aside :
    (k c : ℕ) (s r : Option ℕ) (t t' : EntryType) (x : ℤ) (es : List LedgerEntry)
    → same_type t' t ≡ false
    → total_of t k (entry c s r t' x ∷ es) ≡ total_of t k es
total_aside k c s r t t' x es h = rw (total_of-entry, h) (ground arith)

-- The debt of every customer after a debit.
debt-debit :
    (k c : ℕ) (s r : Option ℕ) (x : ℤ) (db : Db)
    → get_debt k (record db { debts = entry c s r debit x ∷ db.debts })
      ≡ (if c == k then get_debt k db +ℤ x else get_debt k db)
unfolding get_debt
debt-debit k c s r x db =
    rw (total_after k c s r debit x db.debts, total_aside k c s r credit debit x db.debts refl)
      (elim (Bool-cases (c == k)) [ inl e ↦ rw e (omega int_laws) | inr e ↦ rw e ])

pub debt-credit :
    (k c : ℕ) (s r : Option ℕ) (x : ℤ) (db : Db)
    → get_debt k (record db { debts = entry c s r credit x ∷ db.debts })
      ≡ (if c == k then get_debt k db -ℤ x else get_debt k db)
unfolding get_debt
debt-credit k c s r x db =
    rw (total_after k c s r credit x db.debts, total_aside k c s r debit credit x db.debts refl)
      (elim (Bool-cases (c == k)) [ inl e ↦ rw e (omega int_laws) | inr e ↦ rw e ])

-- The balance of every customer after a debit, and after a credit.
balance-debit :
    (k c : ℕ) (s r : Option ℕ) (x : ℤ) (db : Db)
    → get_balance k (record db { balances = entry c s r debit x ∷ db.balances })
      ≡ (if c == k then get_balance k db -ℤ x else get_balance k db)
unfolding get_balance
balance-debit k c s r x db =
    rw
      (total_after k c s r debit x db.balances, total_aside k c s r credit debit x db.balances refl)
      (elim (Bool-cases (c == k)) [ inl e ↦ rw e (omega int_laws) | inr e ↦ rw e ])

pub balance-credit :
    (k c : ℕ) (s r : Option ℕ) (x : ℤ) (db : Db)
    → get_balance k (record db { balances = entry c s r credit x ∷ db.balances })
      ≡ (if c == k then get_balance k db +ℤ x else get_balance k db)
unfolding get_balance
balance-credit k c s r x db =
    rw
      (
        total_after k c s r credit x db.balances,
        total_aside k c s r debit credit x db.balances refl,
      )
      (elim (Bool-cases (c == k)) [ inl e ↦ rw e (omega int_laws) | inr e ↦ rw e ])

-- The test that guards the use of a balance.
le_of_ltb : (a b : ℤ) → ltb_ℤ a b ≡ false → b ≤ℤ a
le_of_ltb a b h = ground arith

-- What is lent is written down, is lent to no walk-in customer, and never takes the debt over the
-- customer's limit.
pub register_credit_sale_within :
    (c : Customer) (sale : ℕ) (x : ℤ) (db : Db) {db' : Db}
    → register_credit_sale c sale x db ≡ ok db'
    → (c.is_walk_in ≡ false)
      × (get_debt c.id db' ≡ get_debt c.id db +ℤ x)
      × (over_limit c.credit_limit (get_debt c.id db') ≡ false)
unfolding register_credit_sale
register_credit_sale_within c sale x db h =
    let (_, e₁, h₁) = >>=-eq-ok _ _ h in
    let (_, e₂, h₂) = >>=-eq-ok _ _ h₁ in
    let owed = debt-debit c.id c.id (some sale) none x db ∙ if_self c.id _ _ in
    rw (← ok-injective h₂) (raise_if-ok _ _ e₁, owed, rw owed (raise_if-ok _ _ e₂))

-- A balance is used by no walk-in customer and only as far as it goes; nobody else's balance
-- changes, so balances that are not negative stay so.
pub register_balance_use_within :
    (c : Customer) (sale : ℕ) (x : ℤ) (db : Db) {db' : Db}
    → register_balance_use c sale x db ≡ ok db'
    → (c.is_walk_in ≡ false)
      × (x ≤ℤ get_balance c.id db)
      × ((k : ℕ)
          → get_balance k db' ≡ (if c.id == k then get_balance k db -ℤ x else get_balance k db))
      × ((k : ℕ) → pos 0 ≤ℤ get_balance k db → pos 0 ≤ℤ get_balance k db')
unfolding register_balance_use
register_balance_use_within c sale x db h =
    let (_, e₁, h₁) = >>=-eq-ok _ _ h in
    let (_, e₂, h₂) = >>=-eq-ok _ _ h₁ in
    let covered = raise_if-ok (ltb_ℤ (get_balance c.id db) x) insufficient_balance e₂ in
    let spent : (k : ℕ)
        → pos 0 ≤ℤ get_balance k db
        → pos 0 ≤ℤ (if c.id == k then get_balance k db -ℤ x else get_balance k db) =
      λ k n. elim (Bool-cases (c.id == k)) [
        | inl e ↦
            let same : k ≡ c.id = ground arith in
            rw e (rw same (omega (int_laws, le_of_ltb (get_balance c.id db) x covered)))
        | inr e ↦ rw e n
      ] in
    let after = λ (k : ℕ). balance-debit k c.id (some sale) none x db in
    rw (← ok-injective h₂) (
      raise_if-ok _ _ e₁,
      le_of_ltb (get_balance c.id db) x covered,
      after,
      λ k nonneg. rw (after k) (spent k nonneg),
    )
