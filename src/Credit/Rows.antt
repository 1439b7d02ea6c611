-- ===== src/Credit/Rows.antt =====
-- The rows that an instalment finds and writes, in a table where each sale has its own key.
use fivuza_backend.Prelude.{
  ℕ, ◌≤◌, ◌≡◌, refl, ◌∙◌, Bool, true, false, some, List, [], ◌∷◌, ◌==◌, ==-self, All, first, select,
  update_where, count_where, count_where-update_where, if◌then◌else◌, Bool-cases, inl, inr, arith,
}
use fivuza_backend.Model.Sales.{Sale}
use fivuza_backend.Credit.{has_sale_id, insert_by_date, sort_by_date}

-- No two sales have one key.
abbrev pub OneEach : List Sale → Type 0
OneEach ss = (i : ℕ) → count_where (has_sale_id i) ss ≤ 1

abbrev pub Apart : List Sale → Type 0
Apart [] = Unit
Apart (s ∷ ss) = All (λ (u : Sale). (u.id == s.id) ≡ false) ss × Apart ss

none-of :
    (i : ℕ) (ss : List Sale)
    → count_where (has_sale_id i) ss ≤ 0
    → All (λ (u : Sale). (u.id == i) ≡ false) ss
none-of i [] h = tt
none-of i (u ∷ ss) h = elim (Bool-cases (u.id == i)) [
  | inl e ↦ absurd (omega (arith, rw e at h))
  | inr e ↦ (e, none-of i ss (omega (arith, rw e at h)))
]

OneEach-tail : (s : Sale) (ss : List Sale) → OneEach (s ∷ ss) → OneEach ss
OneEach-tail s ss h = λ i. elim (Bool-cases (s.id == i)) [
  | inl e ↦ omega (arith, rw e at (h i))
  | inr e ↦ omega (arith, rw e at (h i))
]

pub OneEach-Apart : (ss : List Sale) → OneEach ss → Apart ss
OneEach-Apart [] h = tt
OneEach-Apart (s ∷ ss) h = (
  none-of s.id ss (omega (arith, rw (==-self s.id) at (h s.id))),
  OneEach-Apart ss (OneEach-tail s ss h),
)

insert_by_date-count :
    (i : ℕ) (s : Sale) (ss : List Sale)
    → count_where (has_sale_id i) (insert_by_date s ss) ≡ count_where (has_sale_id i) (s ∷ ss)
insert_by_date-count i s [] = refl
insert_by_date-count i s (t ∷ ss) = ground (arith, insert_by_date-count i s ss)

pub sort_by_date-OneEach : (ss : List Sale) → OneEach ss → OneEach (sort_by_date ss)
sort_by_date-OneEach ss h = λ i. omega (arith, h i, sort_by_date-count i ss)
  where
    sort_by_date-count :
        (i : ℕ) (ss : List Sale)
        → count_where (has_sale_id i) (sort_by_date ss) ≡ count_where (has_sale_id i) ss
    sort_by_date-count i [] = refl
    sort_by_date-count i (s ∷ ss) =
        insert_by_date-count i s (sort_by_date ss) ∙ rw (sort_by_date-count i ss) refl

pub select-OneEach : (test : Sale → Bool) (ss : List Sale) → OneEach ss → OneEach (select test ss)
select-OneEach test ss h = λ i. omega (arith, h i, select-count i ss)
  where
    select-count :
        (i : ℕ) (ss : List Sale)
        → count_where (has_sale_id i) (select test ss) ≤ count_where (has_sale_id i) ss
    select-count i [] = omega arith
    select-count i (s ∷ ss) = elim (Bool-cases (test s)) [
      | inl e ↦ rw e (omega (arith, select-count i ss))
      | inr e ↦ rw e (omega (arith, select-count i ss))
    ]

-- Each sale of a table is the one that its key leads to.
abbrev pub IsFound : List Sale → Sale → Type 0
IsFound table s = first (has_sale_id s.id) table ≡ some s

IsFound-further :
    (x : Sale) (table us : List Sale)
    → All (λ (u : Sale). (u.id == x.id) ≡ false) us
    → All (IsFound table) us
    → All (IsFound (x ∷ table)) us
IsFound-further x table [] h f = tt
IsFound-further x table (u ∷ us) (h, hs) (f, fs) =
    let other : (x.id == u.id) ≡ false = ground (arith, h) in
    (rw other f, IsFound-further x table us hs fs)

pub All-IsFound : (table : List Sale) → Apart table → All (IsFound table) table
All-IsFound [] h = tt
All-IsFound (x ∷ table) (h, hs) =
    (rw (==-self x.id) refl, IsFound-further x table table h (All-IsFound table hs))

-- A row that is written, seen by the other keys and by its own.
pub first-written :
    (k : ℕ) (s t : Sale) (table : List Sale)
    → t.id ≡ s.id
    → IsFound table s
    → first (has_sale_id k) (update_where (has_sale_id t.id) (λ _. t) table)
      ≡ (if t.id == k then some t else first (has_sale_id k) table)
first-written k s t [] same h = cc
first-written k s t (x ∷ table) same h = elim (Bool-cases (x.id == t.id)) [
  | inl e ↦ elim (Bool-cases (t.id == k)) [
    | inl f ↦ rw (e, f) refl
    | inr f ↦
        let not_k : (x.id == k) ≡ false = ground (arith, e, f) in
        rw (e, f, not_k) (aside k t table f)
  ]
  | inr e ↦
      let other : (x.id == s.id) ≡ false = rw same at e in
      let rest = first-written k s t table same (rw other at h) in
      elim (Bool-cases (x.id == k)) [
        | inl f ↦ let not_k : (t.id == k) ≡ false = ground (arith, e, f) in rw (e, f, not_k) refl
        | inr f ↦ rw (e, f) rest
      ]
]
  where
    aside :
        (k : ℕ) (t : Sale) (table : List Sale)
        → (t.id == k) ≡ false
        → first (has_sale_id k) (update_where (has_sale_id t.id) (λ _. t) table)
          ≡ first (has_sale_id k) table
    aside k t [] h = refl
    aside k t (x ∷ table) h = elim (Bool-cases (x.id == t.id)) [
      | inl e ↦
          let not_k : (x.id == k) ≡ false = ground (arith, e, h) in
          rw (e, h, not_k) (aside k t table h)
      | inr e ↦ elim (Bool-cases (x.id == k)) [
        | inl f ↦ rw (e, f) refl
        | inr f ↦ rw (e, f) (aside k t table h)
      ]
    ]

pub written-OneEach :
    (t : Sale) (table : List Sale)
    → OneEach table
    → OneEach (update_where (has_sale_id t.id) (λ _. t) table)
written-OneEach t table h = λ i. omega (
  arith,
  h i,
  count_where-update_where (has_sale_id i) (has_sale_id t.id) (λ _. t) table (same i table),
)
  where
    same :
        (i : ℕ) (xs : List Sale)
        → All (λ x. has_sale_id t.id x ≡ true → has_sale_id i t ≡ true → has_sale_id i x ≡ true) xs
    same i [] = tt
    same i (x ∷ xs) = (λ e f. ground (arith, e, f), same i xs)

pub IsFound-written :
    (s t : Sale) (table us : List Sale)
    → t.id ≡ s.id
    → IsFound table s
    → All (λ (u : Sale). (u.id == s.id) ≡ false) us
    → All (IsFound table) us
    → All (IsFound (update_where (has_sale_id t.id) (λ _. t) table)) us
IsFound-written s t table [] same h apart all = tt
IsFound-written s t table (u ∷ us) same h (other, apart) (f, all) =
    let not_u : (t.id == u.id) ≡ false = ground (arith, other, same) in
    (
      first-written u.id s t table same h ∙ rw not_u f,
      IsFound-written s t table us same h apart all,
    )
