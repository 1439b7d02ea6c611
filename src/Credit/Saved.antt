-- ===== src/Credit/Saved.antt =====
-- What the table of sales is after the rows of an instalment are saved.
use fivuza_backend.Prelude.{
  ℕ, ◌≡◌, refl, sym, ap, ◌∙◌, ℤ, pos, ◌+ℤ◌, ◌-ℤ◌, Bool, true, false, Option, none, some, List, [],
  ◌∷◌, ◌==◌, All, first, update_where, if◌then◌else◌, Bool-cases, inl, inr, arith, int_laws,
}
use fivuza_backend.Model.Sales.{Sale}
use fivuza_backend.Credit.{has_sale_id, save_sales}
use fivuza_backend.Credit.Settling.{OldestFirst, paid_off}
use fivuza_backend.Credit.Rows.{
  OneEach, Apart, IsFound, OneEach-Apart, first-written, written-OneEach, IsFound-written,
}
use fivuza_backend.Credit.Owed.{owed, part_of, written-owed, settled-part}

abbrev pub or_else : Option Sale → Option Sale → Option Sale
or_else (some s) _ = some s
or_else none o = o

settled-away :
    (i : ℕ) (ss ts : List Sale)
    → All (λ (u : Sale). (u.id == i) ≡ false) ss
    → OldestFirst ss ts
    → first (has_sale_id i) ts ≡ none
settled-away i ss [] away h = refl
settled-away i [] (t ∷ ts) away h = elim h [ ]
settled-away i (s ∷ ss) (t ∷ ts) (other, away) (kept, _, _, _, _, rest) =
    let key : t.id ≡ s.id = ap (λ x. x.id) kept in rw (key, other) (settled-away i ss ts away rest)

-- A saved row is found by its key, and every other key finds what it found.
pub save_sales-first :
    (k : ℕ) (ss ts table : List Sale)
    → Apart ss
    → All (IsFound table) ss
    → OldestFirst ss ts
    → first (has_sale_id k) (save_sales ts table)
      ≡ or_else (first (has_sale_id k) ts) (first (has_sale_id k) table)
save_sales-first k ss [] table apart found h = refl
save_sales-first k [] (t ∷ ts) table apart found h = elim h [ ]
save_sales-first k (s ∷ ss) (t ∷ ts) table (away, apart) (here_, found) (kept, _, _, _, _, rest) =
    let key : t.id ≡ s.id = ap (λ x. x.id) kept in
    let ih =
      save_sales-first k ss ts (update_where (has_sale_id t.id) (λ _. t) table) apart
        (IsFound-written s t table ss key here_ away found) rest in
    let written = first-written k s t table key here_ in
    elim (Bool-cases (t.id == k)) [
      | inl e ↦
          let same : k ≡ s.id = ground (arith, e, key) in
          let not_later : first (has_sale_id k) ts ≡ none =
            rw same (settled-away s.id ss ts away rest) in
          ih ∙ rw (not_later, written, e) refl
      | inr e ↦ ih ∙ rw (written, e) refl
    ]

add_up : (a q d part before : ℤ) → (a +ℤ q) +ℤ (part +ℤ d) ≡ before +ℤ part → a +ℤ (d +ℤ q) ≡ before
add_up a q d part before h = spread ∙ ap (λ z. z -ℤ part) h ∙ cancelled
  where
    spread : a +ℤ (d +ℤ q) ≡ ((a +ℤ q) +ℤ (part +ℤ d)) -ℤ part
    spread = omega int_laws

    cancelled : (before +ℤ part) -ℤ part ≡ before
    cancelled = omega int_laws

-- What the customer's sales had open is what they have open and what was paid off; the other
-- customers' sales have open what they had.
pub save_sales-owed :
    (c k : ℕ) (ss ts table : List Sale)
    → OneEach table
    → Apart ss
    → All (IsFound table) ss
    → All (λ (s : Sale). s.customer.id ≡ c) ss
    → OldestFirst ss ts
    → owed k (save_sales ts table) +ℤ (if c == k then paid_off ss ts else pos 0) ≡ owed k table
save_sales-owed c k ss [] table one apart found mine h = elim (Bool-cases (c == k)) [
  | inl e ↦ rw e (omega int_laws)
  | inr e ↦ rw e (omega int_laws)
]
save_sales-owed c k [] (t ∷ ts) table one apart found mine h = elim h [ ]
save_sales-owed c k (s ∷ ss) (t ∷ ts) table one (away, apart) (here_, found) (mine, all_mine)
      (kept, more, within, _, _, rest) =
    let key : t.id ≡ s.id = ap (λ x. x.id) kept in
    let table' = update_where (has_sale_id t.id) (λ _. t) table in
    let ih =
      save_sales-owed c k ss ts table' (written-OneEach t table one) apart
        (IsFound-written s t table ss key here_ away found) all_mine rest in
    let written = written-owed k t.id s t table (OneEach-Apart table one) (rw key here_) in
    let part = settled-part c k s t mine kept more within in
    let all =
      ap
        (λ z.
          z
          +ℤ (part_of k t
              +ℤ (if c == k then t.credit_settled_amount -ℤ s.credit_settled_amount else pos 0)))
        ih
      ∙ ap (λ z. owed k table' +ℤ z) (sym part)
      ∙ written in
    let sum =
      add_up (owed k (save_sales ts table')) (if c == k then paid_off ss ts else pos 0)
        (if c == k then t.credit_settled_amount -ℤ s.credit_settled_amount else pos 0) (part_of k t)
        (owed k table) all in
    ap (λ z. owed k (save_sales ts table') +ℤ z) (joined (c == k)) ∙ sum
  where
    joined :
        (b : Bool)
        → (if b
            then (t.credit_settled_amount -ℤ s.credit_settled_amount) +ℤ paid_off ss ts
            else pos 0)
          ≡ (if b then t.credit_settled_amount -ℤ s.credit_settled_amount else pos 0)
            +ℤ (if b then paid_off ss ts else pos 0)
    joined true = refl
    joined false = omega int_laws
