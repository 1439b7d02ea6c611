-- ===== src/Sales/Shelves.antt =====
-- What the loop on the lines takes from the stocks of its warehouse.
use fivuza_backend.Prelude.{
  ℕ, suc, ◌≡◌, refl, sym, ap, ◌∙◌, ℤ, pos, ◌+ℤ◌, ◌-ℤ◌, Bool, true, false, ◌&&◌, List, [], ◌∷◌, ◌==◌,
  if◌then◌else◌, Bool-cases, inl, inr, arith, int_laws, length, All,
}
use fivuza_backend.Result.{ok, >>=-eq-ok, ok-injective}
use fivuza_backend.Model.{Db}
use fivuza_backend.Model.Inventory.{Stock}
use fivuza_backend.Inventory.{quantity_in}
use fivuza_backend.Inventory.Kardex.{adjust_stock-stores}
use fivuza_backend.Sales.Lines.{PreparedLine}
use fivuza_backend.Sales.Create.{record_lines, detail_of, sold}

-- The quantity of one variant in the lines.
abbrev pub sold_of : ℕ → List PreparedLine → ℤ
sold_of v [] = pos 0
sold_of v (p ∷ ps) = (if p.variant.id == v then p.quantity else pos 0) +ℤ sold_of v ps

abbrev pub Lacks : ℕ → List PreparedLine → Type 0
Lacks v ps = All (λ (p : PreparedLine). (p.variant.id == v) ≡ false) ps

abbrev pub Apart : List PreparedLine → Type 0
Apart [] = Unit
Apart (p ∷ ps) = Lacks p.variant.id ps × Apart ps

-- Each line has read the stock.
abbrev pub Reads : ℕ → List Stock → List PreparedLine → Type 0
Reads w stocks ps =
    All (λ (p : PreparedLine). p.current_quantity ≡ quantity_in stocks p.variant.id w) ps

pub sold_of-Lacks : (v : ℕ) (ps : List PreparedLine) → Lacks v ps → sold_of v ps ≡ pos 0
sold_of-Lacks v [] h = refl
sold_of-Lacks v (p ∷ ps) (h, hs) = rw (h, sold_of-Lacks v ps hs) (omega int_laws)

-- A write at another variant is not read.
Reads-aside :
    (w v : ℕ) (stocks stocks' : List Stock) (ps : List PreparedLine)
    → ((u : ℕ) → (v == u) ≡ false → quantity_in stocks' u w ≡ quantity_in stocks u w)
    → Lacks v ps
    → Reads w stocks ps
    → Reads w stocks' ps
Reads-aside w v stocks stocks' [] same h r = tt
Reads-aside w v stocks stocks' (p ∷ ps) same (h, hs) (r, rs) =
    (r ∙ sym (same p.variant.id (ground arith)), Reads-aside w v stocks stocks' ps same hs rs)

-- The stock of one variant after its line, and after the lines that lack it.
delivered_step :
    (b w_is : Bool) (x current q rest : ℤ)
    → (b ≡ true → rest ≡ pos 0)
    → (b ≡ true → w_is ≡ true → current ≡ x)
    → (if b && w_is then current -ℤ q else x) -ℤ (if w_is then rest else pos 0)
      ≡ x -ℤ (if w_is then (if b then q else pos 0) +ℤ rest else pos 0)
delivered_step true true x current q rest z c = rw (z refl, c refl refl) (omega int_laws)
delivered_step true false x current q rest z c = refl
delivered_step false true x current q rest z c = omega int_laws
delivered_step false false x current q rest z c = refl

-- The loop takes the quantities of the lines from the stocks of its warehouse.
pub record_lines-delivers :
    (user sale w : ℕ) (ps : List PreparedLine) (db : Db) {db' : Db}
    → Apart ps
    → Reads w db.stocks ps
    → record_lines user sale w ps db ≡ ok db'
    → (v k : ℕ)
    → quantity_in db'.stocks v k
      ≡ quantity_in db.stocks v k -ℤ (if w == k then sold_of v ps else pos 0)
unfolding record_lines
record_lines-delivers user sale w [] db a r h v k =
    rw (← ok-injective h)
      (elim (Bool-cases (w == k)) [ inl e ↦ rw e (omega int_laws) | inr e ↦ rw e (omega int_laws) ])
record_lines-delivers user sale w (p ∷ ps) db (lacks, a) (reads, r) h v k =
    let db₀ : Db = record db {
      details = detail_of (suc (length db.details)) sale p ∷ db.details;
    } in
    let ((m, db₁), e₁, h₁) = >>=-eq-ok _ _ h in
    let now = adjust_stock-stores (sold user w p) db₀ e₁ in
    let r₁ =
      Reads-aside w p.variant.id db.stocks db₁.stocks ps (λ u other. now u w ∙ rw other refl) lacks
        r in
    record_lines-delivers user sale w ps db₁ a r₁ h₁ v k
    ∙ ap (λ x. x -ℤ (if w == k then sold_of v ps else pos 0)) (now v k)
    ∙ delivered_step (p.variant.id == v) (w == k) (quantity_in db.stocks v k) p.current_quantity
        p.quantity (sold_of v ps)
        (λ e.
          let same : v ≡ p.variant.id = ground arith in
          rw same (sold_of-Lacks p.variant.id ps lacks))
        (λ e f. let same : (v ≡ p.variant.id) × (k ≡ w) = ground arith in rw (same.0, same.1) reads)
