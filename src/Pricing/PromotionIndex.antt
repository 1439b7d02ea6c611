-- ===== src/Pricing/PromotionIndex.antt =====
-- The index that the catalogue builds in one pass finds the promotion that a sale applies.
use fivuza_backend.Prelude.{
  ℕ, ◌≡◌, refl, Bool, true, false, ◌||◌, Option, none, some, List, [], ◌∷◌, All, any, first, inl,
  inr, Bool-cases, ◌⊎◌, if◌then◌else◌, select, leb, Option-cases, ap, ◌∙◌,
}
use fivuza_backend.Model.{Db}
use fivuza_backend.Model.Inventory.{ProductVariant}
use fivuza_backend.Model.Sales.{Promotion, PromotionProduct}
use fivuza_backend.Pricing.{
  is_key, targets_variant, targets_category, active_promotions, or_else, resolve_active_promotion,
  Index, index_target, index_targets, index_promotions, build_active_promotion_index,
  indexed_promotion, insert_by_id, newest_first, is_active_at,
}

-- `PromotionProduct`: one of variant and category is filled, not both.
abbrev pub HasOneTarget : PromotionProduct → Type 0
HasOneTarget t = (t.variant ≡ none) ⊎ (t.category ≡ none)

abbrev pub OneTargets : Promotion → Type 0
OneTargets p = All HasOneTarget p.targets

insert_by_id-OneTargets :
    (p : Promotion) (ps : List Promotion)
    → OneTargets p
    → All OneTargets ps
    → All OneTargets (insert_by_id p ps)
insert_by_id-OneTargets p [] h hs = (h, tt)
insert_by_id-OneTargets p (q ∷ ps) h (k, ks) = elim (Bool-cases (leb q.id p.id)) [
  | inl e ↦ rw e (h, (k, ks))
  | inr e ↦ rw e (k, insert_by_id-OneTargets p ps h ks)
]

newest_first-OneTargets :
    (ps : List Promotion) → All OneTargets ps → All OneTargets (newest_first ps)
newest_first-OneTargets [] hs = tt
newest_first-OneTargets (p ∷ ps) (h, hs) =
    insert_by_id-OneTargets p (newest_first ps) h (newest_first-OneTargets ps hs)

select-OneTargets :
    (test : Promotion → Bool) (ps : List Promotion)
    → All OneTargets ps
    → All OneTargets (select test ps)
select-OneTargets test [] hs = tt
select-OneTargets test (p ∷ ps) (h, hs) = elim (Bool-cases (test p)) [
  | inl e ↦ rw e (h, select-OneTargets test ps hs)
  | inr e ↦ rw e (select-OneTargets test ps hs)
]

-- A key of the index after a target that names it, or does not.
abbrev pub default_if : Bool → Promotion → Option Promotion → Option Promotion
default_if b p o = if b then or_else o (some p) else o

default_if-both :
    (a b : Bool) (p : Promotion) (o : Option Promotion)
    → default_if b p (default_if a p o) ≡ default_if (a || b) p o
default_if-both true true p (some q) = refl
default_if-both true true p none = refl
default_if-both true false p o = refl
default_if-both false b p o = refl

or_else-default :
    (b : Bool) (p : Promotion) (o rest : Option Promotion)
    → or_else (default_if b p o) rest ≡ or_else o (if b then some p else rest)
or_else-default true p (some q) rest = refl
or_else-default true p none rest = refl
or_else-default false p o rest = refl

index_target_variant :
    (p : Promotion) (t : PromotionProduct) (index : Index × Index) (j : ℕ)
    → (index_target p t index).0 j ≡ default_if (is_key t.variant j) p (index.0 j)
index_target_variant p t index j = elim (Option-cases t.variant) [
  | inl e ↦ elim (Option-cases t.category) [
    | inl e' ↦ rw (e, e') refl
    | inr (c, e') ↦ rw (e, e') refl
  ]
  | inr (k, e) ↦ rw e refl
]

index_target_category :
    (p : Promotion) (t : PromotionProduct) (index : Index × Index) (j : ℕ)
    → HasOneTarget t
    → (index_target p t index).1 j ≡ default_if (is_key t.category j) p (index.1 j)
index_target_category p t index j (inl e) = elim (Option-cases t.category) [
  | inl e' ↦ rw (e, e') refl
  | inr (c, e') ↦ rw (e, e') refl
]
index_target_category p t index j (inr e) = elim (Option-cases t.variant) [
  | inl e' ↦ rw (e, e') refl
  | inr (k, e') ↦ rw (e, e') refl
]

index_targets_variant :
    (p : Promotion) (ts : List PromotionProduct) (index : Index × Index) (j : ℕ)
    → (index_targets p ts index).0 j
      ≡ default_if (any (λ (t : PromotionProduct). is_key t.variant j) ts) p (index.0 j)
index_targets_variant p [] index j = refl
index_targets_variant p (t ∷ ts) index j =
    index_targets_variant p ts (index_target p t index) j
    ∙ ap (default_if (any (λ (t : PromotionProduct). is_key t.variant j) ts) p)
        (index_target_variant p t index j)
    ∙ default_if-both (is_key t.variant j) _ p (index.0 j)

index_targets_category :
    (p : Promotion) (ts : List PromotionProduct) (index : Index × Index) (j : ℕ)
    → All HasOneTarget ts
    → (index_targets p ts index).1 j
      ≡ default_if (any (λ (t : PromotionProduct). is_key t.category j) ts) p (index.1 j)
index_targets_category p [] index j hs = refl
index_targets_category p (t ∷ ts) index j (h, hs) =
    index_targets_category p ts (index_target p t index) j hs
    ∙ ap (default_if (any (λ (t : PromotionProduct). is_key t.category j) ts) p)
        (index_target_category p t index j h)
    ∙ default_if-both (is_key t.category j) _ p (index.1 j)

index_promotions_variant :
    (ps : List Promotion) (index : Index × Index) (j : ℕ)
    → (index_promotions ps index).0 j ≡ or_else (index.0 j) (first (targets_variant j) ps)
index_promotions_variant [] index j = elim (Option-cases (index.0 j)) [
  | inl e ↦ rw e refl
  | inr (q, e) ↦ rw e refl
]
index_promotions_variant (p ∷ ps) index j =
    index_promotions_variant ps (index_targets p p.targets index) j
    ∙ ap (λ o. or_else o (first (targets_variant j) ps)) (index_targets_variant p p.targets index j)
    ∙ or_else-default (targets_variant j p) p (index.0 j) _

index_promotions_category :
    (ps : List Promotion) (index : Index × Index) (j : ℕ)
    → All OneTargets ps
    → (index_promotions ps index).1 j ≡ or_else (index.1 j) (first (targets_category j) ps)
index_promotions_category [] index j hs = elim (Option-cases (index.1 j)) [
  | inl e ↦ rw e refl
  | inr (q, e) ↦ rw e refl
]
index_promotions_category (p ∷ ps) index j (h, hs) =
    index_promotions_category ps (index_targets p p.targets index) j hs
    ∙ ap (λ o. or_else o (first (targets_category j) ps))
        (index_targets_category p p.targets index j h)
    ∙ or_else-default (targets_category j p) p (index.1 j) _

-- If each target of a promotion names a variant or a category and not both, then the promotion that
-- the catalogue shows for a variant by its index is the one that a sale of the variant applies.
pub indexed_promotion_lem :
    (now : ℕ) (db : Db) (v : ProductVariant)
    → All OneTargets db.promotions
    → indexed_promotion (build_active_promotion_index now db) v ≡ resolve_active_promotion v now db
unfolding build_active_promotion_index resolve_active_promotion
indexed_promotion_lem now db v hs =
    let active = active_promotions now db in
    let one = select-OneTargets (is_active_at now) _ (newest_first-OneTargets db.promotions hs) in
    rw
      (
        index_promotions_variant active (λ _. none, λ _. none) v.id,
        index_promotions_category active (λ _. none, λ _. none) v.category one,
      )
      refl
