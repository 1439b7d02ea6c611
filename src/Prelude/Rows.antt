-- ===== src/Prelude/Rows.antt =====
-- Rows that are counted, found by a key, and updated.
use Prim.Native.Nat.{◌≤◌}
use mathlib.Core.Path.{◌≡◌, refl}
use mathlib.Core.Logic.{inl, inr}
use mathlib.Core.Bool.{Bool, true}
use mathlib.Core.Option.{some}
use mathlib.Core.List.{List, [], ◌∷◌}
use native.Mathlib.Omega.{arith}
use fivuza_backend.Prelude.Tests.{Bool-cases}
use fivuza_backend.Prelude.Lists.{All, any, first, update_where, count_where}

module _ {ℓ} {A : Type ℓ} (test hit : A → Bool) (f : A → A) where
  -- An update that makes no row pass a test makes no more rows pass.
  pub count_where-update_where :
      (xs : List A)
      → All (λ x. hit x ≡ true → test (f x) ≡ true → test x ≡ true) xs
      → count_where test (update_where hit f xs) ≤ count_where test xs
  count_where-update_where [] h = omega arith
  count_where-update_where (x ∷ xs) (h, hs) = elim (Bool-cases (hit x)) [
    | inl e ↦ rw e (
        let rest = count_where-update_where xs hs in
        elim (Bool-cases (test (f x))) [
          | inl t ↦ rw (t, h e t) (omega (arith, rest))
          | inr t ↦ rw t (omega (arith, rest))
        ])
    | inr e ↦ rw e (omega (arith, count_where-update_where xs hs))
  ]

  pub count_where-kept :
      ((x : A) → test (f x) ≡ test x)
      → (xs : List A) → count_where test (update_where hit f xs) ≡ count_where test xs
  count_where-kept keeps [] = refl
  count_where-kept keeps (x ∷ xs) = elim (Bool-cases (hit x)) [
    | inl e ↦ rw (e, keeps x, count_where-kept keeps xs) refl
    | inr e ↦ rw (e, count_where-kept keeps xs) refl
  ]

module _ {ℓ} {A : Type ℓ} (test : A → Bool) where
  none-counted :
      (P : A → Type 0) (xs : List A) → count_where test xs ≡ 0 → All (λ x. test x ≡ true → P x) xs
  none-counted P [] h = tt
  none-counted P (x ∷ xs) h = elim (Bool-cases (test x)) [
    | inl e ↦ absurd (omega (arith, rw e at h))
    | inr e ↦ (λ t. cc, none-counted P xs (omega (arith, rw e at h)))
  ]

  -- The row that is found is the only one.
  pub first-only :
      (P : A → Type 0) (a : A) (xs : List A)
      → count_where test xs ≤ 1
      → first test xs ≡ some a
      → P a
      → All (λ x. test x ≡ true → P x) xs
  first-only P a [] le h p = tt
  first-only P a (x ∷ xs) le h p = elim (Bool-cases (test x)) [
    | inl e ↦
        let same : some x ≡ some a = rw e at h in
        let it : x ≡ a = cc in (λ t. rw it p, none-counted P xs (omega (arith, rw e at le)))
    | inr e ↦ (λ t. cc, first-only P a xs (omega (arith, rw e at le)) (rw e at h) p)
  ]

  pub first-passes : (a : A) (xs : List A) → first test xs ≡ some a → test a ≡ true
  first-passes a [] h = cc
  first-passes a (x ∷ xs) h = elim (Bool-cases (test x)) [
    | inl e ↦ let same : some x ≡ some a = rw e at h in let it : x ≡ a = cc in rw (← it) e
    | inr e ↦ first-passes a xs (rw e at h)
  ]

  pub first-All : (P : A → Type 0) (a : A) (xs : List A) → All P xs → first test xs ≡ some a → P a
  first-All P a [] h e = cc
  first-All P a (x ∷ xs) (h, hs) e = elim (Bool-cases (test x)) [
    | inl t ↦ let same : some x ≡ some a = rw t at e in let it : x ≡ a = cc in rw (← it) h
    | inr t ↦ first-All P a xs hs (rw t at e)
  ]

  pub any-first : (xs : List A) → any test xs ≡ true → (a : A) × (first test xs ≡ some a)
  any-first [] h = cc
  any-first (x ∷ xs) h = elim (Bool-cases (test x)) [
    | inl e ↦ (x, rw e refl)
    | inr e ↦ let (a, found) = any-first xs (rw e at h) in (a, rw e found)
  ]

  -- An update that leaves a test as it is.
  pub any-update_where :
      (hit : A → Bool) (f : A → A) (xs : List A)
      → ((x : A) → test (f x) ≡ test x)
      → any test (update_where hit f xs) ≡ any test xs
  any-update_where hit f [] keeps = refl
  any-update_where hit f (x ∷ xs) keeps = elim (Bool-cases (hit x)) [
    | inl e ↦ rw (e, keeps x, any-update_where hit f xs keeps) refl
    | inr e ↦ rw (e, any-update_where hit f xs keeps) refl
  ]
