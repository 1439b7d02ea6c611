-- ===== src/Prelude/Lists.antt =====
-- Lists: length by native numbers, a predicate on all members, Boolean search and filtering.
use Prim.Native.Nat.{ℕ, suc, ◌+◌}
use mathlib.Core.Path.{◌≡◌, refl, ap}
use mathlib.Core.Logic.{◌⊎◌, inl, inr}
use mathlib.Core.Bool.{Bool, ◌&&◌, ◌||◌, true, false}
use mathlib.Core.Option.{Option, none, some}
use mathlib.Core.List.{List, [], ◌∷◌, ◌++◌}
use native.Mathlib.Omega.{arith}
use fivuza_backend.Prelude.Tests.{if◌then◌else◌, Bool-cases}

-- A member of a list.
abbrev pub In : {A : Type 0} → A → List A → Type 0
In x [] = ⊥
In x (y ∷ ys) = (x ≡ y) ⊎ In x ys

pub In-append : {A : Type 0} (x : A) (xs ys : List A) → In x xs → In x (xs ++ ys)
In-append x [] ys h = absurd h
In-append x (y ∷ xs) ys (inl e) = inl e
In-append x (y ∷ xs) ys (inr h) = inr (In-append x xs ys h)

pub In-last : {A : Type 0} (x : A) (xs : List A) → In x (xs ++ (x ∷ []))
In-last x [] = inl refl
In-last x (y ∷ xs) = inr (In-last x xs)

module _ {ℓ} {A : Type ℓ} where
  pub append_nil : (xs : List A) → xs ≡ xs ++ []
  append_nil [] = refl
  append_nil (x ∷ xs) = ap (λ ys. x ∷ ys) (append_nil xs)

  pub append_one : (xs ys : List A) (x : A) → (xs ++ (x ∷ [])) ++ ys ≡ xs ++ (x ∷ ys)
  append_one [] ys x = refl
  append_one (z ∷ xs) ys x = ap (λ zs. z ∷ zs) (append_one xs ys x)

  abbrev pub length : List A → ℕ
  length [] = 0
  length (_ ∷ xs) = suc (length xs)

  pub length-append : (xs ys : List A) → length (xs ++ ys) ≡ length xs + length ys
  length-append [] ys = omega arith
  length-append (x ∷ xs) ys = omega (arith, length-append xs ys)

  abbrev pub All {κ} : (A → Type κ) → List A → Type κ
  All P [] = Unit
  All P (x ∷ xs) = P x × All P xs

  pub All-append {κ} : (P : A → Type κ) (xs ys : List A) → All P xs → All P ys → All P (xs ++ ys)
  All-append P [] ys _ q = q
  All-append P (x ∷ xs) ys (p, ps) q = (p, All-append P xs ys ps q)

  -- Python's `any(test(x) for x in xs)`, the `exists` of a query set.
  abbrev pub any : (A → Bool) → List A → Bool
  any test [] = false
  any test (x ∷ xs) = test x || any test xs

  abbrev pub all : (A → Bool) → List A → Bool
  all test [] = true
  all test (x ∷ xs) = test x && all test xs

  -- The rows of a query set: `objects.filter(...)`.
  abbrev pub select : (A → Bool) → List A → List A
  select test [] = []
  select test (x ∷ xs) = if test x then x ∷ select test xs else select test xs

  -- `objects.filter(...).first()`
  abbrev pub first : (A → Bool) → List A → Option A
  first test [] = none
  first test (x ∷ xs) = if test x then some x else first test xs

  -- `objects.filter(...).update(...)`
  abbrev pub update_where : (A → Bool) → (A → A) → List A → List A
  update_where test f [] = []
  update_where test f (x ∷ xs) = (if test x then f x else x) ∷ update_where test f xs

  pub length-update_where :
      (test : A → Bool) (f : A → A) (xs : List A) → length (update_where test f xs) ≡ length xs
  length-update_where test f [] = refl
  length-update_where test f (x ∷ xs) = omega (arith, length-update_where test f xs)

  -- `objects.filter(...).count()`
  abbrev pub count_where : (A → Bool) → List A → ℕ
  count_where test [] = 0
  count_where test (x ∷ xs) = (if test x then 1 else 0) + count_where test xs

  pub count_where-append :
      (test : A → Bool) (xs ys : List A)
      → count_where test (xs ++ ys) ≡ count_where test xs + count_where test ys
  count_where-append test [] ys = omega arith
  count_where-append test (x ∷ xs) ys = omega (arith, count_where-append test xs ys)

  -- An update that leaves a test as it is.
  pub first-update_where :
      (test hit : A → Bool) (f : A → A)
      → ((x : A) → test (f x) ≡ test x)
      → (xs : List A) (a : A) → first test xs ≡ some a
      → first test (update_where hit f xs) ≡ some (if hit a then f a else a)
  first-update_where test hit f keeps [] a h = cc
  first-update_where test hit f keeps (x ∷ xs) a h = elim (Bool-cases (test x)) [
    | inl e ↦ let same : some x ≡ some a = rw e at h in rw (kept (hit x), e) (moved same)
    | inr e ↦ rw (kept (hit x), e) (first-update_where test hit f keeps xs a (rw e at h))
  ]
    where
      kept : (b : Bool) → test (if b then f x else x) ≡ test x
      kept true = keeps x
      kept false = refl

      moved : some x ≡ some a → some (if hit x then f x else x) ≡ some (if hit a then f a else a)
      moved same = let it : x ≡ a = cc in rw it
