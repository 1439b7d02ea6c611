-- ===== src/Prelude/Keys.antt =====
-- Tables whose keys are given in sequence, from 1.
use Prim.Native.Nat.{ℕ, suc, ◌≤◌}
use mathlib.Core.Path.{◌≡◌, refl, ap}
use mathlib.Core.Logic.{inl, inr}
use mathlib.Core.Bool.{Bool, true, false}
use mathlib.Core.List.{List, [], ◌∷◌}
use native.Mathlib.Omega.{arith}
use fivuza_backend.Prelude.Tests.{if◌then◌else◌, Bool-cases, ◌==◌}
use fivuza_backend.Prelude.Lists.{All, length, update_where, length-update_where, count_where}
use fivuza_backend.Prelude.Rows.{count_where-kept}

module _ {ℓ} {A : Type ℓ} (key : A → ℕ) where
  abbrev pub has_key : ℕ → A → Bool
  has_key i x = key x == i

  -- No key is above the number of rows, and none is there twice.
  pub record Keyed (xs : List A) : Type ℓ where
    pub known : All (λ x. key x ≤ length xs) xs
    pub single : (i : ℕ) → count_where (has_key i) xs ≤ 1

  pub Keyed-nil : Keyed []
  Keyed-nil = record { known = tt; single = λ i. omega arith }

  All-further : (n : ℕ) (xs : List A) → All (λ x. key x ≤ n) xs → All (λ x. key x ≤ suc n) xs
  All-further n [] h = tt
  All-further n (x ∷ xs) (h, hs) = (omega (arith, h), All-further n xs hs)

  none_above :
      (n : ℕ) (xs : List A) → All (λ x. key x ≤ n) xs → count_where (has_key (suc n)) xs ≡ 0
  none_above n [] h = refl
  none_above n (x ∷ xs) (h, hs) = ground (arith, none_above n xs hs)

  -- A new row with the next key.
  pub Keyed-cons : (x : A) (xs : List A) → key x ≡ suc (length xs) → Keyed xs → Keyed (x ∷ xs)
  Keyed-cons x xs e h = record {
    known = (omega (arith, e), All-further (length xs) xs h.known);
    single = λ i. elim (Bool-cases (key x == i)) [
      | inl same ↦
          let it : suc (length xs) ≡ i = ground (arith, e) in
          let counts = ap (λ n. count_where (has_key n) xs) it in
          rw same (omega (arith, counts, none_above (length xs) xs h.known))
      | inr other ↦ rw other (omega (arith, h.single i))
    ];
  }

  All-kept :
      (n : ℕ) (hit : A → Bool) (f : A → A) (xs : List A)
      → ((x : A) → key (f x) ≡ key x)
      → All (λ x. key x ≤ n) xs
      → All (λ x. key x ≤ n) (update_where hit f xs)
  All-kept n hit f [] keeps h = tt
  All-kept n hit f (x ∷ xs) keeps (h, hs) = (kept (hit x), All-kept n hit f xs keeps hs)
    where
      kept : (b : Bool) → key (if b then f x else x) ≤ n
      kept true = omega (arith, h, keeps x)
      kept false = h

  -- A write that leaves the keys.
  pub Keyed-update_where :
      (hit : A → Bool) (f : A → A) (xs : List A)
      → ((x : A) → key (f x) ≡ key x)
      → Keyed xs
      → Keyed (update_where hit f xs)
  Keyed-update_where hit f xs keeps h = record {
    known = rw (length-update_where hit f xs) (All-kept (length xs) hit f xs keeps h.known);
    single = λ i.
        rw (count_where-kept (has_key i) hit f (λ x. ap (λ k. k == i) (keeps x)) xs) (h.single i);
  }
