-- ===== src/Prelude/Reverse.antt =====
-- Arrays read from the back: `reverse`, and the last entries as the first ones of the reversed array.
use Prim.Native.Nat.{ℕ, zero, suc, ◌-◌, ◌≤◌, ◌<◌}
use mathlib.Core.Path.{◌≡◌, refl, sym, ap, ◌∙◌}
use mathlib.Core.Logic.{◌⊎◌, inl, inr}
use mathlib.Core.Bool.{Bool}
use mathlib.Core.List.{List, [], ◌∷◌, ◌++◌, append-nil, append_assoc}
use mathlib.Core.Option.{Option, none, some}
use native.Mathlib.Omega.{arith}
use vps_manager_nodejs.Prelude.Tests.{Bool-cases}
use vps_manager_nodejs.Prelude.Lists.{
  All, length, take, drop, take_last, filterb, find, length-append,
}

le_or_lt : (m n : ℕ) → (m ≤ n) ⊎ (n < m)
le_or_lt m n = omega arith

module _ {ℓ} {A : Type ℓ} where
  abbrev pub reverse : List A → List A
  reverse [] = []
  reverse (x ∷ xs) = reverse xs ++ x ∷ []

  pub length-reverse : (xs : List A) → length (reverse xs) ≡ length xs
  length-reverse [] = refl
  length-reverse (x ∷ xs) = omega (arith, length-append (reverse xs) (x ∷ []), length-reverse xs)

  pub reverse-append : (xs ys : List A) → reverse (xs ++ ys) ≡ reverse ys ++ reverse xs
  reverse-append [] ys = sym (append-nil (reverse ys))
  reverse-append (x ∷ xs) ys =
      ap (λ r. r ++ x ∷ []) (reverse-append xs ys) ∙ append_assoc (reverse ys) (reverse xs) (x ∷ [])

  pub reverse-reverse : (xs : List A) → reverse (reverse xs) ≡ xs
  reverse-reverse [] = refl
  reverse-reverse (x ∷ xs) =
      reverse-append (reverse xs) (x ∷ []) ∙ ap (λ r. x ∷ r) (reverse-reverse xs)

  take-append_le : (n : ℕ) (xs ys : List A) → n ≤ length xs → take n (xs ++ ys) ≡ take n xs
  take-append_le zero xs ys short = refl
  take-append_le (suc n) [] ys short = elim short [ ]
  take-append_le (suc n) (x ∷ xs) ys short = ap (λ r. x ∷ r) (take-append_le n xs ys (omega arith))

  pub take-nil : (n : ℕ) → ◌≡◌ {A = List A} (take n []) []
  take-nil zero = refl
  take-nil (suc n) = refl

  pub take_all : (n : ℕ) (xs : List A) → length xs ≤ n → take n xs ≡ xs
  take_all zero [] long = refl
  take_all zero (x ∷ xs) long = elim long [ ]
  take_all (suc n) [] long = refl
  take_all (suc n) (x ∷ xs) long = ap (λ r. x ∷ r) (take_all n xs (omega arith))

  drop_none : (n : ℕ) → ◌≡◌ {A = List A} [] (take_last n [])
  drop_none n = let nothing : zero ≡ 0 - n = omega arith in ap (λ k. drop {A = A} k []) nothing

  pub reverse-take-reverse : (n : ℕ) (xs : List A) → reverse (take n (reverse xs)) ≡ take_last n xs
  reverse-take-reverse zero [] = refl
  reverse-take-reverse (suc n) [] = refl ∙ drop_none (suc n)
  reverse-take-reverse n (x ∷ xs) = elim (le_or_lt n (length xs)) [
    | inl short ↦
        let cut : suc (length xs - n) ≡ suc (length xs) - n = omega arith in
        ap reverse
          (take-append_le n (reverse xs) (x ∷ []) (omega (arith, length-reverse xs, short)))
        ∙ reverse-take-reverse n xs
        ∙ ap (λ k. drop k (x ∷ xs)) cut
    | inr long ↦
        let whole : zero ≡ suc (length xs) - n = omega arith in
        ap reverse (
          take_all n (reverse xs ++ x ∷ [])
            (omega (arith, length-append (reverse xs) (x ∷ []), length-reverse xs, long)))
        ∙ reverse-reverse (x ∷ xs)
        ∙ ap (λ k. drop k (x ∷ xs)) whole
  ]

  pub filterb-append :
      (p : A → Bool) (xs ys : List A) → filterb p (xs ++ ys) ≡ filterb p xs ++ filterb p ys
  filterb-append p [] ys = refl
  filterb-append p (x ∷ xs) ys = elim (Bool-cases (p x)) [
    | inl kept ↦ rw (kept, filterb-append p xs ys) refl
    | inr dropped ↦ rw (dropped, filterb-append p xs ys) refl
  ]

  pub filterb-reverse :
      (p : A → Bool) (xs : List A) → filterb p (reverse xs) ≡ reverse (filterb p xs)
  filterb-reverse p [] = refl
  filterb-reverse p (x ∷ xs) = filterb-append p (reverse xs) (x ∷ []) ∙ elim (Bool-cases (p x)) [
    | inl kept ↦ rw (kept, filterb-reverse p xs) refl
    | inr dropped ↦ rw (dropped, filterb-reverse p xs, append-nil (reverse (filterb p xs))) refl
  ]

  pub take_last_all : (n : ℕ) (xs : List A) → length xs ≤ n → take_last n xs ≡ xs
  take_last_all n xs short =
      let none_cut : length xs - n ≡ zero = omega arith in ap (λ k. drop k xs) none_cut

  abbrev pub first : List A → Option A
  first [] = none
  first (x ∷ xs) = some x

  pub find-filterb : (p : A → Bool) (xs : List A) → find p xs ≡ first (filterb p xs)
  find-filterb p [] = refl
  find-filterb p (x ∷ xs) = elim (Bool-cases (p x)) [
    | inl kept ↦ rw kept refl
    | inr dropped ↦ rw dropped (find-filterb p xs)
  ]

module _ {ℓ κ} {A : Type ℓ} (P : A → Type κ) where
  pub All-append : (xs ys : List A) → All P xs → All P ys → All P (xs ++ ys)
  All-append [] ys left right = right
  All-append (x ∷ xs) ys (holds, left) right = (holds, All-append xs ys left right)
