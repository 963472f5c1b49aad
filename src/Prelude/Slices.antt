-- ===== src/Prelude/Slices.antt =====
-- Slices of lists.
use Prim.Native.Nat.{ℕ, zero, suc, ◌+◌, ◌≤◌, ◌<◌}
use mathlib.Core.Path.{◌≡◌, refl, sym, ap, ◌∙◌}
use mathlib.Core.Logic.{◌⊎◌, inl, inr}
use mathlib.Core.List.{List, [], ◌∷◌, ◌++◌}
use native.Mathlib.Omega.{arith}
use mcp_persist.Prelude.Lists.{length, take, drop}

pub take_all : {A : Type 0} (n : ℕ) (xs : List A) → length xs ≤ n → take n xs ≡ xs
take_all zero [] h = refl
take_all zero (x ∷ xs) h = ground arith
take_all (suc n) [] h = refl
take_all (suc n) (x ∷ xs) h = ap (λ ys. x ∷ ys) (take_all n xs (omega (arith, h)))

pub take_first : {A : Type 0} (n : ℕ) (xs ys : List A) → length xs ≡ n → take n (xs ++ ys) ≡ xs
take_first zero [] ys h = refl
take_first zero (x ∷ xs) ys h = ground arith
take_first (suc n) [] ys h = ground arith
take_first (suc n) (x ∷ xs) ys h = ap (λ ys. x ∷ ys) (take_first n xs ys (omega (arith, h)))

pub take-drop : {A : Type 0} (n : ℕ) (xs : List A) → take n xs ++ drop n xs ≡ xs
take-drop zero xs = refl
take-drop (suc n) [] = refl
take-drop (suc n) (x ∷ xs) = ap (λ ys. x ∷ ys) (take-drop n xs)

drop_nil : {A : Type 0} (n : ℕ) → drop {A = A} n [] ≡ []
drop_nil zero = refl
drop_nil (suc n) = refl

pub drop-drop : {A : Type 0} (a b : ℕ) (xs : List A) → drop (a + b) xs ≡ drop b (drop a xs)
drop-drop zero b xs = ground arith
drop-drop (suc a) b [] = drop_nil (suc a + b) ∙ sym (drop_nil b)
drop-drop (suc a) b (x ∷ xs) =
    let same : suc a + b ≡ suc (a + b) = omega arith in
    ap (λ n. drop n (x ∷ xs)) same ∙ drop-drop a b xs

pub take_short : {A : Type 0} (n : ℕ) (xs : List A) → length (take n xs) < n → take n xs ≡ xs
take_short zero xs h = ground (arith, h)
take_short (suc n) [] h = refl
take_short (suc n) (x ∷ xs) h = ap (λ ys. x ∷ ys) (take_short n xs (omega (arith, h)))

pub take_enough :
    {A : Type 0} (n : ℕ) (xs ys : List A) → n ≤ length (take n xs) → take n (xs ++ ys) ≡ take n xs
take_enough zero xs ys h = refl
take_enough (suc n) [] ys h = ground (arith, h)
take_enough (suc n) (x ∷ xs) ys h = ap (λ zs. x ∷ zs) (take_enough n xs ys (omega (arith, h)))

length-drop-le : {A : Type 0} (n : ℕ) (xs : List A) → length (drop n xs) ≤ length xs
length-drop-le zero xs = omega arith
length-drop-le (suc n) [] = omega arith
length-drop-le (suc n) (x ∷ xs) = omega (arith, length-drop-le n xs)

-- A page is empty at the end only, and else there is less behind it.
pub page-cases :
    {A : Type 0} (n : ℕ) (xs : List A)
    → ((take (suc n) xs ≡ []) × (xs ≡ []))
      ⊎ ((m : A) × (ms : List A) × (take (suc n) xs ≡ m ∷ ms)
          × (length (drop (suc n) xs) < length xs))
page-cases n [] = inl (refl, refl)
page-cases n (x ∷ xs) = inr (x, take n xs, refl, omega (arith, length-drop-le n xs))
