-- ===== src/Prelude/Lists.antt =====
-- Lists measured by native numbers and filtered by Boolean tests, under the library's names.
use Prim.Native.Nat.{ℕ, zero, suc, ◌+◌, ◌≤◌}
use mathlib.Core.Path.{◌≡◌, refl}
use mathlib.Core.Logic.{◌⊎◌, inl, inr}
use mathlib.Core.Bool.{Bool, true, false, ◌&&◌}
use mathlib.Core.List.{List, [], ◌∷◌, ◌++◌}
use mathlib.Core.Option.{Option, none, some}
use native.Mathlib.Omega.{arith}
use mcp_persist.Prelude.Tests.{if◌then◌else◌}

module _ {ℓ} {A : Type ℓ} where
  abbrev pub length : List A → ℕ
  length [] = 0
  length (x ∷ xs) = suc (length xs)

  abbrev pub take : ℕ → List A → List A
  take zero xs = []
  take (suc n) [] = []
  take (suc n) (x ∷ xs) = x ∷ take n xs

  abbrev pub drop : ℕ → List A → List A
  drop zero xs = xs
  drop (suc n) [] = []
  drop (suc n) (x ∷ xs) = drop n xs

  -- The elements that pass the test, in order.
  abbrev pub filter : (A → Bool) → List A → List A
  filter p [] = []
  filter p (x ∷ xs) = if p x then x ∷ filter p xs else filter p xs

  abbrev pub any : (A → Bool) → List A → Bool
  any p [] = false
  any p (x ∷ xs) = if p x then true else any p xs

  abbrev pub find? : (A → Bool) → List A → Option A
  find? p [] = none
  find? p (x ∷ xs) = if p x then some x else find? p xs

  pub length-append : (xs ys : List A) → length (xs ++ ys) ≡ length xs + length ys
  length-append [] ys = omega arith
  length-append (x ∷ xs) ys = omega (arith, length-append xs ys)

  pub length-filter-le : (p : A → Bool) (xs : List A) → length (filter p xs) ≤ length xs
  length-filter-le p [] = omega arith
  length-filter-le p (x ∷ xs) = ground (arith, length-filter-le p xs)

  pub filter-append :
      (p : A → Bool) (xs ys : List A) → filter p (xs ++ ys) ≡ filter p xs ++ filter p ys
  filter-append p [] ys = refl
  filter-append p (x ∷ xs) ys = ground (arith, filter-append p xs ys)

  pub filter-filter :
      (p q : A → Bool) (xs : List A) → filter p (filter q xs) ≡ filter (λ x. q x && p x) xs
  filter-filter p q [] = refl
  filter-filter p q (x ∷ xs) = ground (arith, filter-filter p q xs)

  -- A test that the first implies makes no difference to it.
  pub filter-filter_absorb :
      (p q : A → Bool)
      → ((x : A) → p x ≡ true → q x ≡ true)
      → (xs : List A) → filter p (filter q xs) ≡ filter p xs
  filter-filter_absorb p q h [] = refl
  filter-filter_absorb p q h (x ∷ xs) = ground (arith, h x, filter-filter_absorb p q h xs)

  -- Two tests that agree keep the same elements.
  pub filter_ext :
      (p q : A → Bool) → ((x : A) → p x ≡ q x) → (xs : List A) → filter p xs ≡ filter q xs
  filter_ext p q h [] = refl
  filter_ext p q h (x ∷ xs) = ground (arith, h x, filter_ext p q h xs)

-- `Every P xs`: all elements satisfy `P`; a tuple at a concrete list.
abbrev pub Every {ℓ κ} : {A : Type ℓ} → (A → Type κ) → List A → Type κ
Every P [] = Unit
Every P (x ∷ xs) = P x × Every P xs

-- `Elem x xs`: where `x` stands in `xs`.
abbrev pub Elem {ℓ} : {A : Type ℓ} → A → List A → Type ℓ
Elem x [] = Unit × ⊥
Elem x (y ∷ ys) = (x ≡ y) ⊎ Elem x ys

module _ {ℓ κ} {A : Type ℓ} (P : A → Type κ) where
  pub Every-append : (xs ys : List A) → Every P xs → Every P ys → Every P (xs ++ ys)
  Every-append [] ys h k = k
  Every-append (x ∷ xs) ys h k = (h.0, Every-append xs ys h.1 k)

  pub Every-filter : (p : A → Bool) (xs : List A) → Every P xs → Every P (filter p xs)
  Every-filter p [] h = tt
  Every-filter p (x ∷ xs) h =
      elim (p x) as (λ b. Every P (if b then x ∷ filter p xs else filter p xs)) [
        | true ↦ (h.0, Every-filter p xs h.1)
        | false ↦ Every-filter p xs h.1
      ]

pub Every-mono {ℓ κ ν} :
    {A : Type ℓ} (P : A → Type κ) (Q : A → Type ν) (xs : List A)
    → ((x : A) → P x → Q x)
    → Every P xs
    → Every Q xs
Every-mono P Q [] f h = tt
Every-mono P Q (x ∷ xs) f h = (f x h.0, Every-mono P Q xs f h.1)

module _ {ℓ κ} {A : Type ℓ} {B : Type κ} where
  -- The values that `f` yields, in order.
  abbrev pub filter_map : (A → Option B) → List A → List B
  filter_map f [] = []
  filter_map f (x ∷ xs) = elim (f x) [ none ↦ filter_map f xs | some y ↦ y ∷ filter_map f xs ]

  pub filter_map-append :
      (f : A → Option B) (xs ys : List A)
      → filter_map f (xs ++ ys) ≡ filter_map f xs ++ filter_map f ys
  filter_map-append f [] ys = refl
  filter_map-append f (x ∷ xs) ys = ground (arith, filter_map-append f xs ys)

  pub filter_map_one :
      (f : A → Option B) (x : A) {y : B} → f x ≡ some y → filter_map f (x ∷ []) ≡ y ∷ []
  filter_map_one f x e = rw (e, filter_map)

  abbrev pub foldl : (B → A → B) → B → List A → B
  foldl f b [] = b
  foldl f b (x ∷ xs) = foldl f (f b x) xs

  pub foldl-append :
      (f : B → A → B) (b : B) (xs ys : List A) → foldl f b (xs ++ ys) ≡ foldl f (foldl f b xs) ys
  foldl-append f b [] ys = refl
  foldl-append f b (x ∷ xs) ys = foldl-append f (f b x) xs ys

module _ {ℓ κ ν} {A : Type ℓ} {B : Type κ} (P : B → Type ν) (f : A → Option B) (p : A → Bool) where
  Every-put :
      (o : Option B) (ys : List B)
      → ((y : B) → o ≡ some y → P y)
      → Every P ys
      → Every P (elim o [ none ↦ ys | some y ↦ y ∷ ys ])
  Every-put none ys h k = k
  Every-put (some y) ys h k = (h y refl, k)

  Every-put_if :
      (x : A) (b : Bool) (xs : List A)
      → (b ≡ true → (y : B) → f x ≡ some y → P y)
      → Every P (filter_map f xs)
      → Every P (filter_map f (if b then x ∷ xs else xs))
  Every-put_if x true xs h k = Every-put (f x) (filter_map f xs) (h refl) k
  Every-put_if x false xs h k = k

  -- What holds of each value that a kept element yields holds of all of them.
  pub Every-filter_map-filter :
      (xs : List A)
      → ((x : A) → Elem x xs → p x ≡ true → (y : B) → f x ≡ some y → P y)
      → Every P (filter_map f (filter p xs))
  Every-filter_map-filter [] h = tt
  Every-filter_map-filter (x ∷ xs) h =
      Every-put_if x (p x) (filter p xs) (h x (inl refl))
        (Every-filter_map-filter xs (λ z m. h z (inr m)))

  pub Every-filter_map :
      (Q : A → Type ν) (xs : List A)
      → ((x : A) → Q x → (y : B) → f x ≡ some y → P y)
      → Every Q xs
      → Every P (filter_map f (filter p xs))
  Every-filter_map Q [] h k = tt
  Every-filter_map Q (x ∷ xs) h k =
      Every-put_if x (p x) (filter p xs) (λ yes. h x k.0) (Every-filter_map Q xs h k.1)
