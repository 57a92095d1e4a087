-- ===== src/Base/Lists.antt =====
-- Lists measured by native numbers, Boolean membership, and predicates over a list.
use Prim.Native.Nat.{ℕ, zero, suc, ◌+◌}
use mathlib.Core.Path.{◌≡◌, refl}
use mathlib.Core.Logic.{◌≢◌, ◌↔◌}
use mathlib.Core.Bool.{Bool, false, ◌||◌}
use mathlib.Core.List.{List, [], ◌∷◌, ◌++◌}
use mathlib.Core.Option.{Option, none, some}
use native.Mathlib.Omega.{arith}
use uawp.Base.Tests.{Eq, ◌==◌}

module _ {ℓ} {A : Type ℓ} where
  abbrev pub length : List A → ℕ
  length [] = 0
  length (x ∷ xs) = suc (length xs)

  abbrev pub get_elem? : List A → ℕ → Option A
  get_elem? [] i = none
  get_elem? (x ∷ xs) zero = some x
  get_elem? (x ∷ xs) (suc i) = get_elem? xs i

  abbrev pub take : ℕ → List A → List A
  take zero xs = []
  take (suc n) [] = []
  take (suc n) (x ∷ xs) = x ∷ take n xs

  abbrev pub drop : ℕ → List A → List A
  drop zero xs = xs
  drop (suc n) [] = []
  drop (suc n) (x ∷ xs) = drop n xs

  pub length-append : (xs ys : List A) → length (xs ++ ys) ≡ length xs + length ys
  length-append [] ys = omega arith
  length-append (x ∷ xs) ys = omega (arith, length-append xs ys)

-- A predicate of every element.
abbrev pub All {ℓ κ} : {A : Type ℓ} → (A → Type κ) → List A → Type κ
All P [] = Unit
All P (x ∷ xs) = P x × All P xs

module _ {ℓ} {A : Type ℓ} ⦃e : Eq A⦄ where
  -- `seen[a]`, for the set of the keys in the list.
  abbrev pub contains : List A → A → Bool
  contains [] a = false
  contains (x ∷ xs) a = x == a || contains xs a

pub All-imp {ℓ κ μ} :
    {A : Type ℓ} {P : A → Type κ} {Q : A → Type μ} (xs : List A)
    → ((x : A) → P x → Q x)
    → All P xs
    → All Q xs
All-imp [] f h = tt
All-imp (x ∷ xs) f h = (f x h.0, All-imp xs f h.1)

pub All-zip {ℓ κ μ} :
    {A : Type ℓ} (P : A → Type κ) (Q : A → Type μ) (xs : List A)
    → All P xs
    → All Q xs
    → All (λ x. P x × Q x) xs
All-zip P Q [] h k = tt
All-zip P Q (x ∷ xs) h k = ((h.0, k.0), All-zip P Q xs h.1 k.1)

pub All-append {ℓ κ} :
    {A : Type ℓ} (P : A → Type κ) (xs ys : List A) → All P xs → All P ys → All P (xs ++ ys)
All-append P [] ys h k = k
All-append P (x ∷ xs) ys h k = (h.0, All-append P xs ys h.1 k)

-- No two elements have the same key.
abbrev pub AreDistinct {ℓ κ} : {A : Type ℓ} {B : Type κ} → (A → B) → List A → Type κ
AreDistinct key [] = Unit
AreDistinct key (x ∷ xs) = All (λ y. key x ≢ key y) xs × AreDistinct key xs

module _ {ℓ} {A : Type ℓ} {Key : Type 0} ⦃e : Eq Key⦄ (key : A → Key) where
  -- The keys are distinct, also from those already seen.
  abbrev pub AreNew : List Key → List A → Type 0
  AreNew seen xs = All (λ x. contains seen (key x) ≡ false) xs × AreDistinct key xs

  new_after :
      (seen : List Key) (k : Key) (y : A)
      → (contains (k ∷ seen) (key y) ≡ false) ↔ (contains seen (key y) ≡ false) × (k ≢ key y)
  new_after seen k y = ground (arith, e.same_iff k (key y))

  -- A loop that collects the keys it has seen checks them one by one.
  pub AreNew-cons_iff :
      (seen : List Key) (x : A) (xs : List A)
      → AreNew seen (x ∷ xs) ↔ (contains seen (key x) ≡ false) × AreNew (key x ∷ seen) xs
  AreNew-cons_iff seen x xs = (
    λ h. (
      h.0.0,
      (
        All-imp xs (λ y k. (new_after seen (key x) y).1 k)
            (All-zip (λ y. contains seen (key y) ≡ false) (λ y. key x ≢ key y) xs h.0.1 h.1.0),
        h.1.1,
      ),
    ),
    λ h. (
      (h.0, All-imp xs (λ y k. ((new_after seen (key x) y).0 k).0) h.1.0),
      (All-imp xs (λ y k. ((new_after seen (key x) y).0 k).1) h.1.0, h.1.1),
    ),
  )

pub All-of {ℓ κ} : {A : Type ℓ} {P : A → Type κ} (xs : List A) → ((x : A) → P x) → All P xs
All-of [] f = tt
All-of (x ∷ xs) f = (f x, All-of xs f)

pub AreNew-start {ℓ} :
    {A : Type ℓ} {Key : Type 0} ⦃e : Eq Key⦄ (key : A → Key) (xs : List A)
    → AreNew key [] xs ↔ AreDistinct key xs
AreNew-start key xs = (λ h. h.1, λ h. (All-of xs (λ x. refl), h))
