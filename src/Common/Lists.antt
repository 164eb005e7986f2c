-- ===== src/Common/Lists.antt =====
-- Lists measured by native numbers, and the array methods `find`, `filter`, `some` over a test.
use Prim.Native.Nat.{ℕ, suc, ◌+◌, ◌≤◌}
use mathlib.Core.Path.{◌≡◌}
use mathlib.Core.Logic.{◌⊎◌, inl, inr}
use mathlib.Core.Bool.{Bool, true, false, ◌||◌}
use mathlib.Core.Option.{Option, none, some}
use mathlib.Core.List.{List, [], ◌∷◌, ◌++◌}
use native.Mathlib.Omega.{arith}
use giki_wallet.Common.Tests.{if◌then◌else◌, Bool-cases}

module _ {ℓ} {A : Type ℓ} where
  abbrev pub length : List A → ℕ
  length [] = 0
  length (x ∷ xs) = suc (length xs)

  -- `xs.find(p)`, with `undefined` as `none`.
  abbrev pub find : (A → Bool) → List A → Option A
  find p [] = none
  find p (x ∷ xs) = if p x then some x else find p xs

  -- `xs.filter(p)`.
  abbrev pub keep : (A → Bool) → List A → List A
  keep p [] = []
  keep p (x ∷ xs) = let rest = keep p xs in if p x then x ∷ rest else rest

  -- `xs.some(p)`.
  abbrev pub any : (A → Bool) → List A → Bool
  any p [] = false
  any p (x ∷ xs) = p x || any p xs

  pub length-append : (xs ys : List A) → length (xs ++ ys) ≡ length xs + length ys
  length-append [] ys = omega arith
  length-append (x ∷ xs) ys = omega (arith, length-append xs ys)

  pub length-keep : (p : A → Bool) (xs : List A) → length (keep p xs) ≤ length xs
  length-keep p [] = omega arith
  length-keep p (x ∷ xs) = ground (arith, length-keep p xs)

  pub find-holds : (p : A → Bool) (xs : List A) {a : A} → find p xs ≡ some a → p a ≡ true
  find-holds p [] e = cc
  find-holds p (x ∷ xs) {a} e = ground (arith, find-holds p xs {a = a})

module _ {ℓ κ} {A : Type ℓ} (P : A → Type κ) where
  abbrev pub All : List A → Type κ
  All [] = Unit
  All (x ∷ xs) = P x × All xs

  pub All-append : (xs ys : List A) → All xs → All ys → All (xs ++ ys)
  All-append [] ys h k = k
  All-append (x ∷ xs) ys (p, h) k = (p, All-append xs ys h k)

  pub All-left : (xs ys : List A) → All (xs ++ ys) → All xs
  All-left [] ys h = tt
  All-left (x ∷ xs) ys (p, h) = (p, All-left xs ys h)

  pub All-right : (xs ys : List A) → All (xs ++ ys) → All ys
  All-right [] ys h = h
  All-right (x ∷ xs) ys (p, h) = All-right xs ys h

module _ {ℓ} {A : Type ℓ} (P : A → Type 0) where
  abbrev pub Any : List A → Type 0
  Any [] = ⊥
  Any (x ∷ xs) = P x ⊎ Any xs

  pub Any-left : (xs ys : List A) → Any xs → Any (xs ++ ys)
  Any-left [] ys h = absurd h
  Any-left (x ∷ xs) ys (inl p) = inl p
  Any-left (x ∷ xs) ys (inr h) = inr (Any-left xs ys h)

  pub Any-right : (xs ys : List A) → Any ys → Any (xs ++ ys)
  Any-right [] ys h = h
  Any-right (x ∷ xs) ys h = inr (Any-right xs ys h)

  pub Any-append : (xs ys : List A) → Any (xs ++ ys) → Any xs ⊎ Any ys
  Any-append [] ys h = inr h
  Any-append (x ∷ xs) ys (inl p) = inl (inl p)
  Any-append (x ∷ xs) ys (inr h) = elim (Any-append xs ys h) [ inl p ↦ inl (inr p) | inr q ↦ inr q ]

module _ {ℓ κ} {A : Type ℓ} (P : A → Type κ) (test : A → Bool) where
  -- Everything that passes the filter satisfies what the test establishes.
  pub All-keep : ((a : A) → test a ≡ true → P a) → (xs : List A) → All P (keep test xs)
  All-keep f [] = tt
  All-keep f (x ∷ xs) = elim (Bool-cases (test x)) [
    | inl yes_ ↦ rw yes_ (f x yes_, All-keep f xs)
    | inr no_ ↦ rw no_ (All-keep f xs)
  ]

pub All-map {ℓ κ μ} :
    {A : Type ℓ} {P : A → Type κ} {Q : A → Type μ}
    → ((a : A) → P a → Q a)
    → (xs : List A) → All P xs
    → All Q xs
All-map f [] h = tt
All-map f (x ∷ xs) (p, h) = (f x p, All-map f xs h)

pub Any-map {ℓ} :
    {A : Type ℓ} {P Q : A → Type 0} → ((a : A) → P a → Q a) → (xs : List A) → Any P xs → Any Q xs
Any-map f [] h = h
Any-map f (x ∷ xs) (inl p) = inl (f x p)
Any-map f (x ∷ xs) (inr h) = inr (Any-map f xs h)

-- The second list is the first one without what is not as `P` says, in its order.
pub data Sieved {A : Type 0} (P : A → Type 0) : List A → List A → Type 0 where
  none_left : Sieved P [] []
  kept : {x : A} {xs ys : List A} → P x → Sieved P xs ys → Sieved P (x ∷ xs) (x ∷ ys)
  left_out : {x : A} {xs ys : List A} → ¬ P x → Sieved P xs ys → Sieved P (x ∷ xs) ys

module _ {A : Type 0} (P : A → Type 0) (test : A → Bool) (sound : (x : A) → test x ≡ true → P x)
    (complete : (x : A) → test x ≡ false → ¬ P x) where
  pub keep-Sieved : (xs : List A) → Sieved P xs (keep test xs)
  keep-Sieved [] = none_left
  keep-Sieved (x ∷ xs) = elim (Bool-cases (test x)) [
    | inl t ↦ rw t (kept (sound x t) (keep-Sieved xs))
    | inr f ↦ rw f (left_out (complete x f) (keep-Sieved xs))
  ]
