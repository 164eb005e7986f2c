-- ===== src/Common/Sorting.antt =====
-- Stable sorting by a number, `xs.sort((a, b) => rank(a) - rank(b))`, and grouping by a text, as the
-- pages do with `Map` or `Record<string, T[]>`.
use Prim.Native.Nat.{ℕ, ◌≤◌}
use mathlib.Core.Logic.{inl, inr}
use mathlib.Core.List.{List, [], ◌∷◌}
use mathlib.Core.List.{Perm}
use mathlib.Core.List.Perm
use native.Mathlib.Omega.{arith}
use giki_wallet.Common.Tests.{leb, leb→le, if◌then◌else◌, Bool-cases, if-case}
use giki_wallet.Common.Lists.{All}

module _ {A : Type 0} (rank : A → ℕ) where
  unfoldable pub insert_by : A → List A → List A
  insert_by x [] = x ∷ []
  insert_by x (y ∷ rest) = if leb (rank x) (rank y) then x ∷ y ∷ rest else y ∷ insert_by x rest

  unfoldable pub sort_by : List A → List A
  sort_by [] = []
  sort_by (x ∷ rest) = insert_by x (sort_by rest)

  -- Every item is followed by items of at least its rank only.
  abbrev pub Ordered : List A → Type 0
  Ordered [] = Unit
  Ordered (x ∷ rest) = All (λ y. rank x ≤ rank y) rest × Ordered rest

  insert_by-Perm : (x : A) (l : List A) → Perm (insert_by x l) (x ∷ l)
  unfolding insert_by
  insert_by-Perm x [] = Perm.refl _
  insert_by-Perm x (y ∷ rest) =
      if-case (λ l. Perm l (x ∷ y ∷ rest)) (leb (rank x) (rank y)) (Perm.refl _)
        (Perm.trans (Perm.cons y (insert_by-Perm x rest)) (Perm.swap x y rest))

  pub sort_by-Perm : (l : List A) → Perm (sort_by l) l
  unfolding sort_by
  sort_by-Perm [] = Perm.refl _
  sort_by-Perm (x ∷ rest) =
      Perm.trans (insert_by-Perm x (sort_by rest)) (Perm.cons x (sort_by-Perm rest))

  All-insert_by : (P : A → Type 0) (x : A) (l : List A) → P x → All P l → All P (insert_by x l)
  unfolding insert_by
  All-insert_by P x [] p h = (p, tt)
  All-insert_by P x (y ∷ rest) p (q, h) =
      if-case (All P) (leb (rank x) (rank y)) (p, (q, h)) (q, All-insert_by P x rest p h)

  lower_bound : (n m : ℕ) (l : List A) → n ≤ m → All (λ y. m ≤ rank y) l → All (λ y. n ≤ rank y) l
  lower_bound n m [] le h = tt
  lower_bound n m (y ∷ l) le (p, h) = (omega arith, lower_bound n m l le h)

  insert_by-Ordered : (x : A) (l : List A) → Ordered l → Ordered (insert_by x l)
  unfolding insert_by
  insert_by-Ordered x [] h = (tt, tt)
  insert_by-Ordered x (y ∷ rest) (first, h) = elim (Bool-cases (leb (rank x) (rank y))) [
    | inl t ↦
        let before : rank x ≤ rank y = leb→le _ _ t in
        rw t ((before, lower_bound (rank x) (rank y) rest before first), (first, h))
    | inr f ↦
        let after : rank y ≤ rank x = ground arith in
        rw f (All-insert_by (λ z. rank y ≤ rank z) x rest after first, insert_by-Ordered x rest h)
  ]

  pub sort_by-Ordered : (l : List A) → Ordered (sort_by l)
  unfolding sort_by
  sort_by-Ordered [] = tt
  sort_by-Ordered (x ∷ rest) = insert_by-Ordered x (sort_by rest) (sort_by-Ordered rest)

  pub sort_by-All : (P : A → Type 0) (l : List A) → All P l → All P (sort_by l)
  unfolding sort_by
  sort_by-All P [] h = tt
  sort_by-All P (x ∷ rest) (p, h) = All-insert_by P x (sort_by rest) p (sort_by-All P rest h)
