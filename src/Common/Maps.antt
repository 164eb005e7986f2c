-- ===== src/Common/Maps.antt =====
-- Objects used as maps from texts, `Record<string, V>`: association lists.
use mathlib.Core.Path.{◌≡◌, refl}
use mathlib.Core.Logic.{◌≢◌, inl, inr}
use mathlib.Core.Bool.{Bool, true, false}
use mathlib.Core.Option.{Option, none, some}
use mathlib.Core.List.{List, [], ◌∷◌}
use Prim.Native.String.{String}
use text.Mathlib.Text.{◌==◌}
use text.Mathlib.TextEquality.{eq_iff}
use native.Mathlib.Omega.{arith}
use giki_wallet.Common.Tests.{if◌then◌else◌, Bool-cases}

module _ {V : Type 0} where
  -- `m[k]`, with `undefined` as `none`.
  unfoldable pub lookup : String → List (String × V) → Option V
  lookup wanted [] = none
  lookup wanted (entry ∷ rest) =
      let later = lookup wanted rest in if entry.0 == wanted then some entry.1 else later

  -- `{ ...m, [k]: v }`.
  unfoldable pub insert : String → V → List (String × V) → List (String × V)
  insert key value [] = (key, value) ∷ []
  insert key value (entry ∷ rest) =
      let later = insert key value rest in
      if entry.0 == key then (key, value) ∷ rest else entry ∷ later

  -- `{ ...m, ...n }`.
  unfoldable pub merge : List (String × V) → List (String × V) → List (String × V)
  merge m [] = m
  merge m ((k, v) ∷ n) = merge (insert k v m) n

  pub lookup-insert :
      (key other : String) (value : V) (map : List (String × V))
      → lookup other (insert key value map)
        ≡ (if key == other then some value else lookup other map)
  unfolding lookup insert
  lookup-insert key other value [] = refl
  lookup-insert key other value (entry ∷ rest) = ground (
    lookup-insert key other value rest,
    eq_iff entry.0 other,
    eq_iff entry.0 key,
    eq_iff key other,
    arith,
  )

module _ {V : Type 0} where
  lookup-insert-ne-none :
      (k j : String) (v : V) (m : List (String × V))
      → lookup j m ≢ none
      → lookup j (insert k v m) ≢ none
  lookup-insert-ne-none k j v m h = rw lookup-insert (split (k == j))
    where
      split : (b : Bool) → (if b then some v else lookup j m) ≢ none
      split true = λ e. cc
      split false = h

  -- Every key of either object is a key of both merged.
  pub lookup-merge_left :
      (j : String) (m n : List (String × V)) → lookup j m ≢ none → lookup j (merge m n) ≢ none
  unfolding merge
  lookup-merge_left j m [] h = h
  lookup-merge_left j m ((k, v) ∷ n) h =
      lookup-merge_left j (insert k v m) n (lookup-insert-ne-none k j v m h)

  pub lookup-merge_right :
      (j : String) (m n : List (String × V)) → lookup j n ≢ none → lookup j (merge m n) ≢ none
  unfolding merge lookup
  lookup-merge_right j m [] h = absurd (h refl)
  lookup-merge_right j m ((k, v) ∷ n) h = elim (Bool-cases (k == j)) [
    | inl same ↦ lookup-merge_left j (insert k v m) n (rw lookup-insert (rw same (λ e. cc)))
    | inr other ↦ lookup-merge_right j (insert k v m) n (rw other at h)
  ]
