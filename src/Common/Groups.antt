-- ===== src/Common/Groups.antt =====
-- Grouping by a text, as the pages do with a `Map` or a `Record<string, T[]>`: the groups stand in the
-- order in which their first items come.
use Prim.Native.String.{String}
use mathlib.Core.Path.{◌≡◌, sym}
use mathlib.Core.Logic.{◌≢◌, inl, inr}
use mathlib.Core.Bool.{Bool, false}
use mathlib.Core.List.{
  List, [], ◌∷◌, ◌++◌, map, append_assoc, perm_middle, perm-append_left_iff, perm-append_right_iff,
}
use mathlib.Core.List.{Perm}
use mathlib.Core.List.Perm
use mathlib.Core.Path.{subst}
use native.Mathlib.Omega.{arith}
use text.Mathlib.Text.{◌==◌}
use text.Mathlib.TextEquality.{eq_iff}
use giki_wallet.Common.Tests.{if◌then◌else◌, Bool-cases, if-case}
use giki_wallet.Common.Lists.{All}

pub record Group (H A : Type 0) : Type 0 where
  pub name : String
  pub header : H
  pub items : List A

-- `groups.get(k)`, a missing group being empty.
unfoldable pub items_at : {H A : Type 0} → String → List (Group H A) → List A
items_at k [] = []
items_at k (g ∷ gs) = if g.name == k then g.items else items_at k gs

-- No group of the list has the name.
abbrev pub Lacks : {H A : Type 0} → String → List (Group H A) → Type 0
Lacks k gs = All (λ g. (g.name == k) ≡ false) gs

abbrev pub Distinct : {H A : Type 0} → List (Group H A) → Type 0
Distinct [] = Unit
Distinct (g ∷ gs) = Lacks g.name gs × Distinct gs

-- No group is empty.
abbrev pub Filled : {H A : Type 0} → List (Group H A) → Type 0
Filled gs = All (λ g. g.items ≢ []) gs

append-ne-nil : {A : Type 0} (l : List A) (x : A) → l ++ x ∷ [] ≢ []
append-ne-nil [] x = λ e. cc
append-ne-nil (y ∷ l) x = λ e. cc

module _ {H A : Type 0} (key : A → String) (head : A → H) where
  abbrev pub has_key : String → A → Bool
  has_key k x = key x == k

  -- `if (!groups.has(key)) groups.set(key, ...); groups.get(key).push(x)`.
  unfoldable pub push : A → List (Group H A) → List (Group H A)
  push x [] = record { name = key x; header = head x; items = x ∷ [] } ∷ []
  push x (g ∷ gs) =
      if g.name == key x
      then record { name = g.name; header = g.header; items = g.items ++ x ∷ [] } ∷ gs
      else g ∷ push x gs

  unfoldable pub group_into : List A → List (Group H A) → List (Group H A)
  group_into [] gs = gs
  group_into (x ∷ xs) gs = group_into xs (push x gs)

  push-Lacks :
      (k : String) (x : A) (gs : List (Group H A))
      → has_key k x ≡ false
      → Lacks k gs
      → Lacks k (push x gs)
  unfolding push
  push-Lacks k x [] e h = (e, tt)
  push-Lacks k x (g ∷ gs) e (p, h) =
      if-case (Lacks k) (g.name == key x) (p, h) (p, push-Lacks k x gs e h)

  push-Distinct : (x : A) (gs : List (Group H A)) → Distinct gs → Distinct (push x gs)
  unfolding push
  push-Distinct x [] h = (tt, tt)
  push-Distinct x (g ∷ gs) (apart, h) = elim (Bool-cases (g.name == key x)) [
    | inl t ↦ rw t (apart, h)
    | inr f ↦
        let other : has_key g.name x ≡ false =
          ground (eq_iff g.name (key x), eq_iff (key x) g.name, arith) in
        rw f (push-Lacks g.name x gs other apart, push-Distinct x gs h)
  ]

  pub group_into-Distinct :
      (xs : List A) (gs : List (Group H A)) → Distinct gs → Distinct (group_into xs gs)
  unfolding group_into
  group_into-Distinct [] gs h = h
  group_into-Distinct (x ∷ xs) gs h = group_into-Distinct xs (push x gs) (push-Distinct x gs h)

  push-Filled : (x : A) (gs : List (Group H A)) → Filled gs → Filled (push x gs)
  unfolding push
  push-Filled x [] h = ((λ e. cc), tt)
  push-Filled x (g ∷ gs) (p, h) =
      if-case Filled (g.name == key x) (append-ne-nil g.items x, h) (p, push-Filled x gs h)

  pub group_into-Filled :
      (xs : List A) (gs : List (Group H A)) → Filled gs → Filled (group_into xs gs)
  unfolding group_into
  group_into-Filled [] gs h = h
  group_into-Filled (x ∷ xs) gs h = group_into-Filled xs (push x gs) (push-Filled x gs h)

-- A step on the items of every group, which keeps the names.
abbrev pub on_items : {H A : Type 0} → (List A → List A) → Group H A → Group H A
on_items f g = record { name = g.name; header = g.header; items = f g.items }

module _ {H A : Type 0} (f : List A → List A) where
  Lacks-map : (k : String) (gs : List (Group H A)) → Lacks k gs → Lacks k (map (on_items f) gs)
  Lacks-map k [] h = tt
  Lacks-map k (g ∷ gs) (p, h) = (p, Lacks-map k gs h)

  pub Distinct-map : (gs : List (Group H A)) → Distinct gs → Distinct (map (on_items f) gs)
  Distinct-map [] h = tt
  Distinct-map (g ∷ gs) (p, h) = (Lacks-map g.name gs p, Distinct-map gs h)

  pub All-on_items :
      (P : List A → Type 0)
      → ((l : List A) → P (f l))
      → (gs : List (Group H A)) → All (λ g. P g.items) (map (on_items f) gs)
  All-on_items P h [] = tt
  All-on_items P h (g ∷ gs) = (h g.items, All-on_items P h gs)

  pub Filled-map :
      ((l : List A) → l ≢ [] → f l ≢ [])
      → (gs : List (Group H A)) → Filled gs
      → Filled (map (on_items f) gs)
  Filled-map h [] k = tt
  Filled-map h (g ∷ gs) (p, k) = (h g.items p, Filled-map h gs k)

-- The items of all groups.
abbrev pub all_items : {H A : Type 0} → List (Group H A) → List A
all_items [] = []
all_items (g ∷ gs) = g.items ++ all_items gs

append-Perm : {A : Type 0} (k l m n : List A) → Perm k l → Perm m n → Perm (k ++ m) (l ++ n)
append-Perm k l m n p q = Perm.trans ((perm-append_right_iff m).1 p) ((perm-append_left_iff l).1 q)

module _ {H A : Type 0} (key : A → String) (head : A → H) where
  push-Perm :
      (x : A) (gs : List (Group H A)) → Perm (all_items (push key head x gs)) (x ∷ all_items gs)
  unfolding push
  push-Perm x [] = Perm.refl _
  push-Perm x (g ∷ gs) =
      if-case (λ (l : List (Group H A)). Perm (all_items l) (x ∷ g.items ++ all_items gs))
        (g.name == key x)
        (subst (λ l. Perm l (x ∷ g.items ++ all_items gs))
          (sym (append_assoc g.items (x ∷ []) (all_items gs))) (perm_middle g.items (all_items gs)))
        (Perm.trans (append-Perm g.items g.items _ _ (Perm.refl _) (push-Perm x gs))
          (perm_middle g.items (all_items gs)))

  -- No item is lost, and none comes in.
  pub group_into-Perm :
      (xs : List A) (gs : List (Group H A))
      → Perm (all_items (group_into key head xs gs)) (xs ++ all_items gs)
  unfolding group_into
  group_into-Perm [] gs = Perm.refl _
  group_into-Perm (x ∷ xs) gs = Perm.trans (group_into-Perm xs (push key head x gs)) (
      Perm.trans (append-Perm xs xs _ _ (Perm.refl _) (push-Perm x gs))
        (perm_middle xs (all_items gs)))

  -- What is true of the items: of one that is alone in a group, and of one more in its group.
  module _ (P : A → Type 0) (Made : Group H A → Type 0)
      (alone : (x : A) → P x → Made (record { name = key x; header = head x; items = x ∷ [] }))
      (more : (x : A) (g : Group H A)
        → P x
        → g.name ≡ key x
        → Made g
        → Made (record { name = g.name; header = g.header; items = g.items ++ x ∷ [] })) where
    push-All : (x : A) (gs : List (Group H A)) → P x → All Made gs → All Made (push key head x gs)
    unfolding push
    push-All x [] p h = (alone x p, tt)
    push-All x (g ∷ gs) p (made, h) = elim (Bool-cases (g.name == key x)) [
      | inl t ↦ rw t (more x g p ((eq_iff g.name (key x)).0 t) made, h)
      | inr f ↦ rw f (made, push-All x gs p h)
    ]

    pub group_into-All :
        (xs : List A) (gs : List (Group H A))
        → All P xs
        → All Made gs
        → All Made (group_into key head xs gs)
    unfolding group_into
    group_into-All [] gs h made = made
    group_into-All (x ∷ xs) gs (p, h) made =
        group_into-All xs (push key head x gs) h (push-All x gs p made)

pub on_items-Perm :
    {H A : Type 0} (f : List A → List A)
    → ((l : List A) → Perm (f l) l)
    → (gs : List (Group H A)) → Perm (all_items (map (on_items f) gs)) (all_items gs)
on_items-Perm f h [] = Perm.refl _
on_items-Perm f h (g ∷ gs) = append-Perm (f g.items) g.items _ _ (h g.items) (on_items-Perm f h gs)
