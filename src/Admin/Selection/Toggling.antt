-- ===== src/Admin/Selection/Toggling.antt =====
-- The selection of trips in TripsPage.tsx, by what is in it.
use giki_wallet.Common.{
  ◌≡◌, refl, ◌∙◌, arith, Bool, true, false, not, ◌||◌, String, List, [], ◌∷◌, ◌++◌, ◌==◌, eq_iff,
  eq_refl, if◌then◌else◌,
}
use giki_wallet.Admin.Selection.{has, add, delete, toggle_select_one}

has-append : (x id : String) (ids : List String) → has x (ids ++ id ∷ []) ≡ (has x ids || id == x)
has-append x id [] = ground arith
has-append x id (y ∷ ids) = ground (arith, has-append x id ids)

has-delete :
    (x id : String) (ids : List String)
    → has x (delete id ids) ≡ (if x == id then false else has x ids)
unfolding delete
has-delete x id [] = ground arith
has-delete x id (y ∷ ids) =
    ground (arith, has-delete x id ids, eq_iff y x, eq_iff y id, eq_iff x id)

turned :
    (x id : String) (ids : List String) (b : Bool)
    → has id ids ≡ b
    → has x (if b then delete id ids else (if b then ids else ids ++ id ∷ []))
      ≡ (if x == id then not b else has x ids)
turned x id ids true e = has-delete x id ids
turned x id ids false e = has-append x id ids ∙ ground (arith, eq_iff x id, eq_iff id x, same)
  where
    same : x ≡ id → has x ids ≡ false
    same p = rw p e

-- Toggling a trip turns its own selection over and leaves that of the others.
pub has-toggle_select_one :
    (x id : String) (ids : List String)
    → has x (toggle_select_one id ids) ≡ (if x == id then not (has id ids) else has x ids)
unfolding toggle_select_one add
has-toggle_select_one x id ids = turned x id ids (has id ids) refl

-- Toggled twice, a trip is selected if it was at first, and so is every other.
pub toggle_select_one-twice :
    (x id : String) (ids : List String)
    → has x (toggle_select_one id (toggle_select_one id ids)) ≡ has x ids
toggle_select_one-twice x id ids =
    has-toggle_select_one x id (toggle_select_one id ids)
    ∙ ground (
      arith,
      has-toggle_select_one id id ids,
      has-toggle_select_one x id ids,
      eq_refl id,
      eq_iff x id,
      same,
    )
  where
    same : x ≡ id → has x ids ≡ has id ids
    same p = rw p refl
