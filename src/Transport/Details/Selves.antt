-- ===== src/Transport/Details/Selves.antt =====
-- How many passengers the form of PassengerDetailsPage.tsx lets be the user.
use giki_wallet.Common.{
  ℕ, ◌≤◌, ◌≡◌, refl, arith, Bool, true, false, not, ◌||◌, String, List, [], ◌∷◌, any, keep, if-when,
  Bool-cases, inl, inr, ◌⊎◌, ◌==◌,
}
use giki_wallet.Common.Maps.{lookup, insert}
use giki_wallet.Transport.Data.{Passenger, Relation, self, spouse, child, parent, guest, is_self}
use giki_wallet.Transport.Booking.Seats.{selves, selves-insert}
use giki_wallet.Transport.Details.{
  Passengers, is_self_selected, or_guest, passenger_at, can_select_self, options, with_relation,
  Edit, choose_relation, type_name, same_relation, edit, edits,
}

-- A user's seat may be given to the user again.
selves-insert_self :
    (id : String) (v : Passenger) (m : Passengers)
    → is_self (or_guest (lookup id m)).relation ≡ true
    → selves (insert id v m) ≤ selves m
unfolding lookup insert
selves-insert_self id v [] e = cc
selves-insert_self id v ((k, w) ∷ m) e = elim (Bool-cases (k == id)) [
  | inl t ↦ let mine : is_self w.relation ≡ true = rw t at e in rw t (rw mine (ground arith))
  | inr f ↦
      let later : selves (insert id v m) ≤ selves m = selves-insert_self id v m (rw f at e) in
      rw f (ground (arith, later))
]

-- Nobody is the user.
selves-none : (m : Passengers) → is_self_selected m ≡ false → selves m ≡ 0
selves-none [] e = refl
selves-none ((k, w) ∷ m) e = ground (arith, selves-none m)

offered_self :
    (c : Bool)
    → any
        (same_relation self)
        (keep (λ r. not (is_self r) || c) (self ∷ spouse ∷ child ∷ parent ∷ guest ∷ []))
      ≡ true
    → c ≡ true
offered_self true e = refl
offered_self false e = cc

either_true : (a b : Bool) → (not a || b) ≡ true → (a ≡ false) ⊎ (b ≡ true)
either_true a true e = inr refl
either_true false b e = inl refl
either_true true false e = cc

module _ (n : ℕ) (user_name : String) (id : String) (m : Passengers) (one : 1 ≤ n)
    (few : selves m ≤ n) where
  -- A passenger who is not the user takes a seat.
  others_few : (v : Passenger) → is_self v.relation ≡ false → selves (insert id v m) ≤ n
  others_few v e = let h = selves-insert id v m in ground (arith, h, e, few)

  self_few : can_select_self m id ≡ true → (v : Passenger) → selves (insert id v m) ≤ n
  unfolding passenger_at
  self_few e v = elim (either_true _ _ e) [
    | inl nobody ↦ ground (arith, selves-insert id v m, selves-none m nobody, one)
    | inr mine ↦ omega (arith, selves-insert_self id v m mine, few)
  ]

  -- Whatever the form of one seat is used for.
  related :
      (val : Relation)
      → any (same_relation val) (options m id) ≡ true
      → selves (insert id (with_relation user_name (passenger_at m id) val) m) ≤ n
  unfolding options
  related self e = self_few (offered_self (can_select_self m id) e) _
  related spouse e = others_few _ refl
  related child e = others_few _ refl
  related parent e = others_few _ refl
  related guest e = others_few _ refl

  named_few :
      (text : String)
      → not (is_self (passenger_at m id).relation) ≡ true
      → selves (insert id (record (passenger_at m id) { name = text }) m) ≤ n
  named_few text e = others_few _ (ground arith)

edit_few :
    (n : ℕ) (user_name : String) (e : Edit) (m : Passengers)
    → 1 ≤ n
    → selves m ≤ n
    → selves (edit user_name e m) ≤ n
unfolding edit
edit_few n user_name (choose_relation id val) m one few =
    if-when (λ m'. selves m' ≤ n) _ (related n user_name id m one few val) few
edit_few n user_name (type_name id text) m one few =
    if-when (λ m'. selves m' ≤ n) _ (named_few n user_name id m one few text) few

-- However the form is used, no more passengers become the user than were before, or than one: a
-- bound of at least one on the passengers who are the user holds after every edit if it held at
-- first.
pub selves-edits :
    (n : ℕ) (user_name : String) (es : List Edit) (m : Passengers)
    → 1 ≤ n
    → selves m ≤ n
    → selves (edits user_name es m) ≤ n
unfolding edits
selves-edits n user_name [] m one few = few
selves-edits n user_name (e ∷ earlier) m one few =
    edit_few n user_name e (edits user_name earlier m) one
      (selves-edits n user_name earlier m one few)
