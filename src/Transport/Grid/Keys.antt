-- ===== src/Transport/Grid/Keys.antt =====
-- The keys of the groups in RouteGrid.tsx: two trips of one direction have the same key only if they are
-- of the same route, whatever its id is spelt like, since the text of a direction has no "_" in it.
use Prim.Native.Char.{Char, char, code}
use Prim.Native.String.{◌++◌}
use text.Mathlib.TextLemmas.{
  nil-append, cons-append, append_cancel_left, head-eq_of_cons-eq, tail-eq_of_cons-eq,
}
use giki_wallet.Common.{
  ℕ, ◌≡◌, refl, sym, ap, ◌∙◌, arith, String, Bool, true, false, ◌||◌, nat_eq, List, [], ◌∷◌, map,
  codes, upper, upper_code, trim, trim_start, trim_end, before_end, is_space, Bool-cases, inl, inr,
}
use giki_wallet.Transport.Data.{Trip}
use giki_wallet.Transport.State.{Direction, outbound, inbound}
use giki_wallet.Transport.Grid.{direction_text, route_key}

abbrev has_underscore : List ℕ → Bool
has_underscore [] = false
has_underscore (c ∷ cs) = nat_eq c 95 || has_underscore cs

underscore-upper : (cs : List ℕ) → has_underscore (map upper_code cs) ≡ has_underscore cs
underscore-upper [] = refl
underscore-upper (c ∷ cs) =
    let same : nat_eq (upper_code c) 95 ≡ nat_eq c 95 = ground arith in
    rw (same, underscore-upper cs) refl

space-nat_eq : (c : ℕ) → is_space c ≡ true → nat_eq c 95 ≡ false
space-nat_eq c e = ground arith

underscore-trim_start : (cs : List ℕ) → has_underscore (trim_start cs) ≡ has_underscore cs
underscore-trim_start [] = refl
underscore-trim_start (c ∷ cs) = elim (Bool-cases (is_space c)) [
  | inl t ↦ rw t (rw (space-nat_eq c t) (underscore-trim_start cs))
  | inr f ↦ rw f refl
]

underscore-before_end :
    (c : ℕ) (l : List ℕ) → has_underscore (before_end c l) ≡ has_underscore (c ∷ l)
underscore-before_end c [] = elim (Bool-cases (is_space c)) [
  | inl t ↦ rw t (rw (space-nat_eq c t) refl)
  | inr f ↦ rw f refl
]
underscore-before_end c (d ∷ ds) = refl

underscore-trim_end : (cs : List ℕ) → has_underscore (trim_end cs) ≡ has_underscore cs
underscore-trim_end [] = refl
underscore-trim_end (c ∷ cs) =
    underscore-before_end c (trim_end cs) ∙ ap (λ b. nat_eq c 95 || b) (underscore-trim_end cs)

no_underscore :
    (way : Direction) (text : String)
    → trim (upper text) ≡ codes (direction_text way)
    → has_underscore (codes text) ≡ false
no_underscore way text e =
    sym (underscore-upper (codes text))
    ∙ sym (underscore-trim_start (upper text))
    ∙ sym (underscore-trim_end (trim_start (upper text)))
    ∙ ap has_underscore e
    ∙ none_in way
  where
    none_in : (way : Direction) → has_underscore (codes (direction_text way)) ≡ false
    none_in outbound = refl
    none_in inbound = refl

abbrev underscored : String → Bool
underscored text = has_underscore (codes text)

abbrev mark : Char
mark = char 95 tt

-- "_" and a text, taken apart.
joined : (d : String) → String.[] ++ ("_" ++ d) ≡ String.◌∷◌ mark (String.[] ++ d)
joined d = nil-append ("_" ++ d) ∙ cons-append mark String.[] d

or_later : (a : Bool) {b : Bool} → b ≡ true → (a || b) ≡ true
or_later true e = refl
or_later false e = e

-- An underscore within a text is one of its codes.
underscore_within : (r d : String) → underscored (r ++ ("_" ++ d)) ≡ true
underscore_within String.[] d = ap underscored (joined d)
underscore_within (String.◌∷◌ c r) d =
    ap underscored (cons-append c r ("_" ++ d))
    ∙ or_later (nat_eq (code c) 95) (underscore_within r d)

-- No text without an underscore goes on after one.
whole :
    (d e s : String)
    → underscored d ≡ false
    → String.[] ++ ("_" ++ d) ≡ s ++ ("_" ++ e)
    → s ≡ String.[]
whole d e String.[] free same = refl
whole d e (String.◌∷◌ c s) free same =
    let tail : String.[] ++ d ≡ s ++ ("_" ++ e) =
      tail-eq_of_cons-eq (sym (joined d) ∙ same ∙ cons-append c s ("_" ++ e)) in
    let within : underscored d ≡ true =
      ap underscored (sym (nil-append d) ∙ tail) ∙ underscore_within s e in
    cc

-- A text is split at its last underscore in one way.
split_last :
    (r s d e : String)
    → underscored d ≡ false
    → underscored e ≡ false
    → r ++ ("_" ++ d) ≡ s ++ ("_" ++ e)
    → (r ≡ s) × (d ≡ e)
split_last String.[] s d e free free' same =
    let empty : s ≡ String.[] = whole d e s free same in
    let rest : String.[] ++ ("_" ++ d) ≡ String.[] ++ ("_" ++ e) = rw empty at same in
    (
      sym empty,
      append_cancel_left "_" d e (append_cancel_left String.[] ("_" ++ d) ("_" ++ e) rest),
    )
split_last (String.◌∷◌ c r) String.[] d e free free' same =
    let empty : String.◌∷◌ c r ≡ String.[] = whole e d (String.◌∷◌ c r) free' (sym same) in
    let rest : String.[] ++ ("_" ++ d) ≡ String.[] ++ ("_" ++ e) = rw empty at same in
    (empty, append_cancel_left "_" d e (append_cancel_left String.[] ("_" ++ d) ("_" ++ e) rest))
split_last (String.◌∷◌ c r) (String.◌∷◌ c' s) d e free free' same =
    let conses : String.◌∷◌ c (r ++ ("_" ++ d)) ≡ String.◌∷◌ c' (s ++ ("_" ++ e)) =
      sym (cons-append c r ("_" ++ d)) ∙ same ∙ cons-append c' s ("_" ++ e) in
    let rest : (r ≡ s) × (d ≡ e) = split_last r s d e free free' (tail-eq_of_cons-eq conses) in
    let first : c ≡ c' = head-eq_of_cons-eq conses in (rw (first, rest.0) refl, rest.1)

-- Trips of the same route and direction.
abbrev pub SameRoute : Trip → Trip → Type 0
SameRoute t u = (t.route_id ≡ u.route_id) × (t.direction ≡ u.direction)

pub route_key-SameRoute :
    (way : Direction) (t u : Trip)
    → trim (upper t.direction) ≡ codes (direction_text way)
    → trim (upper u.direction) ≡ codes (direction_text way)
    → route_key t ≡ route_key u
    → SameRoute t u
route_key-SameRoute way t u t_way u_way same =
    split_last t.route_id u.route_id t.direction u.direction (no_underscore way t.direction t_way)
      (no_underscore way u.direction u_way) same
