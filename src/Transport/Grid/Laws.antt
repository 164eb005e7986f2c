-- ===== src/Transport/Grid/Laws.antt =====
-- The cards of frontend/src/client/modules/transport/components/RouteGrid.tsx: which trips they show,
-- and in which order.
use mathlib.Core.List.{Perm}
use mathlib.Core.List.Perm
use giki_wallet.Common.{ℕ, ◌≡◌, ◌≢◌, String, List, [], ◌∷◌, keep, All, codes, upper, trim, Sieved}
use giki_wallet.Common.Sorting.{sort_by, Ordered}
use giki_wallet.Common.Groups.{Group, all_items, Filled, group_into}
use giki_wallet.Transport.Data.{Trip}
use giki_wallet.Transport.State.{Direction}
use giki_wallet.Transport.Grid.{
  RouteHeader, direction_text, visible, route_key, route_header, departure,
}
use giki_wallet.Transport.Grid.Keys.{SameRoute}

-- A trip that may be shown: its direction is the one that is asked for, and its status is neither of
-- the two that are left out, whatever their letters' case and the space around them.
pub record MayShow (way : Direction) (t : Trip) : Type 0 where
  pub direction : trim (upper t.direction) ≡ codes (direction_text way)
  pub not_cancelled : trim (upper t.status) ≢ codes "CANCELLED"
  pub not_deleted : trim (upper t.status) ≢ codes "DELETED"

-- The trips of a card are of one route and direction, the one in the card's header.
pub record OneRoute (g : Group RouteHeader Trip) : Type 0 where
  pub together : All (λ t. All (SameRoute t) g.items) g.items
  pub titled : All (λ t. t.route_id ≡ g.header.route_id) g.items

-- No trip of the one card is of the same route and direction as a trip of the other.
abbrev pub Apart : Group RouteHeader Trip → Group RouteHeader Trip → Type 0
Apart g g' = All (λ t. All (λ u. ¬ SameRoute t u) g'.items) g.items

abbrev pub AllApart : List (Group RouteHeader Trip) → Type 0
AllApart [] = Unit
AllApart (g ∷ gs) = All (Apart g) gs × AllApart gs

-- What the cards are, said without the code that makes them: there are trips to show, the cards hold
-- exactly these, each as often as the server sent it, none of the cards is empty, each has one route and
-- direction and no two the same, and the trips of a card stand in the order of their departures.
pub record IsGrid (time_of : String → ℕ) (way : Direction) (trips : List Trip)
    (cards : List (Group RouteHeader Trip)) : Type 0 where
  pub shown : List Trip
  pub sieved : Sieved (MayShow way) trips shown
  pub contents : Perm (all_items cards) shown
  pub filled : Filled cards
  pub routes : All OneRoute cards
  pub apart : AllApart cards
  pub in_order : All (λ g. Ordered (departure time_of) g.items) cards

module _ (way : Direction) where
  -- A trip that may be shown, with a key.
  abbrev Belongs : String → Trip → Type 0
  Belongs name t = MayShow way t × (route_key t ≡ name)

  -- A group of such trips, with the header of one.
  abbrev Made : Group RouteHeader Trip → Type 0
  Made g =
      All (Belongs g.name) g.items × ((u : Trip) × (g.header ≡ route_header u) × Belongs g.name u)

module _ (time_of : String → ℕ) (trips : List Trip) (way : Direction) where
  abbrev sorted : List Trip → List Trip
  sorted l = sort_by (departure time_of) l

  abbrev to_show : List Trip
  to_show = keep (visible way) trips

  abbrev grouped : List (Group RouteHeader Trip)
  grouped = group_into route_key route_header to_show []
