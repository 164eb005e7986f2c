-- ===== src/Transport/SummaryTile.antt =====
-- frontend/src/client/components/TripSummaryTile.tsx: the trips of the week and how many of them are
-- open. The home page does not show the tile at present. Rendering is left out.
use giki_wallet.Common.{
  ℕ, ◌+◌, ◌-◌, ◌==◌, ◌≡◌, refl, String, Bool, true, false, not, ◌&&◌, Bool-cases, inl, inr, ltb,
  Option, none, some, List, [], ◌∷◌, keep, length, arith, eq_iff, ◌∙◌, if◌then◌else◌,
}
use giki_wallet.Async.Act.{Act, ◌>>=◌, ◌>>◌, return, get, await, when, try_catch, finally}
use giki_wallet.Notices.{Session, set_store}
use giki_wallet.Auth.User.{AuthUser}
use giki_wallet.Transport.Data.{Trip}
use giki_wallet.Transport.Store.{role_is, trips_or_empty}

pub record SummaryTile : Type 0 where
  pub trips : List Trip
  pub loading : Bool
  pub is_modal_open : Bool

abbrev pub initial_tile : SummaryTile
initial_tile = record { trips = []; loading = true; is_modal_open = false }

-- The one request is `getWeeklySummary`.
abbrev pub TileAction : Type 0 → Type 0
TileAction A = Act (Session SummaryTile) (Unit {0}) (λ q. Option (List Trip)) A

unfoldable pub listed : Option AuthUser → Trip → Bool
listed user trip =
    if role_is user "STUDENT" && not (trip.bus_type == "STUDENT")
    then false
    else if role_is user "EMPLOYEE" && not (trip.bus_type == "EMPLOYEE")
    then false
    else true

unfoldable pub fetch_summary : Bool → TileAction (Unit {0})
fetch_summary show_loading = do
  when show_loading (set_store (λ t. record t { loading = true }))
  finally
      (try_catch
        (do
          found ← await tt
          now ← get
          set_store (λ t. record t { trips = keep (listed now.user) (trips_or_empty found) }))
        (λ e. return tt))
      (when show_loading (set_store (λ t. record t { loading = false })))

pub record Stats : Type 0 where
  pub scheduled : ℕ
  pub «open» : ℕ
  pub closed : ℕ

abbrev pub count_status : Stats → String → Stats
count_status acc status =
    if status == "OPEN"
    then record acc { «open» = acc.«open» + 1 }
    else if status == "SCHEDULED"
    then record acc { scheduled = acc.scheduled + 1 }
    else if status == "CLOSED"
    then record acc { closed = acc.closed + 1 }
    else acc

-- `trips.reduce(...)`, from the statistics so far.
unfoldable pub reduce_stats : Stats → List Trip → Stats
reduce_stats acc [] = acc
reduce_stats acc (trip ∷ rest) = reduce_stats (count_status acc trip.status) rest

abbrev pub stats : List Trip → Stats
stats trips = reduce_stats (record { scheduled = 0; «open» = 0; closed = 0 }) trips

-- How many trips the link to all of them says there are more, if it is there.
abbrev pub more_trips : List Trip → Option ℕ
more_trips trips = if ltb 2 (length trips) then some (length trips - 2) else none

abbrev having : String → List Trip → ℕ
having status trips = length (keep (λ t. t.status == status) trips)

-- A text is not two literals.
only_one : (text a b : String) → (a == b) ≡ false → (text == a) ≡ true → (text == b) ≡ false
only_one text a b differ is_a = rw ((eq_iff text a).0 is_a) differ

abbrev counted : Stats → List Trip → Stats
counted acc l = record {
  scheduled = acc.scheduled + having "SCHEDULED" l;
  «open» = acc.«open» + having "OPEN" l;
  closed = acc.closed + having "CLOSED" l;
}

-- Statistics are the same if their three numbers are.
stats-equal :
    (s t : Stats) → s.scheduled ≡ t.scheduled → s.«open» ≡ t.«open» → s.closed ≡ t.closed → s ≡ t
stats-equal s t a b c = cc

counted-step :
    (acc : Stats) (trip : Trip) (rest : List Trip)
    → counted (count_status acc trip.status) rest ≡ counted acc (trip ∷ rest)
counted-step acc trip rest = elim (Bool-cases (trip.status == "OPEN")) [
  | inl is_o ↦ rw is_o (
      rw (only_one trip.status "OPEN" "SCHEDULED" refl is_o) (
        rw (only_one trip.status "OPEN" "CLOSED" refl is_o)
          (stats-equal _ _ (omega arith) (omega arith) (omega arith))))
  | inr not_o ↦ elim (Bool-cases (trip.status == "SCHEDULED")) [
    | inl is_s ↦ rw not_o (
        rw is_s (
          rw (only_one trip.status "SCHEDULED" "CLOSED" refl is_s)
            (stats-equal _ _ (omega arith) (omega arith) (omega arith))))
    | inr not_s ↦ elim (Bool-cases (trip.status == "CLOSED")) [
      | inl is_c ↦
          rw not_o (rw not_s (rw is_c (stats-equal _ _ (omega arith) (omega arith) (omega arith))))
      | inr not_c ↦ rw not_o (rw not_s (rw not_c refl))
    ]
  ]
]

reduce_stats-counts : (acc : Stats) (l : List Trip) → reduce_stats acc l ≡ counted acc l
unfolding reduce_stats
reduce_stats-counts acc [] = stats-equal _ _ (omega arith) (omega arith) (omega arith)
reduce_stats-counts acc (trip ∷ rest) =
    reduce_stats-counts (count_status acc trip.status) rest ∙ counted-step acc trip rest

-- The statistics are, for each of the three statuses, how many trips have it.
stats-counts :
    (l : List Trip)
    → (stats l).«open» ≡ having "OPEN" l
      × ((stats l).scheduled ≡ having "SCHEDULED" l)
      × ((stats l).closed ≡ having "CLOSED" l)
stats-counts l =
    let all : stats l ≡ counted (record { scheduled = 0; «open» = 0; closed = 0 }) l =
      reduce_stats-counts _ l in
    rw all (omega arith, omega arith, omega arith)
