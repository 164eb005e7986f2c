-- ===== src/Transport/Stops/Order.antt =====
-- The stop menus of frontend/src/client/modules/transport/utils.ts: which stops they offer, and in
-- which order.
use giki_wallet.Common.{
  ℕ, ◌≤◌, ◌<◌, ◌≡◌, refl, arith, Bool, true, false, Bool-cases, inl, inr, List, [], ◌∷◌, map, All,
  All-map, Any, keep, some, String, leb, ltb, leb→le, ltb→lt, lt→ltb, if◌then◌else◌, none,
}
use giki_wallet.Transport.Data.{TripStop}
use giki_wallet.Transport.Stops.{
  StopOption, stop_option, insert_stop, sort_stops, get_stop_by_id, build_stop_options,
  options_beside, filter_dropoff_options, filter_pickup_options,
}

-- Every stop is followed by later stops of the route only.
abbrev pub InOrder : List TripStop → Type 0
InOrder [] = Unit
InOrder (a ∷ rest) = All (λ b. a.sequence ≤ b.sequence) rest × InOrder rest

if-All :
    (P : TripStop → Type 0) (c : Bool) (k l : List TripStop)
    → All P k
    → All P l
    → All P (if c then k else l)
if-All P true k l h h' = h
if-All P false k l h h' = h'

if-Any :
    (P : TripStop → Type 0) (c : Bool) (k l : List TripStop)
    → Any P k
    → Any P l
    → Any P (if c then k else l)
if-Any P true k l h h' = h
if-Any P false k l h h' = h'

module _ (P : TripStop → Type 0) where
  All-insert_stop : (a : TripStop) (l : List TripStop) → P a → All P l → All P (insert_stop a l)
  unfolding insert_stop
  All-insert_stop a [] p h = (p, tt)
  All-insert_stop a (b ∷ rest) p (q, h) =
      if-All P (leb a.sequence b.sequence) _ _ (p, (q, h)) (q, All-insert_stop a rest p h)

  All-sort_stops : (l : List TripStop) → All P l → All P (sort_stops l)
  unfolding sort_stops
  All-sort_stops [] h = tt
  All-sort_stops (a ∷ rest) (p, h) = All-insert_stop a (sort_stops rest) p (All-sort_stops rest h)

  Any-insert_stop_here : (a : TripStop) (l : List TripStop) → P a → Any P (insert_stop a l)
  unfolding insert_stop
  Any-insert_stop_here a [] p = inl p
  Any-insert_stop_here a (b ∷ rest) p =
      if-Any P (leb a.sequence b.sequence) _ _ (inl p) (inr (Any-insert_stop_here a rest p))

  Any-insert_stop : (a : TripStop) (l : List TripStop) → Any P l → Any P (insert_stop a l)
  unfolding insert_stop
  Any-insert_stop a [] h = absurd h
  Any-insert_stop a (b ∷ rest) (inl q) =
      if-Any P (leb a.sequence b.sequence) _ _ (inr (inl q)) (inl q)
  Any-insert_stop a (b ∷ rest) (inr h) =
      if-Any P (leb a.sequence b.sequence) _ _ (inr (inr h)) (inr (Any-insert_stop a rest h))

  Any-sort_stops : (l : List TripStop) → Any P l → Any P (sort_stops l)
  unfolding sort_stops
  Any-sort_stops [] h = absurd h
  Any-sort_stops (a ∷ rest) (inl p) = Any-insert_stop_here a (sort_stops rest) p
  Any-sort_stops (a ∷ rest) (inr h) = Any-insert_stop a (sort_stops rest) (Any-sort_stops rest h)

  Any-keep :
      (test : TripStop → Bool) (l : List TripStop)
      → Any (λ a. P a × (test a ≡ true)) l
      → Any P (keep test l)
  Any-keep test [] h = absurd h
  Any-keep test (x ∷ l) (inl (p, t)) = rw t (inl p)
  Any-keep test (x ∷ l) (inr h) =
      if-Any P (test x) (x ∷ keep test l) (keep test l) (inr (Any-keep test l h))
        (Any-keep test l h)

All-le :
    (n m : ℕ) (l : List TripStop)
    → n ≤ m
    → All (λ b. m ≤ b.sequence) l
    → All (λ b. n ≤ b.sequence) l
All-le n m [] h k = tt
All-le n m (x ∷ l) h (p, k) = (omega arith, All-le n m l h k)

insert_stop-InOrder : (a : TripStop) (l : List TripStop) → InOrder l → InOrder (insert_stop a l)
unfolding insert_stop
insert_stop-InOrder a [] h = (tt, tt)
insert_stop-InOrder a (b ∷ rest) (le, h) = elim (Bool-cases (leb a.sequence b.sequence)) [
  | inl t ↦
      let before : a.sequence ≤ b.sequence = leb→le _ _ t in
      rw t ((before, All-le a.sequence b.sequence rest before le), (le, h))
  | inr f ↦
      let after : b.sequence ≤ a.sequence = ground arith in
      rw f (
        All-insert_stop (λ x. b.sequence ≤ x.sequence) a rest after le,
        insert_stop-InOrder a rest h,
      )
]

sort_stops-InOrder : (l : List TripStop) → InOrder (sort_stops l)
unfolding sort_stops
sort_stops-InOrder [] = tt
sort_stops-InOrder (a ∷ rest) = insert_stop-InOrder a (sort_stops rest) (sort_stops-InOrder rest)

Any-refl : (l : List TripStop) → All (λ s. Any (λ x. x ≡ s) l) l
Any-refl [] = tt
Any-refl (x ∷ l) = (inl refl, All-map (λ s h. inr h) l (Any-refl l))

-- What a menu is, said without an algorithm: it lists, in the order of the route, exactly the stops
-- of the trip that pass the test.
pub record IsMenu (stops : List TripStop) (Passes : TripStop → Type 0) (menu : List StopOption)
    : Type 0 where
  pub shown : List TripStop
  pub labelled : menu ≡ map stop_option shown
  pub in_order : InOrder shown
  pub from_trip : All (λ s. Any (λ x. x ≡ s) stops × Passes s) shown
  pub complete : (s : TripStop) → Any (λ x. x ≡ s) stops → Passes s → Any (λ x. x ≡ s) shown

kept_from :
    (test : TripStop → Bool) (Passes : TripStop → Type 0) (stops l : List TripStop)
    → ((s : TripStop) → test s ≡ true → Passes s)
    → All (λ s. Any (λ x. x ≡ s) stops) l
    → All (λ s. Any (λ x. x ≡ s) stops × Passes s) (keep test l)
kept_from test Passes stops [] sound h = tt
kept_from test Passes stops (x ∷ l) sound (here, h) = elim (Bool-cases (test x)) [
  | inl t ↦ rw t ((here, sound x t), kept_from test Passes stops l sound h)
  | inr f ↦ rw f (kept_from test Passes stops l sound h)
]

filtered-IsMenu :
    (test : TripStop → Bool) (Passes : TripStop → Type 0) (stops : List TripStop)
    → ((s : TripStop) → test s ≡ true → Passes s)
    → ((s : TripStop) → Passes s → test s ≡ true)
    → IsMenu stops Passes (map stop_option (sort_stops (keep test stops)))
filtered-IsMenu test Passes stops sound complete = record {
  shown = sort_stops (keep test stops);
  labelled = refl;
  in_order = sort_stops-InOrder (keep test stops);
  from_trip = All-sort_stops _ _ (kept_from test Passes stops stops sound (Any-refl stops));
  complete =
      λ s here p. Any-sort_stops _ _ (Any-keep _ test stops (passing s stops here (complete s p)));
}
  where
    passing :
        (s : TripStop) (l : List TripStop)
        → Any (λ x. x ≡ s) l
        → test s ≡ true
        → Any (λ a. (a ≡ s) × (test a ≡ true)) l
    passing s [] h t = absurd h
    passing s (x ∷ l) (inl e) t = inl (e, rw e t)
    passing s (x ∷ l) (inr h) t = inr (passing s l h t)

-- With nothing fixed, the menu lists all the stops of the trip.
build_stop_options-IsMenu :
    (stops : List TripStop) → IsMenu stops (λ _. Unit) (build_stop_options stops)
unfolding build_stop_options
build_stop_options-IsMenu stops = record {
  shown = sort_stops stops;
  labelled = refl;
  in_order = sort_stops-InOrder stops;
  from_trip = All-sort_stops _ stops (All-map (λ s h. (h, tt)) stops (Any-refl stops));
  complete = λ s here _. Any-sort_stops (λ x. x ≡ s) stops here;
}

-- The dropoff menu beside a known pickup stop lists, in the order of the route, exactly the stops
-- of the trip that come later; without a known pickup stop it lists all stops.
pub filter_dropoff_options-IsMenu :
    (stops : List TripStop) (id : String)
    → ((pickup : TripStop)
        → get_stop_by_id stops id ≡ some pickup
        → IsMenu stops (λ s. pickup.sequence < s.sequence) (filter_dropoff_options stops id))
      × (get_stop_by_id stops id ≡ none
          → IsMenu stops (λ _. Unit) (filter_dropoff_options stops id))
unfolding filter_dropoff_options
filter_dropoff_options-IsMenu stops id = (
  λ pickup e.
      rw (e, options_beside)
        (filtered-IsMenu (λ s. ltb pickup.sequence s.sequence) _ stops (λ s h. ltb→lt _ _ h)
          (λ s h. lt→ltb _ _ h)),
  λ e. rw (e, options_beside) (build_stop_options-IsMenu stops),
)

-- The pickup menu beside a known dropoff stop lists, in the order of the route, exactly the stops
-- of the trip that come earlier; without a known dropoff stop it lists all stops.
pub filter_pickup_options-IsMenu :
    (stops : List TripStop) (id : String)
    → ((dropoff : TripStop)
        → get_stop_by_id stops id ≡ some dropoff
        → IsMenu stops (λ s. s.sequence < dropoff.sequence) (filter_pickup_options stops id))
      × (get_stop_by_id stops id ≡ none → IsMenu stops (λ _. Unit) (filter_pickup_options stops id))
unfolding filter_pickup_options
filter_pickup_options-IsMenu stops id = (
  λ dropoff e.
      rw (e, options_beside)
        (filtered-IsMenu (λ s. ltb s.sequence dropoff.sequence) _ stops (λ s h. ltb→lt _ _ h)
          (λ s h. lt→ltb _ _ h)),
  λ e. rw (e, options_beside) (build_stop_options-IsMenu stops),
)
