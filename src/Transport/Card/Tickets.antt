-- ===== src/Transport/Card/Tickets.antt =====
-- How many tickets the card of RouteCard.tsx asks for.
use giki_wallet.Common.{
  ℕ, ◌≤◌, ◌≡◌, arith, Bool, true, false, Option, some, none, List, [], ◌∷◌, if-case, if-when, ◌+◌,
  ◌-◌, ◌==◌, not, find, ◌&&◌, ◌||◌, String, leb, if◌then◌else◌,
}
use giki_wallet.Transport.Data.{Trip}
use giki_wallet.Transport.Stops.{StopOption}
use giki_wallet.Transport.Card.{
  CardProps, CardState, initial_card, Event, minute, pick, choose, minus, plus, render, handle,
  select_trip, pick_from, choose_stop, fewer, more, auto_select, choose_only, stop_options,
  selected_trip, is_selected, truthy, min, max, max_tickets, counts, Booked, booked, can_book,
  handle_book, is_disabled,
}

-- The events on a card in their order, each with the properties that the card has by then.
unfoldable pub after : ℕ → List (CardProps × Event) → CardState
after now [] = initial_card now
after now ((p, e) ∷ earlier) = handle p e (after now earlier)

-- Between one and three tickets.
abbrev pub Few : ℕ → Type 0
Few n = (1 ≤ n) × (n ≤ 3)

abbrev Fine : CardState → Type 0
Fine s = Few s.ticket_count

select_trip-Fine : (t : Trip) (s : CardState) → Fine s → Fine (select_trip t s)
unfolding select_trip
select_trip-Fine t s h = if-case Fine (not (is_disabled t)) (ground arith) h

pick_from-Fine : (o : Option Trip) (s : CardState) → Fine s → Fine (pick_from o s)
pick_from-Fine none s h = h
pick_from-Fine (some t) s h = select_trip-Fine t s h

choose_stop-Fine :
    (p : CardProps) (id : String) (s : CardState) → Fine s → Fine (choose_stop p id s)
unfolding choose_stop
choose_stop-Fine p id s h = if-case Fine _ h h

choose_only-Fine :
    (s : CardState) (options : List StopOption) → Fine s → Fine (choose_only s options)
choose_only-Fine s [] h = h
choose_only-Fine s (o ∷ []) h = if-case Fine (not (truthy s.selected_stop_id)) h h
choose_only-Fine s (o ∷ o' ∷ rest) h = h

lowered : (n : ℕ) → Few n → Few (max 1 (n - 1))
lowered n (h, k) = (ground arith, ground arith)

fewer-Fine : (p : CardProps) (s : CardState) → Fine s → Fine (fewer p s)
unfolding fewer
fewer-Fine p s h =
    let smaller : Few (max 1 (s.ticket_count - 1)) = lowered s.ticket_count h in
    if-case Fine _ smaller h

most-le : (p : CardProps) (o : Option Trip) → max_tickets p o ≤ 3
unfolding max_tickets
most-le p o = ground arith

raised : (c : Bool) (m n : ℕ) → m ≤ 3 → (c && not (leb m n)) ≡ true → Few n → Few (min m (n + 1))
raised c m n le e (h, k) = (ground arith, ground arith)

more-Fine : (p : CardProps) (s : CardState) → Fine s → Fine (more p s)
unfolding more
more-Fine p s h =
    let o : Option Trip = selected_trip p s in
    if-when Fine _ (λ e. raised (counts p s) (max_tickets p o) s.ticket_count (most-le p o) e h) h

handle-Fine : (p : CardProps) (e : Event) (s : CardState) → Fine s → Fine (handle p e s)
unfolding auto_select
handle-Fine p (minute now) s h = h
handle-Fine p (pick id) s h = pick_from-Fine (find (is_selected (some id)) p.trips) s h
handle-Fine p (choose id) s h = choose_stop-Fine p id s h
handle-Fine p minus s h = fewer-Fine p s h
handle-Fine p plus s h = more-Fine p s h
handle-Fine p render s h = choose_only-Fine s (stop_options (selected_trip p s)) h

after-Fine : (now : ℕ) (events : List (CardProps × Event)) → Fine (after now events)
unfolding after
after-Fine now [] = (omega arith, omega arith)
after-Fine now ((p, e) ∷ earlier) = handle-Fine p e (after now earlier) (after-Fine now earlier)

booked-count :
    (trip stop : Option String) (n : ℕ) (b : Booked) → booked trip stop n ≡ some b → b.count ≡ n
booked-count none none n b e = cc
booked-count none (some id) n b e = cc
booked-count (some id) none n b e = cc
booked-count (some trip) (some stop) n b e = either (trip == "" || stop == "") e
  where
    either :
        (c : Bool)
        → (if c then none else some (record { trip_id = trip; stop_id = stop; count = n })) ≡ some b
        → b.count ≡ n
    either true e = cc
    either false e = cc

-- Whatever happens on a card and however its trips, holds and quota change meanwhile: if its button
-- books, then it asks for one, two or three tickets.
pub handle_book-Few :
    (now : ℕ) (events : List (CardProps × Event)) (p : CardProps) (b : Booked)
    → handle_book p (after now events) ≡ some b
    → Few b.count
unfolding handle_book
handle_book-Few now events p b e =
    let s : CardState = after now events in
    let pressed : booked s.selected_trip_id s.selected_stop_id s.ticket_count ≡ some b =
      enabled (can_book p s) e in
    let same : b.count ≡ s.ticket_count =
      booked-count s.selected_trip_id s.selected_stop_id _ b pressed in
    rw same (after-Fine now events)
  where
    enabled : {o : Option Booked} (c : Bool) → (if c then o else none) ≡ some b → o ≡ some b
    enabled true e = e
    enabled false e = cc
