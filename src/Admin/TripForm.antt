-- ===== src/Admin/TripForm.antt =====
-- frontend/src/admin/modules/trips/components/TripCreateForm.tsx, with the schema of schema.ts: the form
-- in which a trip is created, edited or duplicated.
--
-- A moment is a number of milliseconds. The clocks of a zone are some minutes ahead of those of the
-- westernmost zone (UTC-12), and moments are counted from a midnight there, long ago. A time of the
-- day is its minute, and a text like "08:00" stands for it. What the form shows is left out.
--
-- Two parameters are the browser's zone, by which the library date-fns formats and parses: `ahead`
-- says how many minutes its clocks are ahead at a moment, which changes where clocks are put forward
-- or back, and `moment_here` which moment JavaScript takes for a minute of a day by its clocks.
pub mod Editing
mod Tests
use giki_wallet.Common.{
  ℕ, zero, suc, ◌+◌, ◌-◌, ◌*◌, ◌/◌, ◌%◌, ◌==◌, String, Bool, true, false, not, ◌&&◌, Option, none,
  some, List, [], ◌∷◌, map, codes, upper, includes, is_prefix, keep, leb, ltb, length,
  if◌then◌else◌,
}
use giki_wallet.Common.Integers.{ℤ, pos, negsuc}
use giki_wallet.Admin.Trips.{
  StopItem, RouteTemplateResponse, CreateTripRequest, TripResponse, TripStopItem,
}

-- The clocks of Pakistan, UTC+5, which are not changed.
abbrev pub karachi : ℕ
karachi = 1020

-- The day and the minute that clocks show at a moment, by the minutes that they are ahead then.
abbrev pub day_in : ℕ → ℕ → ℕ
day_in ahead moment = (moment + ahead * 60000) / 86400000

abbrev pub minute_in : ℕ → ℕ → ℕ
minute_in ahead moment = (moment + ahead * 60000) / 60000 % 1440

-- The moment at which Pakistan's clocks show a minute of a day.
abbrev pub moment_in_karachi : ℕ → ℕ → ℕ
moment_in_karachi day minute = (day * 1440 + minute - karachi) * 60000

-- `-n`.
abbrev pub negated : ℕ → ℤ
negated zero = pos 0
negated (suc n) = negsuc n

-- `differenceInMinutes(a, b)`, which rounds towards zero.
unfoldable pub difference_in_minutes : ℕ → ℕ → ℤ
difference_in_minutes a b = if leb b a then pos ((a - b) / 60000) else negated ((b - a) / 60000)

-- `addMinutes(moment, -offset)`.
unfoldable pub minutes_before : ℤ → ℕ → ℕ
minutes_before (pos n) moment = moment - n * 60000
minutes_before (negsuc n) moment = moment + (n + 1) * 60000

pub record CreateTripFormValues : Type 0 where
  pub route_id : String
  pub date : ℕ
  pub time : ℕ
  pub booking_open_date : ℕ
  pub booking_open_time : ℕ
  pub booking_close_date : ℕ
  pub booking_close_time : ℕ
  pub total_capacity : ℕ
  pub base_price : ℕ
  pub bus_type : String
  pub direction : String
  pub selected_stop_ids : List String

-- `text.toUpperCase().includes("GIKI")`.
abbrev pub names_giki : String → Bool
names_giki text = includes (codes "GIKI") (upper text)

abbrev pub last_name : StopItem → List StopItem → String
last_name s [] = s.name
last_name s (t ∷ rest) = last_name t rest

-- The direction of a route by its stops, in their order.
abbrev pub detect_direction : String → List StopItem → String
detect_direction route_name (first ∷ second ∷ rest) =
    if names_giki first.name
    then "OUTBOUND"
    else if names_giki (last_name second rest)
    then "INBOUND"
    else if is_prefix (codes "GIKI") (upper route_name)
    then "OUTBOUND"
    else "INBOUND"
detect_direction route_name stops = "OUTBOUND"

abbrev pub active_stop_ids : List StopItem → List String
active_stop_ids stops = map (λ s. s.stop_id) (keep (λ s. s.is_active) stops)

-- The payload of `onSubmit`, with the departure as a moment and the offsets in minutes.
pub record Payload : Type 0 where
  pub departure : ℕ
  pub booking_open_offset_minutes : ℤ
  pub booking_close_offset_minutes : ℤ
  pub route_id : String
  pub total_capacity : ℕ
  pub base_price : ℕ
  pub bus_type : String
  pub direction : String
  pub stops : List String

-- What `onSubmit` does: an error at the capacity, or a call of `updateTrip` or `createTrip`.
pub data Submit : Type 0 where
  too_small : ℕ → Submit
  update_with : String → Payload → Submit
  create_with : Payload → Submit

-- The tickets sold for a trip; were there fewer than none, the test of the capacity would pass too.
abbrev pub sold : TripResponse → ℕ
sold t = t.total_capacity - t.available_seats

abbrev pub submit_as : Option TripResponse → ℕ → Payload → Submit
submit_as none capacity p = create_with p
submit_as (some t) capacity p =
    if ltb capacity (sold t) then too_small (sold t) else update_with t.id p

module _ (ahead : ℕ → ℕ) (moment_here : ℕ → ℕ → ℕ) where
  -- `format(moment, 'yyyy-MM-dd')` and `format(moment, 'HH:mm')`.
  abbrev pub day_here : ℕ → ℕ
  day_here moment = day_in (ahead moment) moment

  abbrev pub minute_here : ℕ → ℕ
  minute_here moment = minute_in (ahead moment) moment

  -- `applyTemplateRules`.
  unfoldable pub apply_template_rules :
      RouteTemplateResponse → CreateTripFormValues → CreateTripFormValues
  unfolding minutes_before
  apply_template_rules tmpl v =
      let departure = moment_here (day_here v.date) v.time in
      let opens = minutes_before (pos tmpl.open_minutes_before) departure in
      let closes = minutes_before (pos tmpl.close_minutes_before) departure in
      record v {
        booking_open_date = opens;
        booking_open_time = minute_in karachi opens;
        booking_close_date = closes;
        booking_close_time = minute_in karachi closes;
        direction = detect_direction tmpl.route_name tmpl.stops;
        selected_stop_ids = active_stop_ids tmpl.stops;
      }

  -- The moment of a departure in the form: that of the trip, or for a duplicate today's at the same
  -- time of the day, the seconds being those of `now`.
  abbrev pub departure_for : Bool → ℕ → ℕ → ℕ
  departure_for false now source = source
  departure_for true now source = moment_here (day_here now) (minute_here source) + now % 60000

  module _ (time_of : String → ℕ) (now : ℕ) where
    -- `applySourceTrip`, for a trip and a template that are there.
    unfoldable pub apply_source_trip :
        TripResponse → Bool → CreateTripFormValues → CreateTripFormValues
    unfolding difference_in_minutes minutes_before
    apply_source_trip source is_duplicate v =
        let departs = time_of source.departure_time in
        let departure = departure_for is_duplicate now departs in
        let open_offset = difference_in_minutes departs (time_of source.booking_opens_at) in
        let close_offset = difference_in_minutes departs (time_of source.booking_closes_at) in
        let opens = minutes_before open_offset departure in
        let closes = minutes_before close_offset departure in
        record {
          route_id = source.route_id;
          date = departure;
          time = minute_here departure;
          booking_open_date = opens;
          booking_open_time = minute_here opens;
          booking_close_date = closes;
          booking_close_time = minute_here closes;
          total_capacity = source.total_capacity;
          base_price = source.base_price;
          bus_type = source.bus_type;
          direction = source.direction;
          selected_stop_ids = map (λ s. s.stop_id) source.stops;
        }

  -- `fromZonedTime(format(date, 'yyyy-MM-dd') + ' ' + time, 'Asia/Karachi')`.
  abbrev pub from_zoned_time : ℕ → ℕ → ℕ
  from_zoned_time date time = moment_in_karachi (day_here date) time

  unfoldable pub payload_of : CreateTripFormValues → Payload
  unfolding difference_in_minutes
  payload_of v =
      let departs = from_zoned_time v.date v.time in
      let opens = from_zoned_time v.booking_open_date v.booking_open_time in
      let closes = from_zoned_time v.booking_close_date v.booking_close_time in
      record {
        departure = departs;
        booking_open_offset_minutes = difference_in_minutes departs opens;
        booking_close_offset_minutes = difference_in_minutes departs closes;
        route_id = v.route_id;
        total_capacity = v.total_capacity;
        base_price = v.base_price;
        bus_type = v.bus_type;
        direction = v.direction;
        stops = v.selected_stop_ids;
      }

  -- `onSubmit`, up to the call of the store.
  unfoldable pub on_submit : Option TripResponse → CreateTripFormValues → Submit
  unfolding payload_of
  on_submit editing v = submit_as editing v.total_capacity (payload_of v)

  -- The two refinements of `createTripSchema`, at a moment.
  unfoldable pub booking_window_ok : ℕ → CreateTripFormValues → Bool
  booking_window_ok now v =
      let opens = moment_here (day_here v.booking_open_date) v.booking_open_time in
      let closes = moment_here (day_here v.booking_close_date) v.booking_close_time in
      ltb now closes && ltb opens closes
