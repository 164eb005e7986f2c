-- ===== src/Admin/History.antt =====
-- frontend/src/admin/modules/history/components/TicketsHistory.tsx: its state, what a rendering computes,
-- and its effect. When React renders and runs effects is the relation `Progress` of `Asking`.
--
-- React compares the dependencies of `useCallback` by identity (`Object.is`). A `Date` is an object:
-- `Ref` is its identity, and `new Date` takes the next one that is free.
mod Asking
mod Tests
use giki_wallet.Common.{
  ℕ, ◌+◌, ◌-◌, ◌==◌, String, Bool, true, false, not, ◌&&◌, ◌||◌, nat_eq, Option, none, some, List,
  [],
}
use giki_wallet.Admin.Tickets.{AdminTicket, AdminTicketPaginationResponse}

abbrev pub Ref : Type 0
Ref = ℕ

-- The dependencies of `fetchTickets`.
pub record Dependencies : Type 0 where
  pub week_start : Ref
  pub week_end : Ref
  pub bus_type : String
  pub status : String
  pub search : String

-- `free` is the next identity. `dirty` says that a state has changed since the last rendering,
-- `effect_due` that the effect of the last rendering is still to run, `rendered_with` what the
-- dependencies were there, and `unanswered` counts the requests that wait for their replies.
pub record TicketsHistory : Type 0 where
  pub tickets : List AdminTicket
  pub is_loading : Bool
  pub total_count : ℕ
  pub filter_bus_type : String
  pub filter_status : String
  pub debounced_search : String
  pub free : Ref
  pub rendered_with : Option Dependencies
  pub dirty : Bool
  pub effect_due : Bool
  pub unanswered : ℕ

-- Before the first rendering.
abbrev pub mounted : TicketsHistory
mounted = record {
  tickets = [];
  is_loading = false;
  total_count = 0;
  filter_bus_type = "all";
  filter_status = "all";
  debounced_search = "";
  free = 0;
  rendered_with = none;
  dirty = true;
  effect_due = false;
  unanswered = 0;
}

-- `getWeekStart(selectedWeek)` and `getWeekEnd(selectedWeek)`: each makes two objects, of which it
-- returns the second, and the latter calls the former.
unfoldable pub get_week_start : Ref → Ref × Ref
get_week_start free = (free + 1, free + 2)

unfoldable pub get_week_end : Ref → Ref × Ref
unfolding get_week_start
get_week_end free = let (start, next) = get_week_start free in (next, next + 1)

abbrev pub dependencies : Ref → Ref → TicketsHistory → Dependencies
dependencies week_start week_end h = record {
  week_start = week_start;
  week_end = week_end;
  bus_type = h.filter_bus_type;
  status = h.filter_status;
  search = h.debounced_search;
}

-- `useCallback` keeps its function where no dependency has changed.
unfoldable pub unchanged : Option Dependencies → Dependencies → Bool
unchanged none d = false
unchanged (some old) d =
    nat_eq old.week_start d.week_start
    && (nat_eq old.week_end d.week_end
        && (old.bus_type == d.bus_type && (old.status == d.status && old.search == d.search)))

-- A rendering: the effect is due if it was before, or if `fetchTickets` is another function.
unfoldable pub render : TicketsHistory → TicketsHistory
unfolding get_week_start get_week_end
render h =
    let (week_start, after_start) = get_week_start h.free in
    let (week_end, after_end) = get_week_end after_start in
    let now = dependencies week_start week_end h in
    record h {
      free = after_end;
      rendered_with = some now;
      dirty = false;
      effect_due = h.effect_due || not (unchanged h.rendered_with now);
    }

-- `setIsLoading`: a state that is set to what it is asks for no rendering.
abbrev pub set_is_loading : Bool → TicketsHistory → TicketsHistory
set_is_loading true h = record h { is_loading = true; dirty = h.dirty || not h.is_loading }
set_is_loading false h = record h { is_loading = false; dirty = h.dirty || h.is_loading }

-- The effect: `fetchTickets` up to its `await`.
unfoldable pub fetch_tickets : TicketsHistory → TicketsHistory
fetch_tickets h =
    set_is_loading true (record h { effect_due = false; unanswered = h.unanswered + 1 })

-- `fetchTickets` from its `await` on; `none` is a rejection. The tickets that come are a new array.
unfoldable pub replied : Option AdminTicketPaginationResponse → TicketsHistory → TicketsHistory
replied (some r) h = set_is_loading false (record h {
  tickets = r.tickets;
  total_count = r.total_count;
  dirty = true;
  unanswered = h.unanswered - 1;
})
replied none h = set_is_loading false (record h { unanswered = h.unanswered - 1 })

-- The inputs of the user.
pub data Filter : Type 0 where
  bus_type status search : String → Filter

abbrev pub filtered : Filter → TicketsHistory → TicketsHistory
filtered (bus_type text) h = record h { filter_bus_type = text; dirty = true }
filtered (status text) h = record h { filter_status = text; dirty = true }
filtered (search text) h = record h { debounced_search = text; dirty = true }
