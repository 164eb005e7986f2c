-- ===== src/Admin/Tickets.antt =====
-- frontend/src/admin/modules/tickets: the tickets of pages/TicketsPage.tsx, with service.ts and types.ts.
-- Dates are milliseconds. The table is left out.
mod Tests
use giki_wallet.Common.{ℕ, String, Bool, true, false, not, nat_eq, Option, none, some, List, []}
use giki_wallet.Async.{Proc}
use giki_wallet.Async.Act.{Act, ◌>>=◌, ◌>>◌, get, await, when, spawn, try_catch, finally}
use giki_wallet.Notices.{Session, show, error_toast, set_store}

pub record AdminTicket : Type 0 where
  pub ticket_id : String
  pub serial_no : ℕ
  pub ticket_code : String
  pub user_name : String
  pub user_email : String
  pub route_name : String
  pub direction : String
  pub pickup_location : String
  pub dropoff_location : String
  pub departure_time : String
  pub status : String
  pub bus_type : String
  pub passenger_name : String
  pub passenger_relation : String
  pub booking_time : String
  pub status_updated_at : Option String
  pub price : ℕ
  pub refund_amount : Option ℕ

pub record TicketStats : Type 0 where
  pub student_count : ℕ
  pub employee_count : ℕ
  pub total_confirmed : ℕ

pub record AdminTicketPaginationResponse : Type 0 where
  pub tickets : List AdminTicket
  pub total_count : ℕ
  pub page : ℕ
  pub page_size : ℕ
  pub stats : Option TicketStats

-- The parameters of `getAdminTickets`.
pub record TicketParams : Type 0 where
  pub start_date : ℕ
  pub end_date : ℕ
  pub bus_type : String
  pub status : String
  pub search : String
  pub page : ℕ
  pub page_size : ℕ

pub record TicketsPage : Type 0 where
  pub params : TicketParams
  pub tickets : List AdminTicket
  pub is_loading : Bool
  pub total_count : ℕ
  pub stats : TicketStats

abbrev pub initial_tickets : ℕ → ℕ → TicketsPage
initial_tickets week_start week_end = record {
  params = record {
    start_date = week_start;
    end_date = week_end;
    bus_type = "all";
    status = "all";
    search = "";
    page = 1;
    page_size = 100;
  };
  tickets = [];
  is_loading = false;
  total_count = 0;
  stats = record { student_count = 0; employee_count = 0; total_confirmed = 0 };
}

abbrev pub TicketsUi : Type 0
TicketsUi = Session TicketsPage

abbrev pub TicketsAction : Type 0 → Type 0
TicketsAction A = Act TicketsUi TicketParams (λ q. AdminTicketPaginationResponse) A

abbrev pub stats_or : Option TicketStats → TicketStats → TicketStats
stats_or none old = old
stats_or (some new) old = new

-- `fetchTickets`.
unfoldable pub fetch_tickets : TicketsAction (Unit {0})
fetch_tickets = do
  set_store (λ p. record p { is_loading = true })
  now ← get
  finally
      (try_catch
        (do
          found ← await now.store.params
          set_store (λ p. record p {
            tickets = found.tickets;
            total_count = found.total_count;
            stats = stats_or found.stats p.stats;
          }))
        (λ e. show (error_toast "Failed to load tickets")))
      (set_store (λ p. record p { is_loading = false }))

-- The filters of the page.
pub data TicketFilter : Type 0 where
  week : ℕ → ℕ → TicketFilter
  bus status search : String → TicketFilter

unfoldable pub filtered : TicketFilter → TicketParams → TicketParams
filtered (week from to) p = record p { start_date = from; end_date = to }
filtered (bus type) p = record p { bus_type = type }
filtered (status text) p = record p { status = text }
filtered (search text) p = record p { search = text }

abbrev pub set_params : (TicketParams → TicketParams) → TicketsAction (Unit {0})
set_params f = set_store (λ p. record p { params = f p.params })

-- What the effects do after a filter has changed: the tickets are fetched, then the page goes back to
-- the first, and if it was another they are fetched again.
unfoldable pub change_filter : TicketFilter → TicketsAction (Unit {0})
unfolding fetch_tickets filtered
change_filter f = do
  set_params (filtered f)
  spawn fetch_tickets
  now ← get
  set_params (λ p. record p { page = 1 })
  when (not (nat_eq now.store.params.page 1)) (spawn fetch_tickets)
