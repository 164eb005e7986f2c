-- ===== src/Admin/History/Tests.antt =====
-- The page is opened, and React comes to rest.
use giki_wallet.Admin.History.{TicketsHistory, mounted, render, fetch_tickets}

-- Rendered, the effect has raised `isLoading`; rendered again, the effect has run again.
abbrev opened : TicketsHistory
opened = fetch_tickets (render (fetch_tickets (render mounted)))
