-- ===== src/Admin/History/Asking.antt =====
-- How often TicketsHistory.tsx asks for its tickets.
use giki_wallet.Common.{
  ◌<◌, ◌≤◌, ◌≡◌, refl, ◌⊎◌, inl, inr, Bool, true, false, ◌||◌, not, Option, none, some,
}
use giki_wallet.Admin.Tickets.{AdminTicketPaginationResponse}
use giki_wallet.Admin.History.{
  Ref, Dependencies, TicketsHistory, render, fetch_tickets, replied, Filter, filtered,
}

-- What React, the server and the user may do, in any order: React renders whenever it likes, any
-- number of changes after the last rendering; an effect that is due runs at some later moment;
-- requests are answered or refused at any moment.
pub data Progress (h : TicketsHistory) : TicketsHistory → Type 0 where
  renders : Progress h (render h)
  runs_effect : h.effect_due ≡ true → Progress h (fetch_tickets h)
  replies : (a : Option AdminTicketPaginationResponse) → 1 ≤ h.unanswered → Progress h (replied a h)
  filters : (f : Filter) → Progress h (filtered f h)

pub data Run (h : TicketsHistory) : TicketsHistory → Type 0 where
  here : Run h h
  next : {i j : TicketsHistory} → Run h i → Progress i j → Run h j

-- React has nothing left to do.
abbrev pub AtRest : TicketsHistory → Type 0
AtRest h = (h.dirty ≡ false) × (h.effect_due ≡ false)

-- The dates of the last rendering are older than the next ones.
abbrev IsOlder : Ref → Option Dependencies → Type 0
IsOlder free none = Unit
IsOlder free (some d) = d.week_start < free

-- React has something left to do, or a request waits while the page says that it loads.
abbrev IsBusy : TicketsHistory → Type 0
IsBusy h = (h.dirty ≡ true) ⊎ ((h.effect_due ≡ true) ⊎ ((h.is_loading ≡ true) × (1 ≤ h.unanswered)))

abbrev IsRestless : TicketsHistory → Type 0
IsRestless h = IsOlder h.free h.rendered_with × IsBusy h

or_true : (b : Bool) → (b || true) ≡ true
or_true true = refl
or_true false = refl

-- Raising a flag that is down asks for a rendering.
raised : (d l : Bool) → ((d || not l) ≡ true) ⊎ (l ≡ true)
raised d true = inr refl
raised d false = inl (or_true d)
