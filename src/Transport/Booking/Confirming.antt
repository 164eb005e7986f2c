-- ===== src/Transport/Booking/Confirming.antt =====
-- `confirmBooking` of frontend/src/client/modules/transport/store.ts, from the call to its end.
use giki_wallet.Common.{◌≡◌, refl, false, List, [], ◌∷◌, Option, some, none, map, ℕ}
use giki_wallet.Errors.{Thrown, get_error_message}
use giki_wallet.Notices.{error_toast}
use giki_wallet.Async.{fulfilled, rejected}
use giki_wallet.Async.Act.{run}
use giki_wallet.Async.Runs.{
  World, execute, Ends, ended, read, changed, got, failed, resumed, execute-Ends, Ends-execute,
}
use giki_wallet.Transport.Data.{QuotaResponse}
use giki_wallet.Transport.State.{
  Ui, Process, TransportState, empty_draft, Request, Answer, confirm_batch,
}
use giki_wallet.Transport.Store.{reset_booking_flow}
use giki_wallet.Transport.Booking.{Confirmation, confirm_item, spend, confirm_booking}
use giki_wallet.Transport.Booking.Outcomes.{is_up, fetch_data-Ends}

-- The booking flow at its beginning, and the store idle.
pub record IsFresh (s : TransportState) : Type 0 where
  pub no_outbound : s.outbound_selection ≡ none
  pub no_return : s.return_selection ≡ none
  pub no_passengers : s.passengers ≡ []
  pub no_outbound_draft : s.draft_outbound ≡ empty_draft
  pub no_inbound_draft : s.draft_inbound ≡ empty_draft
  pub idle : s.loading ≡ false

-- The user is told about the error, and the store is idle.
abbrev pub told : Thrown → Ui → Ui
told e s = record s {
  store = record s.store { loading = false };
  toasts = error_toast (get_error_message e) ∷ s.toasts;
}

module _ (w : World Ui Request Answer) (u : Ui) (c : Confirmation) (cs : List Confirmation) where
  spend-Ends :
      (P : Ui → Type 0) (q : Option QuotaResponse) (m n : ℕ) (ok : Unit {0} → Process)
      (err : Thrown → Process)
      → ((s : Ui) → Ends w P (ok tt) s)
      → (s : Ui) → Ends w P (spend q m n ok err) s
  unfolding spend
  spend-Ends P none m n ok err next s = next s
  spend-Ends P (some q) m n ok err next s = changed (next _)

  -- When the server confirms the tickets, `confirmBooking` ends with the booking flow reset and
  -- `loading` down, also if the data cannot be fetched afterwards and whatever else changes the
  -- store in the meantime.
  pub confirm_booking_resets :
      w.reply (confirm_batch (map confirm_item (c ∷ cs))) ≡ fulfilled tt
      → IsFresh (execute w (run (confirm_booking (c ∷ cs))) u).store
  unfolding confirm_booking reset_booking_flow
  confirm_booking_resets reply = execute-Ends {P = λ u'. IsFresh u'.store} (
      changed (
        read (
          got reply (
            spend-Ends _ _ _ _ _ _
              (fetch_data-Ends w _ _ _ (λ s1. resumed (
                changed (
                  changed (
                    changed (
                      ended (record {
                        no_outbound = refl;
                        no_return = refl;
                        no_passengers = refl;
                        no_outbound_draft = refl;
                        no_inbound_draft = refl;
                        idle = refl;
                      })))))))
              _))))

  -- When the server refuses to confirm, `confirmBooking` leaves the store as the wait left it, with
  -- `loading` down and a toast that tells why, and passes the error on to its caller.
  pub confirm_booking_rethrows :
      (ok : Unit {0} → Process) (err : Thrown → Process) (e : Thrown)
      → w.reply (confirm_batch (map confirm_item (c ∷ cs))) ≡ rejected e
      → execute w (confirm_booking (c ∷ cs) ok err) u
        ≡ execute w
            (err e)
            (told e (w.during (confirm_batch (map confirm_item (c ∷ cs))) (is_up u)))
  unfolding confirm_booking
  confirm_booking_rethrows ok err e reply =
      execute-Ends
        {P = λ u'.
          u'
          ≡ execute w (err e)
              (told e (w.during (confirm_batch (map confirm_item (c ∷ cs))) (is_up u)))}
        (changed (read (failed reply (changed (changed (Ends-execute _ _ refl))))))
