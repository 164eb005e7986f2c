-- ===== src/Transport/Page/Safety.antt =====
-- What holds of the booking store after every turn, however its actions overlap and whatever the
-- server answers.
use giki_wallet.Common.{
  ◌≡◌, ◌≢◌, ◌∙◌, ◌≤◌, [], Bool, true, false, refl, arith, Option, none, some, String, All, All-keep,
  not, ◌&&◌, if◌then◌else◌, codes_eq, codes, codes_eq_iff, upper, eq_iff, inl, inr, ◌⊎◌,
}
use giki_wallet.Async.{Config, Reach}
use giki_wallet.Async.Invariants.{Reach-Inv}
use giki_wallet.Auth.User.{AuthUser, AuthUserType, student, employee, user_type_text}
use giki_wallet.Transport.Data.{BookingSelection, Trip, booking_selection_ok}
use giki_wallet.Transport.State.{Ui, Request, Answer, initial_state}
use giki_wallet.Transport.Store.{sees}
use giki_wallet.Transport.Page.{any_user, same_user}
use giki_wallet.Transport.Page.Core.{action-Keeps}

-- The state of the store as the application starts.
abbrev pub started : Option AuthUser → Config Ui Request Answer
started user = record {
  store = record { store = initial_state; user = user; toasts = [] };
  waiting = [];
}

-- What a selection has to be for the server: UUIDs, one to three tickets, two different stops.
pub record IsBookable (is_uuid : String → Bool) (sel : BookingSelection) : Type 0 where
  pub trip : is_uuid sel.trip_id ≡ true
  pub pickup : is_uuid sel.pickup_id ≡ true
  pub dropoff : is_uuid sel.dropoff_id ≡ true
  pub at_least_one : 1 ≤ sel.ticket_count
  pub at_most_three : sel.ticket_count ≤ 3
  pub apart : sel.pickup_id ≢ sel.dropoff_id

booking_selection_ok-IsBookable :
    (is_uuid : String → Bool) (sel : BookingSelection)
    → booking_selection_ok is_uuid sel ≡ true
    → IsBookable is_uuid sel
unfolding booking_selection_ok
booking_selection_ok-IsBookable is_uuid sel h = record {
  trip = ground arith;
  pickup = ground arith;
  dropoff = ground arith;
  at_least_one = ground arith;
  at_most_three = ground arith;
  apart = ground (arith, eq_iff sel.pickup_id sel.dropoff_id);
}

module _ (is_uuid : String → Bool) where
  abbrev Chosen : Option BookingSelection → Type 0
  Chosen none = Unit
  Chosen (some sel) = booking_selection_ok is_uuid sel ≡ true

  Chosen-some :
      (o : Option BookingSelection) (sel : BookingSelection)
      → Chosen o
      → o ≡ some sel
      → IsBookable is_uuid sel
  Chosen-some o sel h e = booking_selection_ok-IsBookable is_uuid sel (rw e at h)

  -- In every state that the booking store reaches from its initial one, whichever actions the pages
  -- start and however they overlap, the selection of each leg, if there is one, has UUIDs, one to
  -- three tickets and two different stops.
  pub selections-IsBookable :
      (user : Option AuthUser) (d : Config Ui Request Answer) (sel : BookingSelection)
      → Reach (any_user is_uuid) (started user) d
      → (d.store.store.outbound_selection ≡ some sel) ⊎ (d.store.store.return_selection ≡ some sel)
      → IsBookable is_uuid sel
  selections-IsBookable user d sel r which =
      let (out, back) =
        Reach-Inv (λ u. Chosen u.store.outbound_selection × Chosen u.store.return_selection)
          (any_user is_uuid)
          (λ p starts s i. rw starts.1 (
            action-Keeps is_uuid (λ c. Chosen c.out × Chosen c.back) (λ c found i. i)
              (λ c sel valid i. (valid, i.1)) (λ c sel valid i. (i.0, valid)) (λ c i. (tt, tt))
              starts.0 s i))
          (λ s s' same i. rw same i) r (tt, tt) in
      elim which [ inl e ↦ Chosen-some _ sel out e | inr e ↦ Chosen-some _ sel back e ]

-- The trips meant for the user: a student's are the student buses, an employee's the employee
-- buses; anybody else sees all.
abbrev pub IsMeantFor : Option AuthUser → Trip → Type 0
IsMeantFor none trip = Unit
IsMeantFor (some u) trip =
    (u.user_type ≡ student → upper trip.bus_type ≡ codes "STUDENT")
    × (u.user_type ≡ employee → upper trip.bus_type ≡ codes "EMPLOYEE")

-- The test of the filter, over what it finds out about the bus.
abbrev passes : Bool → Bool → AuthUserType → Bool
passes for_student for_employee t =
    if codes_eq (upper (user_type_text t)) (codes "STUDENT") && not for_student
    then false
    else if codes_eq (upper (user_type_text t)) (codes "EMPLOYEE") && not for_employee
    then false
    else true

sees_student : (p q : Bool) (t : AuthUserType) → passes p q t ≡ true → t ≡ student → p ≡ true
sees_student true q t h e = refl
sees_student false q t h e = absurd (cc (rw e at h))

sees_employee : (p q : Bool) (t : AuthUserType) → passes p q t ≡ true → t ≡ employee → q ≡ true
sees_employee p true t h e = refl
sees_employee p false t h e = absurd (cc (rw e at h))

sees-IsMeantFor :
    (user : Option AuthUser) (trip : Trip) → sees user trip ≡ true → IsMeantFor user trip
unfolding sees
sees-IsMeantFor none trip h = tt
sees-IsMeantFor (some u) trip h = (
  λ e.
      (codes_eq_iff (upper trip.bus_type) (codes "STUDENT")).0
        (sees_student (codes_eq (upper trip.bus_type) (codes "STUDENT")) _ u.user_type h e),
  λ e.
      (codes_eq_iff (upper trip.bus_type) (codes "EMPLOYEE")).0
        (sees_employee _ (codes_eq (upper trip.bus_type) (codes "EMPLOYEE")) u.user_type h e),
)

-- While one user stays signed in, in every state that the booking store reaches from its initial
-- one, a student's trips are all of student buses and an employee's all of employee buses.
pub trips-IsMeantFor :
    (is_uuid : String → Bool) (user : Option AuthUser) (d : Config Ui Request Answer)
    → Reach (same_user is_uuid) (started user) d
    → All (IsMeantFor user) d.store.store.all_trips
trips-IsMeantFor is_uuid user d r =
    (Reach-Inv (λ u. (u.user ≡ user) × All (IsMeantFor user) u.store.all_trips) (same_user is_uuid)
      (λ p starts s i. rw starts.1 (
        action-Keeps is_uuid (λ c. (c.user ≡ user) × All (IsMeantFor user) c.trips)
          (λ c found i. (
            i.0,
            All-keep (IsMeantFor user) (sees c.user) (λ t h. rw i.0 at (sees-IsMeantFor c.user t h))
                found,
          ))
          (λ c sel valid i. i) (λ c sel valid i. i) (λ c i. i) starts.0 s i))
      (λ s s' same i. (same.1 ∙ i.0, rw same.0 i.1)) r (refl, tt)).1
