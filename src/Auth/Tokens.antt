-- ===== src/Auth/Tokens.antt =====
-- The two tokens of `localStorage`, over every interleaving of the authentication store's actions
-- and the handlers of failed requests.
use giki_wallet.Common.{◌≡◌, ◌≢◌, [], false, Option, none, some, String, eq_iff, arith}
use giki_wallet.Errors.{Thrown}
use giki_wallet.Async.{Config, Reach, fulfilled, rejected}
use giki_wallet.Async.Act.{run}
use giki_wallet.Async.Invariants.{Keeps, Reach-Inv}
use giki_wallet.Auth.Client.{
  Client, Storage, Request, Answer, Process, SignInPayload, SignUpPayload, AuthResponse,
}
use giki_wallet.Auth.Store.{
  access_token_of, refresh_token_of, incomplete, sign_out, load_me, keep_tokens, verify_and_login,
  login, register_user, rotate, refresh_session,
}
use giki_wallet.Auth.Interceptor.{
  Sent, on_refreshed, subscribe_token_refresh, give_up, refreshed_token, try_refresh, retry,
  on_error,
}
use giki_wallet.Auth.Events.{
  AuthEvent, signing_out, page_loaded, session_refreshed, email_verified, signing_in, signing_up,
  request_failed, auth_action, one_tab, opened,
}

-- Both tokens are there and usable, or neither is there.
abbrev pub Paired : Option String → Option String → Type 0
Paired none none = Unit
Paired (some t) (some r) = (t ≢ "") × (r ≢ "")
Paired _ _ = ⊥

abbrev pub Stored : Client → Type 0
Stored c = Paired c.storage.auth_token c.storage.refresh_token

complete-Paired :
    (r : AuthResponse)
    → incomplete r ≡ false
    → Paired (some (access_token_of r)) (some (refresh_token_of r))
complete-Paired r h =
    (ground (arith, eq_iff (access_token_of r) ""), ground (arith, eq_iff (refresh_token_of r) ""))

abbrev Safely : Process → Type 0
Safely p = (s : Client) → Stored s → Keeps Stored p s Stored

module _ (ok : Unit {0} → Process) (err : Thrown → Process) (next : Safely (ok tt))
    (fails : (e : Thrown) → Safely (err e)) where
  sign_out-Safely : Safely (sign_out ok err)
  unfolding sign_out
  sign_out-Safely s i = (next _ tt, elim [ fulfilled a ↦ λ s' i'. i' | rejected e ↦ λ s' i'. i' ])

  keep_tokens-Safely : (r : AuthResponse) → Safely (keep_tokens r ok err)
  unfolding keep_tokens
  keep_tokens-Safely r s i = ((λ _. fails _ _ i), (λ whole. next _ (complete-Paired r whole)))

  rotate-Safely : (token : String) → Safely (rotate token ok err)
  unfolding rotate
  rotate-Safely token s i = (
    i,
    λ s1 i1. (
      i1,
      elim [
        | fulfilled r ↦ λ s2 i2. ((λ _. fails _ _ i2), (λ whole. next _ (complete-Paired r whole)))
        | rejected e ↦ λ s2 i2. fails e _ i2
      ],
    ),
  )

module _ (ok : Unit {0} → Process) (err : Thrown → Process) (next : Safely (ok tt))
    (fails : (e : Thrown) → Safely (err e)) where
  refresh_session-Safely : Safely (refresh_session ok err)
  unfolding refresh_session
  refresh_session-Safely s i = (
    (λ _. sign_out-Safely ok err next fails s i),
    (λ _. rotate-Safely ok _ next (λ e. sign_out-Safely _ err (fails e) fails) _ s i),
  )

load_me-Safely : Safely (run load_me)
unfolding load_me
load_me-Safely s i =
    ((λ _. i), (λ _. (i, elim [ fulfilled r ↦ λ s' i'. i' | rejected e ↦ λ s' i'. i' ])))

login-Safely : (input : SignInPayload) → Safely (run (login input))
unfolding login
login-Safely input s i = (
  i,
  elim [
    | fulfilled r ↦ keep_tokens-Safely _ _ (λ s' i'. i') (λ e s' i'. i') r
    | rejected e ↦ λ s' i'. i'
  ],
)

verify_and_login-Safely : (token : String) → Safely (run (verify_and_login token))
unfolding verify_and_login
verify_and_login-Safely token s i = (
  i,
  elim [
    | fulfilled r ↦ keep_tokens-Safely _ _ (λ s' i'. i') (λ e s' i'. i') r
    | rejected e ↦ λ s' i'. i'
  ],
)

register_user-Safely : (input : SignUpPayload) → Safely (run (register_user input))
unfolding register_user
register_user-Safely input s i = (i, elim [ fulfilled r ↦ λ s' i'. i' | rejected e ↦ λ s' i'. i' ])

try_refresh-Safely :
    (ok : Option String → Process) (err : Thrown → Process)
    → ((t : Option String) → Safely (ok t))
    → Safely (try_refresh ok err)
unfolding try_refresh refreshed_token on_refreshed
try_refresh-Safely ok err next s i = (
  i,
  λ s1 i1. (
    (λ _. next none s1 i1),
    (λ _.
        refresh_session-Safely _ _
          (λ s2 i2. (i2, λ s3 i3. ((λ _. next none _ i3), (λ _. next _ _ i3))))
          (λ e s2 i2. (i2, λ s3 i3. next none _ i3)) s1 i1),
  ),
)

retry-Safely : (e : Thrown) (t : Option String) → Safely (run (retry e t))
unfolding give_up
retry-Safely e none s i = tt
retry-Safely e (some t) s i = i

on_error-Safely : (q : Sent) (e : Thrown) → Safely (run (on_error q e))
unfolding on_error give_up subscribe_token_refresh
on_error-Safely q e s i = (
  (λ _. i),
  (λ _. ((λ _. tt), (λ _. ((λ _. i), (λ _. try_refresh-Safely _ _ (retry-Safely e) s i))))),
)

action-Safely : (e : AuthEvent) → Safely (auth_action e)
action-Safely signing_out = sign_out-Safely _ _ (λ s i. i) (λ e s i. i)
action-Safely page_loaded = load_me-Safely
action-Safely session_refreshed = refresh_session-Safely _ _ (λ s i. i) (λ e s i. i)
action-Safely (email_verified token) = verify_and_login-Safely token
action-Safely (signing_in input) = login-Safely input
action-Safely (signing_up input) = register_user-Safely input
action-Safely (request_failed q e) = on_error-Safely q e

-- If the application starts with both tokens in `localStorage`, neither of them empty, or with
-- none, then so it is in every state that it reaches, however the actions of the authentication
-- store and the handlers of failed requests overlap and whatever the server answers.
pub tokens-Paired :
    (stored : Storage) (d : Config Client Request Answer)
    → Paired stored.auth_token stored.refresh_token
    → Reach one_tab (record { store = opened stored; waiting = [] }) d
    → Paired d.store.storage.auth_token d.store.storage.refresh_token
tokens-Paired stored d paired r =
    Reach-Inv Stored one_tab (λ p starts s i. rw starts.1 (action-Safely starts.0 s i))
      (λ s s' no i. absurd no) r paired
