-- ===== src/Auth/Events.antt =====
-- What may start an action on the authentication store and the tokens: the pages, and every request
-- that fails.
use giki_wallet.Common.{String, ◌≡◌, false, none, []}
use giki_wallet.Errors.{Thrown}
use giki_wallet.Async.{Page}
use giki_wallet.Async.Act.{run}
use giki_wallet.Auth.Client.{
  Client, Storage, Request, Answer, Process, SignInPayload, SignUpPayload,
}
use giki_wallet.Auth.Store.{
  sign_out, load_me, verify_and_login, login, register_user, refresh_session,
}
use giki_wallet.Auth.Interceptor.{Sent, on_error}

pub data AuthEvent : Type 0 where
  signing_out page_loaded session_refreshed : AuthEvent
  email_verified : String → AuthEvent
  signing_in : SignInPayload → AuthEvent
  signing_up : SignUpPayload → AuthEvent
  request_failed : Sent → Thrown → AuthEvent

abbrev pub auth_action : AuthEvent → Process
auth_action signing_out = run sign_out
auth_action page_loaded = run load_me
auth_action session_refreshed = run refresh_session
auth_action (email_verified token) = run (verify_and_login token)
auth_action (signing_in input) = run (login input)
auth_action (signing_up input) = run (register_user input)
auth_action (request_failed q e) = run (on_error q e)

-- Nothing else changes the store or the tokens.
abbrev pub one_tab : Page Client Request Answer
one_tab = record { Starts = λ p. (e : AuthEvent) × (p ≡ auth_action e); Outside = λ s s'. ⊥ }

-- Other tabs may change the tokens of `localStorage` at any time.
abbrev pub many_tabs : Page Client Request Answer
many_tabs = record {
  Starts = λ p. (e : AuthEvent) × (p ≡ auth_action e);
  Outside = λ s s'. s'.auth ≡ s.auth;
}

-- The application as it starts with the tokens that `localStorage` has.
abbrev pub opened : Storage → Client
opened stored = record {
  auth = record {
    token = stored.auth_token;
    refresh_token = stored.refresh_token;
    user = none;
    is_loading = false;
    initialized = false;
    error = none;
  };
  storage = stored;
  is_refreshing = false;
  subscribers = [];
  resumed = [];
}
