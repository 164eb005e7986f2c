-- ===== src/Auth/Tests.antt =====
-- The authentication store and the interceptor on concrete inputs.
use giki_wallet.Common.{◌≡◌, refl, ap, true, false, none, some, [], ◌∷◌}
use giki_wallet.Errors.{Thrown, http_error, js_error, other}
use giki_wallet.Async.{
  Reply, fulfilled, rejected, Proc, stop, advance, Config, start, answer, Reach, here, next,
}
use giki_wallet.Async.Act.{run}
use giki_wallet.Async.Runs.{World, execute}
use giki_wallet.Auth.User.{student}
use giki_wallet.Auth.Client.{
  Client, Storage, AuthResponse, SignInPayload, Request, Answer, sign_in, rotate_tokens,
}
use giki_wallet.Auth.Store.{map_auth_response_to_user, signed_out, incomplete, login, keep_tokens}
use giki_wallet.Auth.Interceptor.{Sent, on_error, try_refresh, refreshed_token, give_up}
use giki_wallet.Auth.Events.{one_tab, many_tabs, opened, signing_in}
use giki_wallet.Auth.Loading.{is_loading_settles}
use giki_wallet.Auth.Tokens.{Paired, tokens-Paired}
use giki_wallet.Auth.Signing.{IsSignedIn, after_failure, login-IsSignedIn, login_fails}
use giki_wallet.Auth.Refreshing.{
  queueing, after_error, on_error_blocks, on_error_resumes, on_error_drops,
}

abbrev nothing_stored : Storage
nothing_stored = record { auth_token = none; refresh_token = none }

abbrev tokens_stored : Storage
tokens_stored = record { auth_token = some "a1"; refresh_token = some "r1" }

abbrev credentials : SignInPayload
credentials = record { email = "ali@giki.edu.pk"; password = "secret" }

abbrev ali_signed_in : AuthResponse
ali_signed_in = record {
  id = "u1";
  name = "Ali";
  email = "ali@giki.edu.pk";
  phone_number = none;
  user_type = student;
  auth = some (record { access_token = "a2"; refresh_token = "r2" });
}

abbrev granting : (q : Request) → Reply (Answer q)
granting (sign_in input) = fulfilled ali_signed_in
granting (rotate_tokens t) = fulfilled ali_signed_in
granting _ = rejected other

abbrev refusing : (q : Request) → Reply (Answer q)
refusing q = rejected (js_error "no")

abbrev alone : ((q : Request) → Reply (Answer q)) → World Client Request Answer
alone reply = queueing reply []

abbrev after_login : Config Client Request Answer
after_login = record {
  store = record (opened nothing_stored) {
    auth = record {
      token = some "a2";
      refresh_token = some "r2";
      user = some (map_auth_response_to_user ali_signed_in);
      is_loading = false;
      initialized = true;
      error = none;
    };
    storage = record { auth_token = some "a2"; refresh_token = some "r2" };
  };
  waiting = [];
}

logged_in : Reach one_tab (record { store = opened nothing_stored; waiting = [] }) after_login
unfolding advance login keep_tokens
logged_in =
    next (next here (start (run (login credentials)) (signing_in credentials, refl)))
      (answer [] [] (sign_in credentials) _ (fulfilled ali_signed_in) refl)

logged_in_here :
    Reach many_tabs (record { store = opened nothing_stored; waiting = [] }) after_login
unfolding advance login keep_tokens
logged_in_here =
    next (next here (start (run (login credentials)) (signing_in credentials, refl)))
      (answer [] [] (sign_in credentials) _ (fulfilled ali_signed_in) refl)

is_loading_settles_example : after_login.store.auth.is_loading ≡ false
is_loading_settles_example = is_loading_settles nothing_stored after_login logged_in_here refl

tokens-Paired_example : Paired (some "a2") (some "r2")
tokens-Paired_example = tokens-Paired nothing_stored after_login tt logged_in

login-IsSignedIn_example :
    IsSignedIn ali_signed_in
      (execute (alone granting) (run (login credentials)) (opened nothing_stored))
login-IsSignedIn_example =
    login-IsSignedIn (alone granting) credentials (opened nothing_stored) ali_signed_in refl refl

abbrev ends_quietly : {A : Type 0} → A → Proc Client Request Answer
ends_quietly a = stop

login_fails_example :
    ((e : Thrown)
      → refusing (sign_in credentials) ≡ rejected e
      → execute
          (alone refusing)
          (login credentials ends_quietly ends_quietly)
          (opened nothing_stored)
        ≡ after_failure
            (alone refusing)
            credentials
            (opened nothing_stored)
            ends_quietly
            ends_quietly
            e)
    × ((r : AuthResponse)
        → refusing (sign_in credentials) ≡ fulfilled r
        → incomplete r ≡ true
        → execute
            (alone refusing)
            (login credentials ends_quietly ends_quietly)
            (opened nothing_stored)
          ≡ after_failure
              (alone refusing)
              credentials
              (opened nothing_stored)
              ends_quietly
              ends_quietly
              (js_error "Incomplete token pair received"))
login_fails_example =
    login_fails (alone refusing) credentials (opened nothing_stored) ends_quietly ends_quietly

abbrev fetching : Sent
fetching = record { number = 1; url = "/wallet/balance" }

abbrev unauthorized : Thrown
unauthorized = http_error (some (record { body = none; status = 401 })) ""

on_error_blocks_example :
    execute
      (alone refusing)
      (on_error fetching unauthorized ends_quietly ends_quietly)
      (after_error (alone refusing) fetching unauthorized (opened nothing_stored))
    ≡ record (opened nothing_stored) { is_refreshing = true; subscribers = 1 ∷ [] }
unfolding execute advance on_error try_refresh refreshed_token give_up
on_error_blocks_example =
    on_error_blocks fetching fetching unauthorized unauthorized (opened nothing_stored) refl refl
      refl refl refl refl refusing [] (alone refusing) ends_quietly ends_quietly

on_error_resumes_example :
    (execute
      (queueing granting (2 ∷ 3 ∷ []))
      (on_error fetching unauthorized ends_quietly ends_quietly)
      (opened tokens_stored)).resumed
    ≡ (2, "a2") ∷ (3, "a2") ∷ []
unfolding execute
on_error_resumes_example =
    ap (λ c. c.resumed)
      (on_error_resumes fetching unauthorized (opened tokens_stored) refl refl refl ends_quietly
        ends_quietly granting (2 ∷ 3 ∷ []) refl refl ali_signed_in refl refl)

on_error_drops_example :
    execute
      (queueing refusing (2 ∷ []))
      (on_error fetching unauthorized ends_quietly ends_quietly)
      (opened tokens_stored)
    ≡ record (opened nothing_stored) { auth = signed_out (opened nothing_stored).auth }
unfolding execute
on_error_drops_example =
    on_error_drops fetching unauthorized (opened tokens_stored) refl refl refl ends_quietly
      ends_quietly refusing (2 ∷ []) refl refl (js_error "no") refl
