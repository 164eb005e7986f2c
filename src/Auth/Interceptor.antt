-- ===== src/Auth/Interceptor.antt =====
-- frontend/src/lib/axios.ts: what the HTTP client does with a request that failed.
use giki_wallet.Common.{
  ℕ, String, Bool, true, false, ◌||◌, not, Option, none, some, [], ◌∷◌, ◌++◌, map, nat_eq, codes,
  includes,
}
use giki_wallet.Errors.{Thrown, http_error, app_error, extract_api_error}
use giki_wallet.Async.Act.{◌>>=◌, ◌>>◌, return, throw, set, get, await_act, branch, try_catch}
use giki_wallet.Auth.Client.{Action}
use giki_wallet.Auth.Store.{is_missing, text_of, refresh_session, set_storage}

-- A request is a number, and the address it was sent to.
pub record Sent : Type 0 where
  pub number : ℕ
  pub url : String

-- What the caller's promise becomes, if it is not rejected: the reply to the request sent again with
-- a token, or a promise that settles when the queue is resumed.
pub data Outcome : Type 0 where
  sent_again : String → Outcome
  queued : Outcome

abbrev pub is_unauthorized : Thrown → Bool
is_unauthorized (http_error (some r) message) = nat_eq r.status 401
is_unauthorized _ = false

abbrev pub is_auth_request : Sent → Bool
is_auth_request q =
    includes (codes "/auth/signin") (codes q.url) || includes (codes "/auth/refresh") (codes q.url)

abbrev pub set_refreshing : Bool → Action (Unit {0})
set_refreshing b = set (λ c. record c { is_refreshing = b })

-- `onRereshed`.
unfoldable pub on_refreshed : String → Action (Unit {0})
on_refreshed token =
    set (λ c. record c {
      subscribers = [];
      resumed = c.resumed ++ map (λ n. (n, token)) c.subscribers;
    })

unfoldable pub subscribe_token_refresh : ℕ → Action (Unit {0})
subscribe_token_refresh n = set (λ c. record c { subscribers = c.subscribers ++ n ∷ [] })

-- The end of the handler: the tokens are removed and the caller sees the error.
unfoldable pub give_up : Thrown → Action Outcome
give_up e = set_storage none none >> throw (app_error (extract_api_error e))

-- The body of the `try`: the new token, if there is one.
unfoldable pub refreshed_token : Action (Option String)
refreshed_token = do
  await_act (return tt)
  c ← get
  branch (is_missing c.auth.refresh_token) (return none) (do
    await_act refresh_session
    now ← get
    set_refreshing false
    branch (is_missing now.storage.auth_token) (return none)
        (on_refreshed (text_of now.storage.auth_token) >> return now.storage.auth_token))

-- The whole `try` and `catch`.
unfoldable pub try_refresh : Action (Option String)
try_refresh = do
  set_refreshing true
  try_catch refreshed_token
      (λ e. set (λ c. record c { is_refreshing = false; subscribers = [] }) >> return none)

abbrev pub retry : Thrown → Option String → Action Outcome
retry e none = give_up e
retry e (some token) = return (sent_again token)

-- The rejection handler of the response interceptor.
unfoldable pub on_error : Sent → Thrown → Action Outcome
on_error q e = branch (not (is_unauthorized e)) (throw (app_error (extract_api_error e))) (
    branch (is_auth_request q) (give_up e) (do
      c ← get
      branch c.is_refreshing (subscribe_token_refresh q.number >> return queued)
          (do token ← try_refresh; retry e token)))
