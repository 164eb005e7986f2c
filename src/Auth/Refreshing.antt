-- ===== src/Auth/Refreshing.antt =====
-- The silent refresh of frontend/src/lib/axios.ts: what becomes of the request that met status 401,
-- and of those that queued up behind it.
use giki_wallet.Common.{◌≡◌, refl, ap, ◌++◌, List, [], ◌∷◌, map, ℕ, true, false, none, some}
use giki_wallet.Errors.{Thrown, app_error, extract_api_error}
use giki_wallet.Async.{Reply, fulfilled, rejected, advance, stop}
use giki_wallet.Async.Act.{run}
use giki_wallet.Async.Runs.{
  World, execute, Ends, read, changed, either, resumed, spawned, got, failed, execute-Ends,
  Ends-execute,
}
use giki_wallet.Auth.Client.{Client, Request, Answer, Process, AuthResponse, rotate_tokens}
use giki_wallet.Auth.Store.{
  is_missing, text_of, access_token_of, refresh_token_of, incomplete, refreshed, signed_out,
  sign_out, rotate, refresh_session,
}
use giki_wallet.Auth.Interceptor.{
  Sent, sent_again, queued, is_unauthorized, is_auth_request, on_refreshed, subscribe_token_refresh,
  give_up, refreshed_token, try_refresh, retry, on_error, Outcome,
}

-- The server replies as `reply` says; while a request is out, the requests `late` queue up.
abbrev pub queueing : ((q : Request) → Reply (Answer q)) → List ℕ → World Client Request Answer
queueing reply late = record {
  reply = reply;
  during = λ q c. record c { subscribers = c.subscribers ++ late };
  between = λ c. c;
}

module _ (q : Sent) (e : Thrown) (c : Client) (unauthorized : is_unauthorized e ≡ true)
    (ordinary : is_auth_request q ≡ false) (w : World Client Request Answer)
    (ok : Outcome → Process) (err : Thrown → Process) where
  -- An ordinary request that meets status 401 while `isRefreshing` is set joins the end of the
  -- queue, and nothing else changes.
  pub on_error_queues :
      c.is_refreshing ≡ true
      → execute w (on_error q e ok err) c
        ≡ execute w (ok queued) (record c { subscribers = c.subscribers ++ q.number ∷ [] })
  unfolding on_error subscribe_token_refresh
  on_error_queues busy =
      execute-Ends
        {P = λ c'.
          c' ≡ execute w (ok queued) (record c { subscribers = c.subscribers ++ q.number ∷ [] })}
        (either (λ b. cc)
          (λ _.
            either (λ b. cc) (λ _. read (either (λ _. changed (Ends-execute _ _ refl)) (λ b. cc)))))

module _ (q : Sent) (e : Thrown) (c : Client) (unauthorized : is_unauthorized e ≡ true)
    (ordinary : is_auth_request q ≡ false) (idle : c.is_refreshing ≡ false) (ok : Outcome → Process)
    (err : Thrown → Process) (reply : (q : Request) → Reply (Answer q)) (late : List ℕ) where
  abbrev pub w : World Client Request Answer
  w = queueing reply late

  on_error-Ends :
      (P : Client → Type 0)
      → Ends w P (try_refresh (λ t. retry e t ok err) err) c
      → Ends w P (on_error q e ok err) c
  unfolding on_error
  on_error-Ends P h =
      either (λ b. cc) (λ _. either (λ b. cc) (λ _. read (either (λ b. cc) (λ _. h))))

  -- The tokens are gone; the caller sees the error.
  abbrev pub given_up : Client → Client
  given_up c =
      execute w (err (app_error (extract_api_error e)))
        (record c { storage = record { auth_token = none; refresh_token = none } })

  -- An ordinary request meets status 401 while no refresh runs, and the store has no refresh token:
  -- then the tokens are removed, the caller sees the error, and `isRefreshing` stays set.
  pub on_error_stays_refreshing :
      is_missing c.auth.refresh_token ≡ true
      → execute w (on_error q e ok err) c ≡ given_up (record c { is_refreshing = true })
  unfolding try_refresh refreshed_token give_up
  on_error_stays_refreshing missing =
      execute-Ends {P = λ c'. c' ≡ given_up (record c { is_refreshing = true })} (
        on_error-Ends _
          (changed (resumed (read (either (λ _. changed (Ends-execute _ _ refl)) (λ b. cc))))))

  module _ (known : is_missing c.auth.refresh_token ≡ false)
      (stored : is_missing c.storage.refresh_token ≡ false) where
    -- All that was queued, before and during the refresh, in its order.
    abbrev pub queue : List ℕ
    queue = c.subscribers ++ late

    abbrev pub renewed : AuthResponse → Client
    renewed r = record {
      auth = refreshed r c.auth;
      storage = record {
        auth_token = some (access_token_of r);
        refresh_token = some (refresh_token_of r);
      };
      is_refreshing = false;
      subscribers = [];
      resumed = c.resumed ++ map (λ n. (n, access_token_of r)) queue;
    }

    -- An ordinary request meets status 401 while no refresh runs, the store and `localStorage` have
    -- a refresh token, and the server answers it with two tokens, neither of them empty: then every
    -- request that queued up, before or meanwhile, is sent again with the new token, in the order
    -- of the queue, the queue is empty, and the request itself is sent again with the new token.
    pub on_error_resumes :
        (r : AuthResponse)
        → reply (rotate_tokens (text_of c.storage.refresh_token)) ≡ fulfilled r
        → incomplete r ≡ false
        → execute w (on_error q e ok err) c
          ≡ execute w (ok (sent_again (access_token_of r))) (renewed r)
    unfolding try_refresh refreshed_token refresh_session rotate on_refreshed
    on_error_resumes r answer whole =
        execute-Ends {P = λ c'. c' ≡ execute w (ok (sent_again (access_token_of r))) (renewed r)} (
          on_error-Ends _ (
            changed (
              resumed (
                read (
                  either (λ b. cc)
                    (λ _. read (
                      either (λ b. cc)
                        (λ _. resumed (
                          got answer (
                            either (λ b. cc)
                              (λ _. changed (
                                changed (
                                  resumed (
                                    read (
                                      changed (
                                        either (λ b. cc)
                                          (λ _. changed (Ends-execute _ _ refl))))))))))))))))))

    -- An ordinary request meets status 401 while no refresh runs, the store and `localStorage` have
    -- a refresh token, and the server refuses it: then the user is signed out, the caller sees the
    -- error, and the requests that queued up are dropped, none of them sent again.
    pub on_error_drops :
        (f : Thrown)
        → reply (rotate_tokens (text_of c.storage.refresh_token)) ≡ rejected f
        → execute w (on_error q e ok err) c
          ≡ given_up
              (record c { auth = signed_out c.auth; is_refreshing = false; subscribers = [] })
    unfolding try_refresh refreshed_token refresh_session rotate sign_out give_up advance
    on_error_drops f answer =
        execute-Ends
          {P = λ c'.
            c'
            ≡ given_up
                (record c { auth = signed_out c.auth; is_refreshing = false; subscribers = [] })}
          (on_error-Ends _ (
            changed (
              resumed (
                read (
                  either (λ b. cc)
                    (λ _. read (
                      either (λ b. cc)
                        (λ _. resumed (
                          failed answer (
                            spawned (
                              changed (
                                changed
                                  (resumed (changed (changed (Ends-execute _ _ refl))))))))))))))))

-- The client after a request was handled whose caller does nothing with the outcome.
abbrev pub after_error : World Client Request Answer → Sent → Thrown → Client → Client
after_error w q e c = execute w (run (on_error q e)) c

module _ (first second : Sent) (e f : Thrown) (c : Client)
    (first_unauthorized : is_unauthorized e ≡ true) (first_ordinary : is_auth_request first ≡ false)
    (second_unauthorized : is_unauthorized f ≡ true)
    (second_ordinary : is_auth_request second ≡ false) (idle : c.is_refreshing ≡ false)
    (missing : is_missing c.auth.refresh_token ≡ true) (reply : (q : Request) → Reply (Answer q))
    (late : List ℕ) where
  after_error-refreshing : (after_error (queueing reply late) first e c).is_refreshing ≡ true
  unfolding execute
  after_error-refreshing =
      ap (λ d. d.is_refreshing)
        (on_error_stays_refreshing first e c first_unauthorized first_ordinary idle (λ a. stop)
          (λ a. stop) reply late missing)

  -- An ordinary request meets status 401 while no refresh runs and the store has no refresh token,
  -- and is handled to its end; then the next ordinary request that meets status 401 only joins the
  -- queue, though no refresh runs that could resume it.
  pub on_error_blocks :
      (w : World Client Request Answer) (ok : Outcome → Process) (err : Thrown → Process)
      → let blocked = after_error (queueing reply late) first e c in
        execute w (on_error second f ok err) blocked
        ≡ execute w
            (ok queued)
            (record blocked { subscribers = blocked.subscribers ++ second.number ∷ [] })
  on_error_blocks w ok err =
      on_error_queues second f (after_error (queueing reply late) first e c) second_unauthorized
        second_ordinary w ok err after_error-refreshing
