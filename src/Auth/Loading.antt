-- ===== src/Auth/Loading.antt =====
-- The flag `isLoading` of the authentication store, over every interleaving.
use giki_wallet.Common.{◌≡◌, [], Bool, false, refl, Option, none, some, String}
use giki_wallet.Errors.{Thrown}
use giki_wallet.Async.{Config, Reach}
use giki_wallet.Async.Act.{run}
use giki_wallet.Async.Flags.{
  Pays, stopped, looked, kept, raised, lowered, cleared, tested, paused, forked, Reach-lowered,
}
use giki_wallet.Async.Rules.{awaited}
use giki_wallet.Auth.Client.{
  Client, Storage, Request, Answer, Process, SignInPayload, SignUpPayload,
}
use giki_wallet.Auth.Store.{
  sign_out, load_me, keep_tokens, verify_and_login, login, register_user, rotate, refresh_session,
}
use giki_wallet.Auth.Interceptor.{
  Sent, on_refreshed, subscribe_token_refresh, give_up, refreshed_token, try_refresh, retry,
  on_error,
}
use giki_wallet.Auth.Events.{
  AuthEvent, signing_out, page_loaded, session_refreshed, email_verified, signing_in, signing_up,
  request_failed, auth_action, many_tabs, opened,
}

abbrev busy : Client → Bool
busy c = c.auth.is_loading

abbrev IsQuiet : Process → Type 0
IsQuiet p = (s : Client) → Pays busy false p s

module _ (ok : Unit {0} → Process) (err : Thrown → Process) (next : IsQuiet (ok tt))
    (fails : (e : Thrown) → IsQuiet (err e)) (s : Client) where
  sign_out_quiet : Pays busy false (sign_out ok err) s
  unfolding sign_out
  sign_out_quiet =
      forked (awaited (λ a s'. stopped) (λ e s'. stopped)) (kept refl (cleared refl (next _)))

  rotate_quiet : (token : String) → Pays busy false (rotate token ok err) s
  unfolding rotate
  rotate_quiet token = paused (λ s1.
      awaited (λ r s2. tested (λ _. fails _ s2) (λ _. kept refl (kept refl (next _))))
        (λ e s2. fails e s2))

refresh_session-IsQuiet :
    (ok : Unit {0} → Process) (err : Thrown → Process)
    → IsQuiet (ok tt)
    → ((e : Thrown) → IsQuiet (err e))
    → IsQuiet (refresh_session ok err)
unfolding refresh_session
refresh_session-IsQuiet ok err next fails s = looked (
    tested (λ _. sign_out_quiet ok err next fails s)
      (λ _. rotate_quiet ok _ next (λ e s'. sign_out_quiet _ err (fails e) fails s') s _))

load_me-IsQuiet : IsQuiet (run load_me)
unfolding load_me
load_me-IsQuiet s = looked (
    tested (λ _. kept refl stopped)
      (λ _. awaited (λ r s'. looked (kept refl stopped)) (λ e s'. kept refl stopped)))

login-IsQuiet : (input : SignInPayload) → IsQuiet (run (login input))
unfolding login keep_tokens
login-IsQuiet input s = raised (
    awaited (λ r s'. tested (λ _. lowered refl stopped) (λ _. kept refl (lowered refl stopped)))
      (λ e s'. lowered refl stopped))

verify_and_login-IsQuiet : (token : String) → IsQuiet (run (verify_and_login token))
unfolding verify_and_login keep_tokens
verify_and_login-IsQuiet token s = raised (
    awaited (λ r s'. tested (λ _. lowered refl stopped) (λ _. kept refl (lowered refl stopped)))
      (λ e s'. lowered refl stopped))

register_user-IsQuiet : (input : SignUpPayload) → IsQuiet (run (register_user input))
unfolding register_user
register_user-IsQuiet input s =
    raised (awaited (λ r s'. lowered refl stopped) (λ e s'. lowered refl stopped))

try_refresh-IsQuiet :
    (ok : Option String → Process) (err : Thrown → Process)
    → ((t : Option String) → IsQuiet (ok t))
    → IsQuiet (try_refresh ok err)
unfolding try_refresh refreshed_token on_refreshed
try_refresh-IsQuiet ok err next s = kept refl (
    paused (λ s1. looked (
      tested (λ _. next none s1)
        (λ _.
          refresh_session-IsQuiet _ _
            (λ s2.
              paused
                (λ s3. looked (kept refl (tested (λ _. next none _) (λ _. kept refl (next _ _))))))
            (λ e s2. paused (λ s3. kept refl (next none _))) s1))))

retry-IsQuiet : (e : Thrown) (t : Option String) → IsQuiet (run (retry e t))
unfolding give_up
retry-IsQuiet e none s = kept refl stopped
retry-IsQuiet e (some t) s = stopped

on_error-IsQuiet : (q : Sent) (e : Thrown) → IsQuiet (run (on_error q e))
unfolding on_error give_up subscribe_token_refresh
on_error-IsQuiet q e s =
    tested (λ _. stopped)
      (λ _.
        tested (λ _. kept refl stopped)
          (λ _.
            looked
              (tested (λ _. kept refl stopped) (λ _. try_refresh-IsQuiet _ _ (retry-IsQuiet e) s))))

action-IsQuiet : (e : AuthEvent) → IsQuiet (auth_action e)
action-IsQuiet signing_out = sign_out_quiet _ _ (λ s. stopped) (λ e s. stopped)
action-IsQuiet page_loaded = load_me-IsQuiet
action-IsQuiet session_refreshed = refresh_session-IsQuiet _ _ (λ s. stopped) (λ e s. stopped)
action-IsQuiet (email_verified token) = verify_and_login-IsQuiet token
action-IsQuiet (signing_in input) = login-IsQuiet input
action-IsQuiet (signing_up input) = register_user-IsQuiet input
action-IsQuiet (request_failed q e) = on_error-IsQuiet q e

-- However the actions of the authentication store and the handlers of failed requests overlap,
-- whatever the server answers and whatever other tabs do to the stored tokens: from the start of
-- the application, whenever nothing waits any more, `isLoading` is false.
pub is_loading_settles :
    (stored : Storage) (d : Config Client Request Answer)
    → Reach many_tabs (record { store = opened stored; waiting = [] }) d
    → d.waiting ≡ []
    → d.store.auth.is_loading ≡ false
is_loading_settles stored d r idle =
    Reach-lowered busy many_tabs (λ p starts s. rw starts.1 (action-IsQuiet starts.0 s))
      (λ s s' same up. rw same at up) r refl idle
