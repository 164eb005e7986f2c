-- ===== src/Admin/Settings/Loading.antt =====
-- The two flags of SettingsPage.tsx, over every interleaving.
use giki_wallet.Common.{◌≡◌, [], Bool, false, refl, String, is_some}
use giki_wallet.Async.{Page, Config, Reach}
use giki_wallet.Async.Act.{run}
use giki_wallet.Async.Flags.{Pays, stopped, kept, raised, lowered, forked, Reach-lowered}
use giki_wallet.Async.Rules.{awaited}
use giki_wallet.Admin.Settings.{
  SettingsUi, SettingsRequest, SettingsAnswer, SettingsProcess, fetch_configs, handle_update,
}

pub data SettingsEvent : Type 0 where
  configs_wanted : SettingsEvent
  config_saved : String → String → SettingsEvent

abbrev pub settings_action : SettingsEvent → SettingsProcess
settings_action configs_wanted = run fetch_configs
settings_action (config_saved key value) = run (handle_update key value)

abbrev pub settings_page : Page SettingsUi SettingsRequest SettingsAnswer
settings_page = record {
  Starts = λ p. (e : SettingsEvent) × (p ≡ settings_action e);
  Outside = λ s s'. s'.store ≡ s.store;
}

abbrev saves : SettingsUi → Bool
saves u = is_some u.store.saving

abbrev loads : SettingsUi → Bool
loads u = u.store.loading

fetch_configs-saves : (s : SettingsUi) → Pays saves false (run fetch_configs) s
unfolding fetch_configs
fetch_configs-saves s =
    kept refl
      (awaited (λ found s'. kept refl (kept refl stopped)) (λ e s'. kept refl (kept refl stopped)))

fetch_configs-loads : (s : SettingsUi) → Pays loads false (run fetch_configs) s
unfolding fetch_configs
fetch_configs-loads s =
    raised
      (awaited (λ found s'. raised (lowered refl stopped)) (λ e s'. raised (lowered refl stopped)))

action-saves : (e : SettingsEvent) (s : SettingsUi) → Pays saves false (settings_action e) s
unfolding handle_update
action-saves configs_wanted s = fetch_configs-saves s
action-saves (config_saved key value) s = raised (
    awaited (λ u s'. raised (forked (fetch_configs-saves _) (lowered refl stopped)))
      (λ e s'. raised (lowered refl stopped)))

action-loads : (e : SettingsEvent) (s : SettingsUi) → Pays loads false (settings_action e) s
unfolding handle_update
action-loads configs_wanted s = fetch_configs-loads s
action-loads (config_saved key value) s = kept refl (
    awaited (λ u s'. kept refl (forked (fetch_configs-loads _) (kept refl stopped)))
      (λ e s'. kept refl (kept refl stopped)))

module _ (s : SettingsUi) (d : Config SettingsUi SettingsRequest SettingsAnswer)
    (r : Reach settings_page (record { store = s; waiting = [] }) d) (idle : d.waiting ≡ []) where
  -- However the requests of the page overlap, and whatever is answered: once nothing waits any more,
  -- no setting is marked as being saved, provided that none was at first.
  saving_settles : saves s ≡ false → saves d.store ≡ false
  saving_settles down =
      Reach-lowered saves settings_page (λ p starts s. rw starts.1 (action-saves starts.0 s))
        (λ s s' same up. rw same at up) r down idle

  -- The same for `loading`.
  loading_settles : loads s ≡ false → loads d.store ≡ false
  loading_settles down =
      Reach-lowered loads settings_page (λ p starts s. rw starts.1 (action-loads starts.0 s))
        (λ s s' same up. rw same at up) r down idle
