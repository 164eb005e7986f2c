-- ===== src/Admin/Settings.antt =====
-- frontend/src/admin/modules/settings: pages/SettingsPage.tsx with service.ts.
mod Loading
use giki_wallet.Common.{String, Bool, true, false, Option, none, some, List, []}
use giki_wallet.Async.{Proc}
use giki_wallet.Async.Act.{Act, ◌>>=◌, ◌>>◌, return, await, spawn, try_catch, finally}
use giki_wallet.Notices.{Session, show, error_toast, success_toast, set_store}

pub record SystemConfig : Type 0 where
  pub key : String
  pub value : String
  pub description : String
  pub updated_at : String

pub data SettingsRequest : Type 0 where
  get_configs : SettingsRequest
  update_config : String → String → SettingsRequest

abbrev pub SettingsAnswer : SettingsRequest → Type 0
SettingsAnswer get_configs = List SystemConfig
SettingsAnswer (update_config key value) = Unit

pub record Settings : Type 0 where
  pub configs : List SystemConfig
  pub loading : Bool
  pub saving : Option String

abbrev pub initial_settings : Settings
initial_settings = record { configs = []; loading = true; saving = none }

abbrev pub SettingsUi : Type 0
SettingsUi = Session Settings

abbrev pub SettingsAction : Type 0 → Type 0
SettingsAction A = Act SettingsUi SettingsRequest SettingsAnswer A

abbrev pub SettingsProcess : Type 0
SettingsProcess = Proc SettingsUi SettingsRequest SettingsAnswer

unfoldable pub fetch_configs : SettingsAction (Unit {0})
fetch_configs =
    finally
      (try_catch
        (do
          set_store (λ s. record s { loading = true })
          found ← await get_configs
          set_store (λ s. record s { configs = found }))
        (λ e. show (error_toast "Failed to fetch configurations")))
      (set_store (λ s. record s { loading = false }))

unfoldable pub handle_update : String → String → SettingsAction (Unit {0})
handle_update key value =
    finally
      (try_catch
        (do
          set_store (λ s. record s { saving = some key })
          await (update_config key value)
          show (success_toast "Configuration updated")
          spawn fetch_configs)
        (λ e. show (error_toast "Failed to update configuration")))
      (set_store (λ s. record s { saving = none }))
