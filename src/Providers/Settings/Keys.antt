-- ===== src/Providers/Settings/Keys.antt =====
-- settings-dialog.tsx: the sections that connect OpenRouter and OpenCode Zen by a key.
pub mod Laws
use text.Mathlib.Text.{starts_with}
use fleet_agent.Base.{
  ℕ, String, Bool, true, false, not, Option, none, some, List, length, ltb, trim, is_empty, ◌||◌,
  if◌then◌else◌,
}
use fleet_agent.Browser.{Tab}
use fleet_agent.Providers.Auth.{Config}
use fleet_agent.Providers.OpenRouter
use fleet_agent.Providers.OpenRouter.Masking.{mask_api_key}
use fleet_agent.Providers.OpenCodeZen
use fleet_agent.Providers.Hooks.{AuthView, is_authenticated, enter_key, sign_out, act}
use fleet_agent.Threads.Units.{utf16}

pub data Vendor : Type 0 where
  openrouter opencode_zen : Vendor

abbrev pub config_of : Vendor → Config
config_of openrouter = OpenRouter.config
config_of opencode_zen = OpenCodeZen.config

-- whether the hook reads a key back
abbrev pub rereads : Vendor → Bool
rereads openrouter = false
rereads opencode_zen = true

pub record KeyForm : Type 0 where
  pub key_input : String
  pub show_key_form : Bool
  pub key_error : Option String

-- What is wrong with a trimmed key.
unfoldable pub key_refusal : Vendor → String → Option String
key_refusal openrouter key =
    if is_empty key
    then some "Please enter a valid API key."
    else if starts_with key "sk-or-" || starts_with key "sk-"
    then none
    else some "OpenRouter API keys typically begin with \"sk-or-\"."
key_refusal opencode_zen key =
    if is_empty key
    then some "Please enter a valid OpenCode Zen API key."
    else if ltb (length (utf16 key)) 8
    then some "That key looks too short to be valid."
    else none

abbrev pub closed_key_form : KeyForm
closed_key_form = record { key_input = ""; show_key_form = false; key_error = none }

-- `handleManualKeySubmit` and `handleOpenCodeZenKeySubmit`
unfoldable pub submit_key : Vendor → (Tab × AuthView) × KeyForm → (Tab × AuthView) × KeyForm
unfolding key_refusal
submit_key vendor (s, k) = elim (key_refusal vendor (trim k.key_input)) [
  | some message ↦ (s, record k { key_error = some message })
  | none ↦
      (act (rereads vendor) (config_of vendor) (enter_key (trim k.key_input)) s, closed_key_form)
]

unfoldable pub toggle_key_form : KeyForm → KeyForm
toggle_key_form k = record k { show_key_form = not k.show_key_form }

unfoldable pub change_key : String → KeyForm → KeyForm
change_key value k = record k { key_input = value }

-- the button "Disconnect"
unfoldable pub disconnect : Vendor → (Tab × AuthView) × KeyForm → (Tab × AuthView) × KeyForm
disconnect vendor (s, k) = (act (rereads vendor) (config_of vendor) sign_out s, k)

-- the button "Dismiss error", which OpenRouter's section has
unfoldable pub clear_error : AuthView → AuthView
clear_error v = record v { error = none }

pub record KeyInput : Type 0 where
  pub value : String
  pub can_save : Bool
  pub error : Option String

-- What stands in a section: a masked key, or the button that shows and hides a form.
pub data SectionBody : Type 0 where
  connected : List ℕ → SectionBody
  disconnected : String → Option KeyInput → SectionBody

pub record KeySection : Type 0 where
  pub badge : String
  pub error : Option String
  pub body : SectionBody

abbrev toggle_label : Vendor → Bool → String
toggle_label vendor true = "Cancel"
toggle_label openrouter false = "Or paste API key manually"
toggle_label opencode_zen false = "Add OpenCode Zen API Key"

abbrev key_input_of : KeyForm → Option KeyInput
key_input_of k =
    if k.show_key_form
    then some (record {
      value = k.key_input;
      can_save = not (is_empty (trim k.key_input));
      error = k.key_error;
    })
    else none

abbrev units_of : Option String → Option (List ℕ)
units_of none = none
units_of (some key) = some (utf16 key)

-- OpenCode Zen's section shows no error of its hook, which has none.
unfoldable pub key_section : Vendor → AuthView → KeyForm → KeySection
key_section vendor v k =
    if is_authenticated v
    then record {
      badge = "Connected";
      error = v.error;
      body = connected (mask_api_key (units_of v.api_key));
    }
    else record {
      badge = "Disconnected";
      error = v.error;
      body = disconnected (toggle_label vendor k.show_key_form) (key_input_of k);
    }
