-- ===== src/Plugins/Interfaces.antt =====
-- Plugins and their hooks: internal/plugins/interfaces.go. An object that may implement a
-- capability interface is a record with an `Option` for each. Hooks work on a state `S`, which
-- holds all that they share: for the plugins of the program, the database. What is passed by
-- pointer comes back beside the error, also when there is one.
use oastrix.Events.{DnsEvent, HttpEvent, Event, InteractionDraft, Attributes}
use oastrix.Prelude.{ℕ, Str, bytes, Bool, Option}
use oastrix.Failure.{Error, Result}

-- How a hook can fail: it returns an error, or it panics on a nil pointer.
pub data Fault : Type 0 where
  error : Error → Fault
  panic : Fault

abbrev pub Hook : Type 0 → Type 0 → Type 0
Hook S E = E → S → Option Fault × E × S

pub record Store (S : Type 0) : Type 0 where
  pub resolve_token_id : Str → S → Result (Option ℕ) × S
  pub create_interaction : InteractionDraft → S → Result ℕ × S
  pub save_attributes : ℕ → Attributes → S → Result (Unit {0}) × S

abbrev pub plugin_type_core : Str
plugin_type_core = bytes "core"

abbrev pub plugin_type_feature : Str
plugin_type_feature = bytes "feature"

-- `is_core` is the answer of `IsCore`, and `config` of `Config`, where the plugin has the method.
pub record Plugin (S : Type 0) : Type 0 where
  pub id : Str
  pub is_core : Option Bool
  pub config : Option Attributes
  pub on_pre_store : Option (Hook S Event)
  pub on_post_store : Option (Hook S Event)
  pub on_http_response : Option (Hook S HttpEvent)
  pub on_dns_response : Option (Hook S DnsEvent)

pub record PluginInfo : Type 0 where
  pub id : Str
  pub type : Str
  pub enabled : Bool
  pub config : Option Attributes
