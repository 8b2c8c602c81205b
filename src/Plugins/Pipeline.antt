-- ===== src/Plugins/Pipeline.antt =====
-- The pipeline: internal/plugins/pipeline.go. A run carries the event, the state that the hooks
-- share, and the warnings that were logged. A step ends with a fault where the source returns an
-- error or panics on a nil draft.
pub mod Frame
pub mod Order
pub mod Errors
pub mod Registry
pub mod Invariant
use oastrix.Prelude.{
  ℕ, Str, String, Bool, true, false, Option, none, some, List, [], ◌∷◌, ◌++◌, map, if◌then◌else◌,
}
use oastrix.Failure.{Result, ok, err}
use oastrix.Events.{Event, EventOf, Attributes, HttpEvent, DnsEvent, http_handled, dns_handled}
use oastrix.Plugins.Interfaces.{
  Fault, error, panic, Hook, Store, Plugin, PluginInfo, plugin_type_core, plugin_type_feature,
}

pub record Warning : Type 0 where
  pub message : String
  pub plugin : Option Str

pub record Run (S E : Type 0) : Type 0 where
  pub event : E
  pub state : S
  pub log : List Warning

abbrev pub Step : Type 0 → Type 0 → Type 0
Step S E = Run S E → Option Fault × Run S E

-- A hook with the ID of its plugin, by which `pluginID` names it in the log.
abbrev pub Named : Type 0 → Type 0 → Type 0
Named S E = Str × Hook S E

pub record Pipeline (S : Type 0) : Type 0 where
  pub store : Option (Store S)
  pub plugins : List (Plugin S)
  pub pre_store : List (Named S Event)
  pub post_store : List (Named S Event)
  pub http_response : List (Named S HttpEvent)
  pub dns_response : List (Named S DnsEvent)

abbrev pub is_handled : {R : Type 0} → (R → Bool) → Option R → Bool
is_handled handled none = false
is_handled handled (some resp) = handled resp

abbrev pub plugin_type : Option Bool → Str
plugin_type none = plugin_type_feature
plugin_type (some core) = if core then plugin_type_core else plugin_type_feature

module _ {S E : Type 0} where
  abbrev pub resume : Option Fault × Run S E → Step S E → Option Fault × Run S E
  resume (none, r) k = k r
  resume (some f, r) k = (some f, r)

  -- The error of a hook is logged, and the run goes on.
  abbrev pub settle : String → Option Str → Option Fault × Run S E → Option Fault × Run S E
  settle message plugin (none, r) = (none, r)
  settle message plugin (some (error e), r) =
      (none, record r { log = r.log ++ record { message = message; plugin = plugin } ∷ [] })
  settle message plugin (some panic, r) = (some panic, r)

module _ {S Q R X : Type 0} where
  abbrev pub placed :
      Option Fault × Event × S → Run S (EventOf Q R X) → Option Fault × Run S (EventOf Q R X)
  placed (f, e, s) r = (f, record r { event = record r.event { event = e }; state = s })

  abbrev pub call_event_hook : String → Named S Event → Step S (EventOf Q R X)
  call_event_hook message (id, hook) r =
      settle message (some id) (placed (hook r.event.event r.state) r)

  -- The loops over the PreStore and the PostStore hooks.
  unfoldable pub run_event_hooks : String → List (Named S Event) → Step S (EventOf Q R X)
  run_event_hooks message [] r = (none, r)
  run_event_hooks message (h ∷ hs) r =
      resume (call_event_hook message h r) (run_event_hooks message hs)

  abbrev pub replaced :
      Option Fault × EventOf Q R X × S
      → Run S (EventOf Q R X)
      → Option Fault × Run S (EventOf Q R X)
  replaced (f, e, s) r = (f, record r { event = e; state = s })

  abbrev pub call_response_hook : String → Named S (EventOf Q R X) → Step S (EventOf Q R X)
  call_response_hook message (id, hook) r =
      settle message (some id) (replaced (hook r.event r.state) r)

  -- The loop over the response hooks, which ends at the first one that handles the event.
  unfoldable pub run_response_hooks :
      (R → Bool) → String → List (Named S (EventOf Q R X)) → Step S (EventOf Q R X)
  run_response_hooks handled message [] r = (none, r)
  run_response_hooks handled message (h ∷ hs) r = resume (call_response_hook message h r) (λ r'.
      let rest = run_response_hooks handled message hs r' in
      if is_handled handled r'.event.resp then (none, r') else rest)

  abbrev pub saved :
      Result (Unit {0}) × S → Run S (EventOf Q R X) → Option Fault × Run S (EventOf Q R X)
  saved (ok u, s) r = (none, record r { state = s })
  saved (err e, s) r =
      settle "failed to save attributes" none (some (error e), record r { state = s })

  abbrev pub save_step : Store S → ℕ → Attributes → Step S (EventOf Q R X)
  save_step store id [] r = (none, r)
  save_step store id (a ∷ attrs) r = saved (store.save_attributes id (a ∷ attrs) r.state) r

  abbrev pub created : Store S → Attributes → Result ℕ × S → Step S (EventOf Q R X)
  created store attrs (err e, s) r = (some (error e), record r { state = s })
  created store attrs (ok id, s) r = save_step store id attrs (record r {
    event = record r.event { event = record r.event.event { interaction_id = id } };
    state = s;
  })

  -- The statements between the two loops over event hooks.
  unfoldable pub store_step : Option (Store S) → Step S (EventOf Q R X)
  store_step store r = elim r.event.event.draft [
    | none ↦ (some panic, r)
    | some draft ↦ if draft.drop then (none, r) else elim store [
      | none ↦ (none, r)
      | some st ↦ created st draft.attributes (st.create_interaction draft r.state) r
    ]
  ]

  -- The body that `ProcessHTTP` and `ProcessDNS` share.
  unfoldable pub process :
      (R → Bool) → String → Pipeline S → List (Named S (EventOf Q R X)) → Step S (EventOf Q R X)
  process handled message p hooks r =
      resume (run_event_hooks "prestore hook error" p.pre_store r) (λ r1.
        resume (store_step p.store r1) (λ r2.
          resume (run_event_hooks "poststore hook error" p.post_store r2)
            (λ r3. run_response_hooks handled message hooks r3)))

module _ {S : Type 0} where
  unfoldable pub process_http : Pipeline S → Step S HttpEvent
  unfolding process
  process_http p = process http_handled "http response hook error" p p.http_response

  unfoldable pub process_dns : Pipeline S → Step S DnsEvent
  unfolding process
  process_dns p = process dns_handled "dns response hook error" p p.dns_response

  unfoldable pub new_pipeline : Pipeline S
  new_pipeline = record {
    store = none;
    plugins = [];
    pre_store = [];
    post_store = [];
    http_response = [];
    dns_response = [];
  }

  unfoldable pub set_store : Store S → Pipeline S → Pipeline S
  set_store store p = record p { store = some store }

  abbrev pub add_hook : {E : Type 0} → Str → Option (Hook S E) → List (Named S E) → List (Named S E)
  add_hook id none hooks = hooks
  add_hook id (some hook) hooks = hooks ++ (id, hook) ∷ []

  unfoldable pub register : Plugin S → Pipeline S → Pipeline S
  register plugin p = record p {
    plugins = p.plugins ++ plugin ∷ [];
    pre_store = add_hook plugin.id plugin.on_pre_store p.pre_store;
    post_store = add_hook plugin.id plugin.on_post_store p.post_store;
    http_response = add_hook plugin.id plugin.on_http_response p.http_response;
    dns_response = add_hook plugin.id plugin.on_dns_response p.dns_response;
  }

  abbrev pub plugin_info : Plugin S → PluginInfo
  plugin_info plugin = record {
    id = plugin.id;
    type = plugin_type plugin.is_core;
    enabled = true;
    config = plugin.config;
  }

  unfoldable pub list_plugins : Pipeline S → List PluginInfo
  list_plugins p = map plugin_info p.plugins
