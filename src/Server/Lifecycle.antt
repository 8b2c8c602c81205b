-- ===== src/Server/Lifecycle.antt =====
-- Listeners that serve in goroutines, and how they are started and stopped:
-- internal/server/lifecycle.go. The goroutine and the thread that waits for it take their steps in
-- any order; the channel between them holds one error. What a listener returns, and when, is open.
pub mod Channel
pub mod Managed
pub mod Progress
use oastrix.Prelude.{
  ℕ, suc, ◌+◌, ◌≡◌, not, is_some, Str, Bool, true, false, Option, none, some, if◌then◌else◌,
}

-- `Config`, for TLS configurations of the type `T`; the handler and the logger are left out. The
-- address is ":" and the port, and a time is in seconds.
pub record Config (T : Type 0) : Type 0 where
  pub port : ℕ
  pub tls_config : Option T
  pub read_header_timeout : ℕ
  pub read_timeout : ℕ
  pub write_timeout : ℕ

unfoldable pub default_server_config : {T : Type 0} → ℕ → Config T
default_server_config port = record {
  port = port;
  tls_config = none;
  read_header_timeout = 10;
  read_timeout = 30;
  write_timeout = 30;
}

-- `useTLS`: the server listens with TLS, or without.
unfoldable pub use_tls : {T : Type 0} → Config T → Bool
use_tls cfg = is_some cfg.tls_config

-- The errors of `ListenAndServe`.
pub data ServeError : Type 0 where
  -- `http.ErrServerClosed`
  server_closed : ServeError
  listen_failed : Str → ServeError

-- Where the goroutine of a listener stands: it does not run yet, it serves, it has an error to send,
-- it is about to close the channel, it has ended.
pub data Phase : Type 0 where
  idle : Phase
  serving : Phase
  sending : ServeError → Phase
  closing : Phase
  ended : Phase

-- A goroutine and its channel, of capacity 1. `outcome` is what the listener returned, once it has.
pub record Listener : Type 0 where
  pub phase : Phase
  pub buffer : Option ServeError
  pub closed : Bool
  pub outcome : Option (Option ServeError)

-- `make(chan error, 1)`, before `go func`.
abbrev pub new_listener : Listener
new_listener = record { phase = idle; buffer = none; closed = false; outcome = none }

-- `err != nil && err != http.ErrServerClosed`
abbrev pub is_reported : ServeError → Bool
is_reported server_closed = false
is_reported (listen_failed why) = true

-- The phase after the listener returned: the test says which errors are sent.
abbrev pub after_serving : (ServeError → Bool) → Option ServeError → Phase
after_serving test none = closing
after_serving test (some e) = if test e then sending e else closing

abbrev pub returned : (ServeError → Bool) → Option ServeError → Listener → Listener
returned test o l = record l { phase = after_serving test o; outcome = some o }

-- The steps of the goroutine. A send waits until there is room in the channel.
pub data Runs (test : ServeError → Bool) (l : Listener) : Listener → Type 0 where
  serve : (o : Option ServeError) → l.phase ≡ serving → Runs test l (returned test o l)
  send :
      (e : ServeError)
      → l.phase ≡ sending e
      → l.buffer ≡ none
      → Runs test l (record l { buffer = some e; phase = closing })
  close : l.phase ≡ closing → Runs test l (record l { closed = true; phase = ended })

-- A receive: what is in the buffer, else nil once the channel is closed, else it waits.
abbrev pub receive : Listener → Option (Option ServeError × Listener)
receive l = elim l.buffer [
  | some e ↦ some (some e, record l { buffer = none })
  | none ↦ if l.closed then some (none, l) else none
]

-- The calls of the thread that owns the server: `Start`, `WaitForStartup`, `Shutdown`.
pub data Stage : Type 0 where
  created waiting waited stopped : Stage

-- `ManagedServer`. `result` is what `WaitForStartup` returned, once it has, and `shutdown_called`
-- tells whether the HTTP server was asked to shut down.
pub record ManagedServer : Type 0 where
  pub listener : Listener
  pub start_err : Option ServeError
  pub stage : Stage
  pub result : Option (Option ServeError)
  pub shutdown_called : Bool

unfoldable pub new_managed_server : ManagedServer
new_managed_server = record {
  listener = new_listener;
  start_err = none;
  stage = created;
  result = none;
  shutdown_called = false;
}

unfoldable pub start : ManagedServer → ManagedServer
start m = record m { listener = record m.listener { phase = serving }; stage = waiting }

-- `WaitForStartup` after its select took a value from the channel, and left the listener so.
unfoldable pub wait_received : Option ServeError → Listener → ManagedServer → ManagedServer
wait_received none l m = record m { listener = l; stage = waited; result = some none }
wait_received (some e) l m = record m {
  listener = l;
  stage = waited;
  result = some (some e);
  start_err = some e;
}

-- `WaitForStartup` after its select took the timeout.
unfoldable pub wait_timed_out : ManagedServer → ManagedServer
wait_timed_out m = record m { stage = waited; result = some none }

unfoldable pub shutdown : ManagedServer → ManagedServer
shutdown m = record m { stage = stopped; shutdown_called = not (is_some m.start_err) }

infix 40 ◌⟶◌ ◌⟶*◌
pub data ◌⟶◌ (m : ManagedServer) : ManagedServer → Type 0 where
  go : (l : Listener) → Runs is_reported m.listener l → m ⟶ record m { listener = l }
  starts : m.stage ≡ created → m ⟶ start m
  receives :
      (o : Option ServeError) (l : Listener)
      → m.stage ≡ waiting
      → receive m.listener ≡ some (o, l)
      → m ⟶ wait_received o l m
  times_out : m.stage ≡ waiting → m ⟶ wait_timed_out m
  shuts_down : m.stage ≡ waited → m ⟶ shutdown m

pub data ◌⟶*◌ (m : ManagedServer) : ManagedServer → Type 0 where
  here : m ⟶* m
  after : {t u : ManagedServer} → m ⟶* t → t ⟶ u → m ⟶* u
