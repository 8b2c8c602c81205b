-- ===== src/Server/DnsStart.antt =====
-- `Start` and `Shutdown` of internal/server/dns.go: two listeners in goroutines, and the loop of two
-- selects that waits for them. Every error of a listener is sent. The loop takes its selects in any
-- order that the channels and the timer allow.
pub mod Truthful
pub mod Progress
use oastrix.Prelude.{ℕ, zero, suc, ◌≡◌, Bool, true, false, Option, none, some}
use oastrix.Server.Lifecycle.{ServeError, serving, Listener, new_listener, Runs, receive}

-- `err != nil`
abbrev pub every_error : ServeError → Bool
every_error e = true

pub data StartError : Type 0 where
  udp_failed tcp_failed : ServeError → StartError

-- `started` tells whether the two servers were made, `left` is how many selects the loop has still to
-- do, `result` is what `Start` returned, once it has, and the last two fields tell which servers
-- were asked to shut down.
pub record DnsStart : Type 0 where
  pub started : Bool
  pub udp : Listener
  pub tcp : Listener
  pub left : ℕ
  pub result : Option (Option StartError)
  pub udp_shutdown : Bool
  pub tcp_shutdown : Bool

unfoldable pub new_dns_start : DnsStart
new_dns_start = record {
  started = false;
  udp = new_listener;
  tcp = new_listener;
  left = 0;
  result = none;
  udp_shutdown = false;
  tcp_shutdown = false;
}

-- The statements before the loop.
unfoldable pub begin : DnsStart → DnsStart
begin s = record s {
  started = true;
  udp = record s.udp { phase = serving };
  tcp = record s.tcp { phase = serving };
  left = 2;
}

-- A select that took a value from the channel of the UDP listener.
unfoldable pub udp_received : Option ServeError → Listener → ℕ → DnsStart → DnsStart
udp_received none l n s = record s { udp = l; left = n }
udp_received (some e) l n s = record s { udp = l; left = n; result = some (some (udp_failed e)) }

unfoldable pub tcp_received : Option ServeError → Listener → ℕ → DnsStart → DnsStart
tcp_received none l n s = record s { tcp = l; left = n }
tcp_received (some e) l n s = record s { tcp = l; left = n; result = some (some (tcp_failed e)) }

-- `return nil`, on the timeout and after the loop.
unfoldable pub return_nil : DnsStart → DnsStart
return_nil s = record s { result = some none }

-- `Shutdown`: the servers that are not nil.
unfoldable pub dns_shutdown : DnsStart → DnsStart
dns_shutdown s = record s { udp_shutdown = s.started; tcp_shutdown = s.started }

infix 40 ◌⟶◌ ◌⟶*◌
pub data ◌⟶◌ (s : DnsStart) : DnsStart → Type 0 where
  go_udp : (l : Listener) → Runs every_error s.udp l → s ⟶ record s { udp = l }
  go_tcp : (l : Listener) → Runs every_error s.tcp l → s ⟶ record s { tcp = l }
  begins : s.started ≡ false → s ⟶ begin s
  receives_udp :
      (o : Option ServeError) (l : Listener) (n : ℕ)
      → s.result ≡ none
      → s.left ≡ suc n
      → receive s.udp ≡ some (o, l)
      → s ⟶ udp_received o l n s
  receives_tcp :
      (o : Option ServeError) (l : Listener) (n : ℕ)
      → s.result ≡ none
      → s.left ≡ suc n
      → receive s.tcp ≡ some (o, l)
      → s ⟶ tcp_received o l n s
  times_out : (n : ℕ) → s.result ≡ none → s.left ≡ suc n → s ⟶ return_nil s
  loop_ends : s.started ≡ true → s.result ≡ none → s.left ≡ 0 → s ⟶ return_nil s

pub data ◌⟶*◌ (s : DnsStart) : DnsStart → Type 0 where
  here : s ⟶* s
  after : {t u : DnsStart} → s ⟶* t → t ⟶ u → s ⟶* u
