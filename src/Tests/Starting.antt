-- ===== src/Tests/Starting.antt =====
-- `Start` of the DNS server with both listeners serving, which waits for its timeout.
use oastrix.Server.DnsStart.Progress
use oastrix.Prelude.{false, some, ◌≤◌, ◌≡◌, ◌≢◌, ◌⊎◌, refl, none}
use oastrix.Server.Lifecycle.{Listener, ended}
use oastrix.Server.DnsStart.{DnsStart, new_dns_start, begin, ◌⟶◌, ◌⟶*◌, here, after, begins}
use oastrix.Server.DnsStart.Progress.{start_terminates}

abbrev listening : DnsStart
listening = begin new_dns_start

listening_run : new_dns_start ⟶* listening
unfolding new_dns_start begin
listening_run = after here (begins refl)

start_terminates_example :
    (Progress.steps listening_run ≤ 10)
    × ((listening.started ≡ false)
        ⊎ (listening.result ≢ none)
        ⊎ ((t : DnsStart) × (listening ⟶ t) × (t.result ≡ some none)))
    × ((listening.started ≡ false)
        ⊎ (((listening.udp.phase ≡ ended)
              ⊎ ((l : Listener) × (listening ⟶ record listening { udp = l })))
            × ((listening.tcp.phase ≡ ended)
                ⊎ ((l : Listener) × (listening ⟶ record listening { tcp = l })))))
start_terminates_example = start_terminates listening listening_run
