-- ===== src/Server/DnsStart/Progress.antt =====
-- No run of `Start` of internal/server/dns.go and its goroutines gets stuck or goes on without end.
use oastrix.Prelude.{
  ℕ, zero, suc, ◌+◌, ◌≤◌, ◌<◌, ◌≡◌, ◌≢◌, ◌⊎◌, inl, inr, refl, Bool, true, false, Option, none, some,
  arith,
}
use oastrix.Server.Lifecycle.{Listener, ended}
use oastrix.Server.Lifecycle.Channel.{
  goroutine_progresses, steps_left, Runs-steps_left, receive-same,
}
use oastrix.Server.DnsStart.{
  every_error, StartError, DnsStart, new_dns_start, begin, udp_received, tcp_received, return_nil,
  ◌⟶◌, ◌⟶*◌, here, after, go_udp, go_tcp, begins, receives_udp, receives_tcp, times_out, loop_ends,
}
use oastrix.Server.DnsStart.Truthful.{IsStarted, IsStarting, run-IsStarting}

-- Before the start four steps of the caller are left: the start, two selects and the return.
abbrev calls_left : Bool → Option (Option StartError) → ℕ → ℕ
calls_left false r n = 4
calls_left true none n = suc n
calls_left true (some r) n = 0

abbrev total_left : DnsStart → ℕ
total_left s =
    calls_left s.started s.result s.left + steps_left s.udp.phase + steps_left s.tcp.phase

started_of : (b : Bool) (s : DnsStart) → IsStarted b s → 0 < s.left → b ≡ true
started_of true s h n = refl
started_of false s h n = let (x, y, z, w) = h in absurd (omega arith)

step-total_left : (s t : DnsStart) → IsStarting s → s ⟶ t → total_left t < total_left s
unfolding begin udp_received tcp_received return_nil
step-total_left s t k (go_udp l r) = omega (arith, Runs-steps_left every_error s.udp l r)
step-total_left s t k (go_tcp l r) = omega (arith, Runs-steps_left every_error s.tcp l r)
step-total_left s t k (begins b) =
    let (udp, tcp, unset, left) = rw b at k.running in rw (b, udp, tcp, unset) (omega arith)
step-total_left s t k (receives_udp none l n u m h) =
    let (same, outcome) = receive-same every_error s.udp l none h in
    rw (started_of s.started s k.running (omega arith), u, m, same) (omega arith)
step-total_left s t k (receives_udp (some e) l n u m h) =
    let (same, outcome) = receive-same every_error s.udp l (some e) h in
    rw (started_of s.started s k.running (omega arith), u, m, same) (omega arith)
step-total_left s t k (receives_tcp none l n u m h) =
    let (same, outcome) = receive-same every_error s.tcp l none h in
    rw (started_of s.started s k.running (omega arith), u, m, same) (omega arith)
step-total_left s t k (receives_tcp (some e) l n u m h) =
    let (same, outcome) = receive-same every_error s.tcp l (some e) h in
    rw (started_of s.started s k.running (omega arith), u, m, same) (omega arith)
step-total_left s t k (times_out n u m) =
    rw (started_of s.started s k.running (omega arith), u, m) (omega arith)
step-total_left s t k (loop_ends b u m) = rw (b, u, m) (omega arith)

-- How many steps a run has.
abbrev pub steps : {s t : DnsStart} → s ⟶* t → ℕ
steps here = 0
steps (after run step) = suc (steps run)

run-total_left : (s : DnsStart) (run : new_dns_start ⟶* s) → steps run + total_left s ≤ 10
unfolding new_dns_start
run-total_left s here = omega arith
run-total_left s (after {t = t} run step) =
    omega (arith, run-total_left t run, step-total_left t s (run-IsStarting t run) step)

-- `Start` has not begun, has returned, or can return by its own step.
caller_progresses :
    (b : Bool) (r : Option (Option StartError)) (n : ℕ) (s : DnsStart)
    → s.started ≡ b
    → s.result ≡ r
    → s.left ≡ n
    → (s.started ≡ false) ⊎ (s.result ≢ none) ⊎ ((t : DnsStart) × (s ⟶ t) × (t.result ≡ some none))
unfolding return_nil
caller_progresses false r n s b u m = inl b
caller_progresses true none zero s b u m = inr (inr (return_nil s, loop_ends b u m, refl))
caller_progresses true none (suc n) s b u m = inr (inr (return_nil s, times_out n u m, refl))
caller_progresses true (some r) n s b u m = inr (inl (λ none'. cc))

listeners_progress :
    (b : Bool) (s : DnsStart)
    → s.started ≡ b
    → IsStarting s
    → (s.started ≡ false)
      ⊎ (((s.udp.phase ≡ ended) ⊎ ((l : Listener) × (s ⟶ record s { udp = l })))
          × ((s.tcp.phase ≡ ended) ⊎ ((l : Listener) × (s ⟶ record s { tcp = l }))))
listeners_progress false s b k = inl b
listeners_progress true s b k =
    let (udp, tcp) = rw b at k.running in
    inr (
      elim (goroutine_progresses every_error s.udp.phase s.udp refl k.udp_sound udp) [
        | inl done ↦ inl done
        | inr (l, step) ↦ inr (l, go_udp l step)
      ],
      elim (goroutine_progresses every_error s.tcp.phase s.tcp refl k.tcp_sound tcp) [
        | inl done ↦ inl done
        | inr (l, step) ↦ inr (l, go_tcp l step)
      ],
    )

-- Every run of `Start` has at most ten steps. Wherever one stands after the beginning, `Start` has
-- returned or can return with no error by its own next step, also while both listeners serve and
-- nothing is sent; and each goroutine has ended or can go on by a step of its own. What a listener
-- returns is open.
pub start_terminates :
    (s : DnsStart) (run : new_dns_start ⟶* s)
    → (steps run ≤ 10)
      × ((s.started ≡ false)
          ⊎ (s.result ≢ none)
          ⊎ ((t : DnsStart) × (s ⟶ t) × (t.result ≡ some none)))
      × ((s.started ≡ false)
          ⊎ (((s.udp.phase ≡ ended) ⊎ ((l : Listener) × (s ⟶ record s { udp = l })))
              × ((s.tcp.phase ≡ ended) ⊎ ((l : Listener) × (s ⟶ record s { tcp = l })))))
start_terminates s run = (
  omega (arith, run-total_left s run),
  caller_progresses s.started s.result s.left s refl refl refl,
  listeners_progress s.started s refl (run-IsStarting s run),
)
