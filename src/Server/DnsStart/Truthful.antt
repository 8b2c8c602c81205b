-- ===== src/Server/DnsStart/Truthful.antt =====
-- What `Start` of internal/server/dns.go returns.
use oastrix.Prelude.{
  ◌≢◌, ◌≡◌, ◌<◌, ◌⊎◌, inl, inr, refl, sym, ◌∙◌, Bool, true, false, Option, none, some, arith,
}
use oastrix.Server.Lifecycle.{ServeError, idle}
use oastrix.Server.Lifecycle.Channel.{
  Runs-begun, IsSound, Runs-IsSound, Runs-outcome, receive-IsSound, receive-IsReport, receive-same,
}
use oastrix.Server.DnsStart.{
  every_error, StartError, udp_failed, tcp_failed, DnsStart, new_dns_start, begin, udp_received,
  tcp_received, return_nil, ◌⟶◌, ◌⟶*◌, here, after, go_udp, go_tcp, begins, receives_udp,
  receives_tcp, times_out, loop_ends,
}

-- The listener that an error names returned it.
abbrev pub IsCaused : Option (Option StartError) → DnsStart → Type 0
IsCaused none s = Unit
IsCaused (some none) s = Unit
IsCaused (some (some (udp_failed e))) s = s.udp.outcome ≡ some (some e)
IsCaused (some (some (tcp_failed e))) s = s.tcp.outcome ≡ some (some e)

-- The listeners run exactly from the start on, and until then nothing is returned.
abbrev pub IsStarted : Bool → DnsStart → Type 0
IsStarted false s = (s.udp.phase ≡ idle) × (s.tcp.phase ≡ idle) × (s.result ≡ none) × (s.left ≡ 0)
IsStarted true s = (s.udp.phase ≢ idle) × (s.tcp.phase ≢ idle)

pub record IsStarting (s : DnsStart) : Type 0 where
  pub udp_sound : IsSound every_error s.udp
  pub tcp_sound : IsSound every_error s.tcp
  pub caused : IsCaused s.result s
  pub running : IsStarted s.started s

IsCaused-kept :
    (r : Option (Option StartError)) (s t : DnsStart)
    → ((x : Option ServeError) → s.udp.outcome ≡ some x → t.udp.outcome ≡ some x)
    → ((x : Option ServeError) → s.tcp.outcome ≡ some x → t.tcp.outcome ≡ some x)
    → IsCaused r s
    → IsCaused r t
IsCaused-kept none s t f g h = tt
IsCaused-kept (some none) s t f g h = tt
IsCaused-kept (some (some (udp_failed e))) s t f g h = f (some e) h
IsCaused-kept (some (some (tcp_failed e))) s t f g h = g (some e) h

-- A listener that runs, or a select that is left, tells that `Start` has begun.
begun :
    (b : Bool) (s : DnsStart)
    → IsStarted b s
    → (s.udp.phase ≢ idle) ⊎ (s.tcp.phase ≢ idle) ⊎ (0 < s.left)
    → (b ≡ true) × IsStarted true s
begun true s h why = (refl, h)
begun false s h (inl u) = absurd (u h.0)
begun false s h (inr (inl t)) = let (x, y, z, w) = h in absurd (t y)
begun false s h (inr (inr n)) = let (x, y, z, w) = h in absurd (omega arith)

returns_nil : (s : DnsStart) → IsStarting s → s.started ≡ true → IsStarting (return_nil s)
unfolding return_nil
returns_nil s k b = record {
  udp_sound = k.udp_sound;
  tcp_sound = k.tcp_sound;
  caused = tt;
  running = rw b (rw b at k.running);
}

step-IsStarting : (s t : DnsStart) → s ⟶ t → IsStarting s → IsStarting t
unfolding begin udp_received tcp_received return_nil
step-IsStarting s t (go_udp l r) k =
    let (before, later) = Runs-begun every_error s.udp l r in
    let (b, run) = begun s.started s k.running (inl before) in
    record {
      udp_sound = Runs-IsSound every_error s.udp l r k.udp_sound;
      tcp_sound = k.tcp_sound;
      caused =
          IsCaused-kept s.result s (record s { udp = l })
            (λ x. Runs-outcome every_error s.udp l x r k.udp_sound) (λ x h. h) k.caused;
      running = rw b (later, run.1);
    }
step-IsStarting s t (go_tcp l r) k =
    let (before, later) = Runs-begun every_error s.tcp l r in
    let (b, run) = begun s.started s k.running (inr (inl before)) in
    record {
      udp_sound = k.udp_sound;
      tcp_sound = Runs-IsSound every_error s.tcp l r k.tcp_sound;
      caused =
          IsCaused-kept s.result s (record s { tcp = l }) (λ x h. h)
            (λ x. Runs-outcome every_error s.tcp l x r k.tcp_sound) k.caused;
      running = rw b (run.0, later);
    }
step-IsStarting s t (begins b) k =
    let (udp, tcp, unset, left) = rw b at k.running in
    record {
      udp_sound = rw udp at k.udp_sound;
      tcp_sound = rw tcp at k.tcp_sound;
      caused = rw unset tt;
      running = (λ i. cc, λ i. cc);
    }
step-IsStarting s t (receives_udp none l n u m h) k =
    let (b, run) = begun s.started s k.running (inr (inr (omega arith))) in
    let (same, outcome) = receive-same every_error s.udp l none h in
    record {
      udp_sound = receive-IsSound every_error s.udp l none h k.udp_sound;
      tcp_sound = k.tcp_sound;
      caused =
          IsCaused-kept s.result s (record s { udp = l; left = n }) (λ x set. outcome ∙ set)
            (λ x set. set) k.caused;
      running = rw b (λ i. run.0 (sym same ∙ i), run.1);
    }
step-IsStarting s t (receives_udp (some e) l n u m h) k =
    let (b, run) = begun s.started s k.running (inr (inr (omega arith))) in
    let (same, outcome) = receive-same every_error s.udp l (some e) h in
    record {
      udp_sound = receive-IsSound every_error s.udp l (some e) h k.udp_sound;
      tcp_sound = k.tcp_sound;
      caused = outcome ∙ (receive-IsReport every_error s.udp l e h k.udp_sound).0;
      running = rw b (λ i. run.0 (sym same ∙ i), run.1);
    }
step-IsStarting s t (receives_tcp none l n u m h) k =
    let (b, run) = begun s.started s k.running (inr (inr (omega arith))) in
    let (same, outcome) = receive-same every_error s.tcp l none h in
    record {
      udp_sound = k.udp_sound;
      tcp_sound = receive-IsSound every_error s.tcp l none h k.tcp_sound;
      caused =
          IsCaused-kept s.result s (record s { tcp = l; left = n }) (λ x set. set)
            (λ x set. outcome ∙ set) k.caused;
      running = rw b (run.0, λ i. run.1 (sym same ∙ i));
    }
step-IsStarting s t (receives_tcp (some e) l n u m h) k =
    let (b, run) = begun s.started s k.running (inr (inr (omega arith))) in
    let (same, outcome) = receive-same every_error s.tcp l (some e) h in
    record {
      udp_sound = k.udp_sound;
      tcp_sound = receive-IsSound every_error s.tcp l (some e) h k.tcp_sound;
      caused = outcome ∙ (receive-IsReport every_error s.tcp l e h k.tcp_sound).0;
      running = rw b (run.0, λ i. run.1 (sym same ∙ i));
    }
step-IsStarting s t (times_out n u m) k =
    returns_nil s k (begun s.started s k.running (inr (inr (omega arith)))).0
step-IsStarting s t (loop_ends b u m) k = returns_nil s k b

pub run-IsStarting : (s : DnsStart) → new_dns_start ⟶* s → IsStarting s
unfolding new_dns_start
run-IsStarting s here = record {
  udp_sound = (refl, refl, refl);
  tcp_sound = (refl, refl, refl);
  caused = tt;
  running = (refl, refl, refl, refl);
}
run-IsStarting s (after {t = t} run step) = step-IsStarting t s step (run-IsStarting t run)

-- In whatever order the two goroutines, the timer and the loop take their steps, an error that
-- `Start` returns for a listener, UDP or TCP, is one that this listener returned.
pub start_truthful :
    (s : DnsStart) (e : ServeError)
    → new_dns_start ⟶* s
    → (s.result ≡ some (some (udp_failed e)) → s.udp.outcome ≡ some (some e))
      × (s.result ≡ some (some (tcp_failed e)) → s.tcp.outcome ≡ some (some e))
start_truthful s e run =
    let caused = (run-IsStarting s run).caused in
    (λ returned. rw returned at caused, λ returned. rw returned at caused)
