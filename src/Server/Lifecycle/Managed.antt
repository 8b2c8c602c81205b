-- ===== src/Server/Lifecycle/Managed.antt =====
-- Every run of a `ManagedServer`: internal/server/lifecycle.go.
use oastrix.Prelude.{
  inl, inr, ◌⊎◌, ◌↔◌, ◌≡◌, ◌≢◌, refl, Bool, true, false, not, is_some, Option, none, some, arith,
  ap, sym, ◌∙◌,
}
use oastrix.Server.Lifecycle.{
  after, shuts_down, times_out, receives, starts, go, ServeError, server_closed, idle, Listener,
  is_reported, ManagedServer, Stage, created, waiting, waited, stopped, new_managed_server, start,
  wait_received, wait_timed_out, shutdown, ◌⟶◌, ◌⟶*◌, here,
}
use oastrix.Server.Lifecycle.Channel.{
  IsSound, Runs-IsSound, receive-IsSound, receive-IsReport, receive-same, IsHeld, Runs-outcome,
  Runs-begun,
}

-- `WaitForStartup` has returned, the error that is kept is the one that it returned, and that is
-- one that the listener returned.
abbrev pub IsWaited :
    Option ServeError → Option (Option ServeError) → Option (Option ServeError) → Type 0
IsWaited start_err result outcome = (result ≡ some start_err) × IsHeld is_reported start_err outcome

abbrev pub IsInStage :
    Stage → Option ServeError → Option (Option ServeError) → Bool → Listener → Type 0
IsInStage created start_err result called l =
    (start_err ≡ none) × (result ≡ none) × (called ≡ false) × (l.phase ≡ idle)
IsInStage waiting start_err result called l =
    (start_err ≡ none) × (result ≡ none) × (called ≡ false)
IsInStage waited start_err result called l = (called ≡ false) × IsWaited start_err result l.outcome
IsInStage stopped start_err result called l =
    (called ≡ not (is_some start_err)) × IsWaited start_err result l.outcome

-- What holds of a server in every run of it.
abbrev pub IsManaged : ManagedServer → Type 0
IsManaged m =
    IsSound is_reported m.listener
    × IsInStage m.stage m.start_err m.result m.shutdown_called m.listener

IsHeld-kept :
    (o : Option ServeError) (l l' : Listener)
    → ((x : Option ServeError) → l.outcome ≡ some x → l'.outcome ≡ some x)
    → IsHeld is_reported o l.outcome
    → IsHeld is_reported o l'.outcome
IsHeld-kept none l l' f h = tt
IsHeld-kept (some e) l l' f h = (f (some e) h.0, h.1)

stage-kept :
    (stage : Stage) (e : Option ServeError) (r : Option (Option ServeError)) (b : Bool)
    (l l' : Listener)
    → (l.phase ≢ idle)
    → ((x : Option ServeError) → l.outcome ≡ some x → l'.outcome ≡ some x)
    → IsInStage stage e r b l
    → IsInStage stage e r b l'
stage-kept created e r b l l' runs f h = let (x, y, z, still) = h in absurd (runs still)
stage-kept waiting e r b l l' runs f h = h
stage-kept waited e r b l l' runs f h =
    let (x, (y, held)) = h in (x, (y, IsHeld-kept e l l' f held))
stage-kept stopped e r b l l' runs f h =
    let (x, (y, held)) = h in (x, (y, IsHeld-kept e l l' f held))

pub step-IsManaged : (m m' : ManagedServer) → m ⟶ m' → IsManaged m → IsManaged m'
unfolding start wait_received wait_timed_out shutdown
step-IsManaged m m' (go l r) k = (
  Runs-IsSound is_reported m.listener l r k.0,
  stage-kept m.stage m.start_err m.result m.shutdown_called m.listener l
      (Runs-begun is_reported m.listener l r).0
      (λ x set. Runs-outcome is_reported m.listener l x r k.0 set) k.1,
)
step-IsManaged m m' (starts c) k =
    let (unset, unreturned, uncalled, still) = rw c at k.1 in
    (rw still at k.0, (unset, unreturned, uncalled))
step-IsManaged m m' (receives none l w h) k =
    let (unset, unreturned, uncalled) = rw w at k.1 in
    (
      receive-IsSound is_reported m.listener l none h k.0,
      (uncalled, (ap some (sym unset), rw unset tt)),
    )
step-IsManaged m m' (receives (some e) l w h) k =
    let (unset, unreturned, uncalled) = rw w at k.1 in
    let (same, outcome) = receive-same is_reported m.listener l (some e) h in
    let (returned, passes) = receive-IsReport is_reported m.listener l e h k.0 in
    (
      receive-IsSound is_reported m.listener l (some e) h k.0,
      (uncalled, (refl, (outcome ∙ returned, passes))),
    )
step-IsManaged m m' (times_out w) k =
    let (unset, unreturned, uncalled) = rw w at k.1 in
    (k.0, (uncalled, (ap some (sym unset), rw unset tt)))
step-IsManaged m m' (shuts_down w) k =
    let (uncalled, (returned, held)) = rw w at k.1 in (k.0, (refl, (returned, held)))

new_managed_server-IsManaged : IsManaged new_managed_server
unfolding new_managed_server
new_managed_server-IsManaged = ((refl, refl, refl), (refl, refl, refl, refl))

pub run-IsManaged : (m : ManagedServer) → new_managed_server ⟶* m → IsManaged m
run-IsManaged m here = new_managed_server-IsManaged
run-IsManaged m (after {t = t} run step) = step-IsManaged t m step (run-IsManaged t run)

-- `WaitForStartup` has not returned, or has returned no error, or one that the listener returned and
-- that is not the one for a server that was shut down.
abbrev pub IsHonest : Option (Option ServeError) → Option (Option ServeError) → Type 0
IsHonest result outcome =
    (result ≡ none)
    ⊎ (result ≡ some none)
    ⊎ ((e : ServeError) × (result ≡ some (some e))
        × (outcome ≡ some (some e))
        × (e ≢ server_closed))

reported-open : (e : ServeError) → is_reported e ≡ true → e ≢ server_closed
reported-open e passes closed = cc (rw closed at passes)

waited-IsHonest :
    (err : Option ServeError) (result outcome : Option (Option ServeError))
    → IsWaited err result outcome
    → IsHonest result outcome
waited-IsHonest none result outcome h = inr (inl h.0)
waited-IsHonest (some e) result outcome h =
    let (same, (set, passes)) = h in inr (inr (e, same, set, reported-open e passes))

stage-IsHonest :
    (stage : Stage) (err : Option ServeError) (r : Option (Option ServeError)) (b : Bool)
    (l : Listener)
    → IsInStage stage err r b l
    → IsHonest r l.outcome × ((b ≡ true) ↔ ((stage ≡ stopped) × (r ≡ some none)))
stage-IsHonest created err r b l h =
    let (unset, unreturned, uncalled, still) = h in (inl unreturned, (λ called. cc, λ c. cc (c.0)))
stage-IsHonest waiting err r b l h =
    let (unset, unreturned, uncalled) = h in (inl unreturned, (λ called. cc, λ c. cc (c.0)))
stage-IsHonest waited err r b l h =
    let (uncalled, k) = h in (waited-IsHonest err r l.outcome k, (λ called. cc, λ c. cc (c.0)))
stage-IsHonest stopped err r b l h =
    let (called, k) = h in (waited-IsHonest err r l.outcome k, ground (arith, called, k))

-- In whatever order the goroutine and the thread that waits for it take their steps,
-- `WaitForStartup` has not returned, or has returned no error, or an error that the listener
-- returned and that is not the one for a server that was shut down. The HTTP server is asked to
-- shut down exactly if `Shutdown` was called and `WaitForStartup` returned no error.
pub wait_truthful :
    (m : ManagedServer)
    → new_managed_server ⟶* m
    → IsHonest m.result m.listener.outcome
      × ((m.shutdown_called ≡ true) ↔ ((m.stage ≡ stopped) × (m.result ≡ some none)))
wait_truthful m run =
    stage-IsHonest m.stage m.start_err m.result m.shutdown_called m.listener (run-IsManaged m run).1
