-- ===== src/Server/Lifecycle/Progress.antt =====
-- No run of a `ManagedServer` gets stuck or goes on without end: internal/server/lifecycle.go.
use oastrix.Prelude.{
  ℕ, suc, ◌+◌, ◌≤◌, ◌<◌, ◌≡◌, ◌≢◌, sym, ◌∙◌, ◌⊎◌, inl, inr, refl, none, some, arith,
}
use oastrix.Server.Lifecycle.{
  Listener, idle, ended, is_reported, ManagedServer, Stage, created, waiting, waited, stopped,
  new_managed_server, start, wait_received, wait_timed_out, shutdown, ◌⟶◌, ◌⟶*◌, here, after, go,
  starts, receives, times_out, shuts_down,
}
use oastrix.Server.Lifecycle.Channel.{
  IsSound, goroutine_progresses, Runs-begun, steps_left, Runs-steps_left, receive-same,
}
use oastrix.Server.Lifecycle.Managed.{IsManaged, run-IsManaged}

abbrev calls_left : Stage → ℕ
calls_left created = 3
calls_left waiting = 2
calls_left waited = 1
calls_left stopped = 0

abbrev total_left : ManagedServer → ℕ
total_left m = calls_left m.stage + steps_left m.listener.phase

step-total_left : (m m' : ManagedServer) → IsManaged m → m ⟶ m' → total_left m' < total_left m
unfolding start wait_received wait_timed_out shutdown
step-total_left m m' k (go l r) = omega (arith, Runs-steps_left is_reported m.listener l r)
step-total_left m m' k (starts c) =
    let (unset, unreturned, uncalled, still) = rw c at k.1 in rw (c, still) (omega arith)
step-total_left m m' k (receives none l w h) =
    let (same, outcome) = receive-same is_reported m.listener l none h in rw (w, same) (omega arith)
step-total_left m m' k (receives (some e) l w h) =
    let (same, outcome) = receive-same is_reported m.listener l (some e) h in
    rw (w, same) (omega arith)
step-total_left m m' k (times_out w) = rw w (omega arith)
step-total_left m m' k (shuts_down w) = rw w (omega arith)

-- How many steps a run has.
abbrev pub steps : {m m' : ManagedServer} → m ⟶* m' → ℕ
steps here = 0
steps (after run step) = suc (steps run)

run-total_left : (m : ManagedServer) (run : new_managed_server ⟶* m) → steps run + total_left m ≤ 6
unfolding new_managed_server
run-total_left m here = omega arith
run-total_left m (after {t = t} run step) =
    omega (arith, run-total_left t run, step-total_left t m (run-IsManaged t run) step)

-- The goroutine runs once `Start` was called.
abbrev IsBegun : ManagedServer → Type 0
IsBegun m = (m.stage ≡ created) ⊎ (m.listener.phase ≢ idle)

waiting_begun :
    (m : ManagedServer) (s : Stage)
    → m.stage ≡ s
    → s ≢ created
    → IsBegun m
    → m.listener.phase ≢ idle
waiting_begun m s at' later (inl c) = absurd (later (sym at' ∙ c))
waiting_begun m s at' later (inr b) = b

step-IsBegun : (m m' : ManagedServer) → m ⟶ m' → IsBegun m → IsBegun m'
unfolding start wait_received wait_timed_out shutdown
step-IsBegun m m' (go l r) b = inr (Runs-begun is_reported m.listener l r).1
step-IsBegun m m' (starts c) b = inr (λ i. cc)
step-IsBegun m m' (receives none l w h) b =
    let (same, outcome) = receive-same is_reported m.listener l none h in
    inr (λ i. waiting_begun m waiting w (λ e. cc) b (sym same ∙ i))
step-IsBegun m m' (receives (some e) l w h) b =
    let (same, outcome) = receive-same is_reported m.listener l (some e) h in
    inr (λ i. waiting_begun m waiting w (λ c. cc) b (sym same ∙ i))
step-IsBegun m m' (times_out w) b = inr (waiting_begun m waiting w (λ e. cc) b)
step-IsBegun m m' (shuts_down w) b = inr (waiting_begun m waited w (λ e. cc) b)

run-IsBegun : (m : ManagedServer) → new_managed_server ⟶* m → IsBegun m
unfolding new_managed_server
run-IsBegun m here = inl refl
run-IsBegun m (after {t = t} run step) = step-IsBegun t m step (run-IsBegun t run)

-- The owner's next call can return, whatever the goroutine does.
owner_progresses :
    (stage : Stage) (m : ManagedServer)
    → m.stage ≡ stage
    → (stage ≡ stopped) ⊎ ((m' : ManagedServer) × (m ⟶ m') × (m'.stage ≢ stage))
unfolding start wait_timed_out shutdown
owner_progresses created m h = inr (start m, starts h, λ e. cc)
owner_progresses waiting m h = inr (wait_timed_out m, times_out h, λ e. cc)
owner_progresses waited m h = inr (shutdown m, shuts_down h, λ e. cc)
owner_progresses stopped m h = inl refl

begun_or_created :
    (m : ManagedServer)
    → IsBegun m
    → IsSound is_reported m.listener
    → (m.stage ≡ created)
      ⊎ (m.listener.phase ≡ ended)
      ⊎ ((l : Listener) × (m ⟶ record m { listener = l }))
begun_or_created m (inl c) sound = inl c
begun_or_created m (inr begun) sound =
    elim (goroutine_progresses is_reported m.listener.phase m.listener refl sound begun) [
      | inl done ↦ inr (inl done)
      | inr (l, step) ↦ inr (inr (l, go l step))
    ]

-- Every run of a server has at most six steps, and wherever it stands, each thread can go on by a
-- step of its own: the owner to its next stage, so that `WaitForStartup` returns also while the
-- listener serves and nothing is sent, until it is stopped; and, once it was started, the goroutine,
-- which never waits for ever to send, until it has ended. What the listener returns is open.
pub run_progresses :
    (m : ManagedServer) (run : new_managed_server ⟶* m)
    → (steps run ≤ 6)
      × ((m.stage ≡ stopped) ⊎ ((m' : ManagedServer) × (m ⟶ m') × (m'.stage ≢ m.stage)))
      × ((m.stage ≡ created)
          ⊎ (m.listener.phase ≡ ended)
          ⊎ ((l : Listener) × (m ⟶ record m { listener = l })))
run_progresses m run = (
  omega (arith, run-total_left m run),
  owner_progresses m.stage m refl,
  begun_or_created m (run-IsBegun m run) (run-IsManaged m run).0,
)
