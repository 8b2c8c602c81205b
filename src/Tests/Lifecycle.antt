-- ===== src/Tests/Lifecycle.antt =====
-- A run of a server whose port is taken, and one of a server that listens.
use oastrix.Server.Lifecycle
use oastrix.Server.Lifecycle.Progress
use oastrix.Prelude.{◌≢◌, ◌≤◌, ◌≡◌, ◌↔◌, ◌⊎◌, refl, bytes, true, none, some}
use oastrix.Server.Lifecycle.{
  Listener, created, is_reported, closing, shutdown, wait_received, here, after, go, starts,
  receives, shuts_down, ◌⟶◌, ◌⟶*◌, ServeError, server_closed, listen_failed, ended, Runs,
  ManagedServer, stopped, new_managed_server, start,
}
use oastrix.Server.Lifecycle.Managed.{IsHonest, wait_truthful}
use oastrix.Server.Lifecycle.Progress.{run_progresses}

abbrev in_use : ServeError
in_use = listen_failed (bytes "address already in use")

-- `Start`; the listener returns the error, which is sent; `WaitForStartup` receives it; `Shutdown`.
abbrev begun : ManagedServer
begun = start new_managed_server

abbrev returned_error : ManagedServer
returned_error = record begun {
  listener = Lifecycle.returned is_reported (some in_use) begun.listener;
}

abbrev sent : ManagedServer
sent = record begun {
  listener = record returned_error.listener { buffer = some in_use; phase = closing };
}

abbrev failed : ManagedServer
failed = shutdown (wait_received (some in_use) (record sent.listener { buffer = none }) sent)

failed_run : new_managed_server ⟶* failed
unfolding new_managed_server start wait_received shutdown
failed_run =
    after
      (after
        (after
          (after (after here (starts refl))
            (go returned_error.listener (Runs.serve (some in_use) refl)))
          (go sent.listener (Runs.send in_use refl refl)))
        (receives (some in_use) (record sent.listener { buffer = none }) refl refl))
      (shuts_down refl)

wait_truthful_example :
    IsHonest failed.result failed.listener.outcome
    × ((failed.shutdown_called ≡ true) ↔ ((failed.stage ≡ stopped) × (failed.result ≡ some none)))
wait_truthful_example = wait_truthful failed failed_run

-- The listener serves, and nothing is sent.
serving_run : new_managed_server ⟶* begun
unfolding new_managed_server start
serving_run = after here (starts refl)

run_progresses_example :
    (Progress.steps serving_run ≤ 6)
    × ((begun.stage ≡ stopped) ⊎ ((m' : ManagedServer) × (begun ⟶ m') × (m'.stage ≢ begun.stage)))
    × ((begun.stage ≡ created)
        ⊎ (begun.listener.phase ≡ ended)
        ⊎ ((l : Listener) × (begun ⟶ record begun { listener = l })))
run_progresses_example = run_progresses begun serving_run
