-- ===== src/Plugins/Pipeline/Frame.antt =====
-- What the loops over hooks leave alone, and which faults they can end with.
use oastrix.Prelude.{
  ◌≡◌, ◌≢◌, refl, ◌∙◌, String, Bool, true, false, Option, none, some, List, [], ◌∷◌, if◌then◌else◌,
}
use oastrix.Failure.{Error}
use oastrix.Events.{Event, EventOf}
use oastrix.Plugins.Interfaces.{Fault, error, panic}
use oastrix.Plugins.Pipeline.{
  Run, Named, resume, settle, placed, replaced, call_event_hook, run_event_hooks,
  run_response_hooks, is_handled,
}

module _ {S Q R X : Type 0} where
  -- A hook on events cannot reach the response plan, and its error does not end the run.
  call_event_hook-frame :
      (message : String) (h : Named S Event) (r : Run S (EventOf Q R X)) (x : Error)
      → ((call_event_hook message h r).1.event.resp ≡ r.event.resp)
        × ((call_event_hook message h r).0 ≢ some (error x))
  call_event_hook-frame message (id, hook) r x = settle-frame (hook r.event.event r.state)
    where
      settle-frame :
          (m : Option Fault × Event × S)
          → ((settle message (some id) (placed m r)).1.event.resp ≡ r.event.resp)
            × ((settle message (some id) (placed m r)).0 ≢ some (error x))
      settle-frame (none, e, s) = (refl, λ h. cc)
      settle-frame (some (error y), e, s) = (refl, λ h. cc)
      settle-frame (some panic, e, s) = (refl, λ h. cc)

  pub run_event_hooks-frame :
      (message : String) (hs : List (Named S Event)) (r : Run S (EventOf Q R X)) (x : Error)
      → ((run_event_hooks message hs r).1.event.resp ≡ r.event.resp)
        × ((run_event_hooks message hs r).0 ≢ some (error x))
  unfolding run_event_hooks
  run_event_hooks-frame message [] r x = (refl, λ h. cc)
  run_event_hooks-frame message (h ∷ hs) r x =
      resumed (call_event_hook message h r) (call_event_hook-frame message h r x)
        (λ r'. run_event_hooks-frame message hs r' x)
    where
      resumed :
          (m : Option Fault × Run S (EventOf Q R X))
          → (m.1.event.resp ≡ r.event.resp) × (m.0 ≢ some (error x))
          → ((r' : Run S (EventOf Q R X))
              → ((run_event_hooks message hs r').1.event.resp ≡ r'.event.resp)
                × ((run_event_hooks message hs r').0 ≢ some (error x)))
          → ((resume m (run_event_hooks message hs)).1.event.resp ≡ r.event.resp)
            × ((resume m (run_event_hooks message hs)).0 ≢ some (error x))
      resumed (none, r') (same, ok') ih = ((ih r').0 ∙ same, (ih r').1)
      resumed (some f, r') (same, ok') ih = (same, ok')

  -- Nor does the error of a response hook.
  pub run_response_hooks-no_error :
      (handled : R → Bool) (message : String) (hs : List (Named S (EventOf Q R X)))
      (r : Run S (EventOf Q R X)) (x : Error)
      → (run_response_hooks handled message hs r).0 ≢ some (error x)
  unfolding run_response_hooks
  run_response_hooks-no_error handled message [] r x = λ h. cc
  run_response_hooks-no_error handled message ((id, hook) ∷ hs) r x =
      settled (hook r.event r.state) (λ r'. run_response_hooks-no_error handled message hs r' x)
    where
      chosen :
          (b : Bool) (r' : Run S (EventOf Q R X)) (m : Option Fault × Run S (EventOf Q R X))
          → m.0 ≢ some (error x)
          → (if b then (none, r') else m).0 ≢ some (error x)
      chosen true r' m h = λ e. cc
      chosen false r' m h = h

      settled :
          (m : Option Fault × EventOf Q R X × S)
          → ((r' : Run S (EventOf Q R X))
              → (run_response_hooks handled message hs r').0 ≢ some (error x))
          → (resume (settle message (some id) (replaced m r)) (λ r'.
              let rest = run_response_hooks handled message hs r' in
              if is_handled handled r'.event.resp then (none, r') else rest)).0
            ≢ some (error x)
      settled (none, e, s) ih = chosen (is_handled handled e.resp) _ _ (ih _)
      settled (some (error y), e, s) ih = chosen (is_handled handled e.resp) _ _ (ih _)
      settled (some panic, e, s) ih = λ h. cc
