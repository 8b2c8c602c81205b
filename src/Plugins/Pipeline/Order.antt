-- ===== src/Plugins/Pipeline/Order.antt =====
-- Dropped drafts, and who answers first.
use oastrix.Prelude.{
  ◌≡◌, refl, sym, ◌∙◌, ap, String, Bool, true, false, Option, none, some, List, [], ◌∷◌, ◌++◌,
  if◌then◌else◌, Bool-cases, inl, inr,
}
use oastrix.Events.{EventOf, InteractionDraft}
use oastrix.Plugins.Interfaces.{Fault, Store}
use oastrix.Plugins.Pipeline.{
  Run, Step, Named, Pipeline, resume, call_response_hook, store_step, process, run_event_hooks,
  run_response_hooks, is_handled,
}

module _ {S E : Type 0} where
  resume_cong :
      (m : Option Fault × Run S E) (k k' : Step S E) → k m.1 ≡ k' m.1 → resume m k ≡ resume m k'
  resume_cong (none, r) k k' h = h
  resume_cong (some f, r) k k' h = refl

  resume_assoc :
      (m : Option Fault × Run S E) (k j : Step S E)
      → resume (resume m k) j ≡ resume m (λ r. resume (k r) j)
  resume_assoc (none, r) k j = refl
  resume_assoc (some f, r) k j = refl

module _ {S Q R X : Type 0} where
  store_step-dropped :
      (store : Option (Store S)) (r : Run S (EventOf Q R X)) (d : InteractionDraft)
      → r.event.event.draft ≡ some d
      → d.drop ≡ true
      → store_step store r ≡ (none, r)
  unfolding store_step
  store_step-dropped store r d there dropped = rw (there, dropped)

  -- If the PreStore hooks leave a draft that is to be dropped, the run is the one of a pipeline
  -- that has no store: the store is never called.
  pub process-dropped :
      (handled : R → Bool) (message : String) (p : Pipeline S)
      (hooks : List (Named S (EventOf Q R X))) (r : Run S (EventOf Q R X)) (d : InteractionDraft)
      → (run_event_hooks "prestore hook error" p.pre_store r).1.event.event.draft ≡ some d
      → d.drop ≡ true
      → process handled message p hooks r
        ≡ process handled message (record p { store = none }) hooks r
  unfolding process
  process-dropped handled message p hooks r d there dropped =
      let m = run_event_hooks "prestore hook error" p.pre_store r in
      let later : Step S (EventOf Q R X) = λ r2.
        resume (run_event_hooks "poststore hook error" p.post_store r2)
          (λ r3. run_response_hooks handled message hooks r3) in
      resume_cong m (λ r1. resume (store_step p.store r1) later)
        (λ r1. resume (store_step none r1) later)
        (ap (λ n. resume n later)
          (store_step-dropped p.store m.1 d there dropped
            ∙ sym (store_step-dropped none m.1 d there dropped)))

  -- Stop if the event is handled.
  abbrev pub continue_or_stop : (R → Bool) → Step S (EventOf Q R X) → Step S (EventOf Q R X)
  continue_or_stop handled k r = if is_handled handled r.event.resp then (none, r) else k r

  stop_or_rest :
      (handled : R → Bool) (r : Run S (EventOf Q R X)) (m n : Option Fault × Run S (EventOf Q R X))
      (k : Step S (EventOf Q R X))
      → (is_handled handled r.event.resp ≡ false → m ≡ resume n (continue_or_stop handled k))
      → (if is_handled handled r.event.resp then (none, r) else m)
        ≡ resume
            (if is_handled handled r.event.resp then (none, r) else n)
            (continue_or_stop handled k)
  stop_or_rest handled r m n k h = elim (Bool-cases (is_handled handled r.event.resp)) [
    | inl stops ↦ rw stops (rw stops)
    | inr goes ↦ rw goes (h goes)
  ]

  -- After the hooks of a list that is not empty, the hooks behind it run exactly if the event is
  -- not handled yet: what one plugin has handled, a later plugin does not change.
  pub run_response_hooks-append :
      (handled : R → Bool) (message : String) (h : Named S (EventOf Q R X))
      (hs later : List (Named S (EventOf Q R X))) (r : Run S (EventOf Q R X))
      → run_response_hooks handled message ((h ∷ hs) ++ later) r
        ≡ resume
            (run_response_hooks handled message (h ∷ hs) r)
            (continue_or_stop handled (run_response_hooks handled message later))
  unfolding run_response_hooks
  run_response_hooks-append handled message h [] later r =
      let k = run_response_hooks handled message later in
      let r' = (call_response_hook message h r).1 in
      resume_cong (call_response_hook message h r) _ _ (
        stop_or_rest handled r' (k r') (none, r') k
          (λ goes. sym (ap (λ b. if b then (none, r') else k r') goes)))
      ∙ sym (resume_assoc (call_response_hook message h r) _ (continue_or_stop handled k))
  run_response_hooks-append handled message h (g ∷ gs) later r =
      let k = run_response_hooks handled message later in
      resume_cong (call_response_hook message h r) _ _ (
        stop_or_rest handled _ _ _ k (λ goes.
          run_response_hooks-append handled message g gs later (call_response_hook message h r).1))
      ∙ sym (resume_assoc (call_response_hook message h r) _ (continue_or_stop handled k))
