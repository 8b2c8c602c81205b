-- ===== src/Plugins/Pipeline/Invariant.antt =====
-- Properties of the shared state under a run of the pipeline.
use oastrix.Prelude.{
  if_both, ℕ, String, Bool, Option, none, some, List, [], ◌∷◌, All, Option-cases, inl, inr,
}
use oastrix.Failure.{Result, ok, err}
use oastrix.Events.{Event, EventOf, InteractionDraft, Attributes}
use oastrix.Plugins.Interfaces.{Fault, error, panic, Store}
use oastrix.Plugins.Pipeline.{
  Run, Step, Named, Pipeline, resume, settle, call_event_hook, call_response_hook, run_event_hooks,
  run_response_hooks, is_handled, saved, save_step, created, store_step, process,
}

module _ {S : Type 0} (P : S → Type 0) where
  -- Whatever it is given, a hook keeps the property.
  abbrev pub HookKeeps : {E : Type 0} → Named S E → Type 0
  HookKeeps {E} h = (e : E) (s : S) → P s → P (h.1 e s).2

  pub record StoreKeeps (store : Store S) : Type 0 where
    pub creation : (draft : InteractionDraft) (s : S) → P s → P (store.create_interaction draft s).1
    pub saving :
        (id : ℕ) (attrs : Attributes) (s : S) → P s → P (store.save_attributes id attrs s).1

  abbrev pub OptionKeeps : Option (Store S) → Type 0
  OptionKeeps none = Unit
  OptionKeeps (some store) = StoreKeeps store

  pub record PipelineKeeps (p : Pipeline S) : Type 0 where
    pub pre_store : All HookKeeps p.pre_store
    pub post_store : All HookKeeps p.post_store
    pub http_response : All HookKeeps p.http_response
    pub dns_response : All HookKeeps p.dns_response
    pub store : OptionKeeps p.store

  module _ {E : Type 0} where
    resume-keeps :
        (m : Option Fault × Run S E) (k : Step S E)
        → P m.1.state
        → ((r : Run S E) → P r.state → P (k r).1.state)
        → P (resume m k).1.state
    resume-keeps (none, r) k h step = step r h
    resume-keeps (some f, r) k h step = h

    settle-keeps :
        (message : String) (plugin : _) (m : Option Fault × Run S E)
        → P m.1.state
        → P (settle message plugin m).1.state
    settle-keeps message plugin (none, r) h = h
    settle-keeps message plugin (some (error e), r) h = h
    settle-keeps message plugin (some panic, r) h = h

  module _ {Q R X : Type 0} where
    run_event_hooks-keeps :
        (message : String) (hooks : List (Named S Event)) (r : Run S (EventOf Q R X))
        → All HookKeeps hooks
        → P r.state
        → P (run_event_hooks message hooks r).1.state
    unfolding run_event_hooks
    run_event_hooks-keeps message [] r hs h = h
    run_event_hooks-keeps message (hook ∷ hooks) r hs h =
        resume-keeps (call_event_hook message hook r) (run_event_hooks message hooks)
          (settle-keeps message _ _ (hs.0 r.event.event r.state h))
          (λ r' h'. run_event_hooks-keeps message hooks r' hs.1 h')

    run_response_hooks-keeps :
        (handled : R → Bool) (message : String) (hooks : List (Named S (EventOf Q R X)))
        (r : Run S (EventOf Q R X))
        → All HookKeeps hooks
        → P r.state
        → P (run_response_hooks handled message hooks r).1.state
    unfolding run_response_hooks
    run_response_hooks-keeps handled message [] r hs h = h
    run_response_hooks-keeps handled message (hook ∷ hooks) r hs h =
        resume-keeps (call_response_hook message hook r) _
          (settle-keeps message _ _ (hs.0 r.event r.state h))
          (λ r' h'.
            if_both {A = Option Fault × Run S (EventOf Q R X)} (λ m. P m.1.state)
              (is_handled handled r'.event.resp) (none, r') _ h'
              (run_response_hooks-keeps handled message hooks r' hs.1 h'))

    saved-keeps :
        (m : Result (Unit {0}) × S) (r : Run S (EventOf Q R X)) → P m.1 → P (saved m r).1.state
    saved-keeps (ok u, s) r h = h
    saved-keeps (err e, s) r h = h

    save_step-keeps :
        (store : Store S) (id : ℕ) (attrs : Attributes) (r : Run S (EventOf Q R X))
        → StoreKeeps store
        → P r.state
        → P (save_step store id attrs r).1.state
    save_step-keeps store id [] r k h = h
    save_step-keeps store id (a ∷ attrs) r k h =
        saved-keeps (store.save_attributes id (a ∷ attrs) r.state) r
          (k.saving id (a ∷ attrs) r.state h)

    created-keeps :
        (store : Store S) (attrs : Attributes) (m : Result ℕ × S) (r : Run S (EventOf Q R X))
        → StoreKeeps store
        → P m.1
        → P (created store attrs m r).1.state
    created-keeps store attrs (err e, s) r k h = h
    created-keeps store attrs (ok id, s) r k h = save_step-keeps store id attrs _ k h

    stored-keeps :
        (store : Option (Store S)) (d : InteractionDraft) (r : Run S (EventOf Q R X))
        → OptionKeeps store
        → P r.state
        → P
            (elim store as (λ x. Option Fault × Run S (EventOf Q R X)) [
              | none ↦ (none, r)
              | some st ↦ created st d.attributes (st.create_interaction d r.state) r
            ]).1.state
    stored-keeps none d r k h = h
    stored-keeps (some st) d r k h =
        created-keeps st d.attributes (st.create_interaction d r.state) r k (k.creation d r.state h)

    store_step-keeps :
        (store : Option (Store S)) (r : Run S (EventOf Q R X))
        → OptionKeeps store
        → P r.state
        → P (store_step store r).1.state
    unfolding store_step
    store_step-keeps store r k h = elim (Option-cases r.event.event.draft) [
      | inl missing ↦ rw (missing, store_step) h
      | inr (d, there) ↦
          rw (there, store_step)
            (if_both {A = Option Fault × Run S (EventOf Q R X)} (λ m. P m.1.state) d.drop (none, r)
              _ h (stored-keeps store d r k h))
    ]

    pub process-keeps :
        (handled : R → Bool) (message : String) (p : Pipeline S)
        (hooks : List (Named S (EventOf Q R X))) (r : Run S (EventOf Q R X))
        → PipelineKeeps p
        → All HookKeeps hooks
        → P r.state
        → P (process handled message p hooks r).1.state
    unfolding process
    process-keeps handled message p hooks r k hs h =
        resume-keeps (run_event_hooks "prestore hook error" p.pre_store r) _
          (run_event_hooks-keeps "prestore hook error" p.pre_store r k.pre_store h)
          (λ r1 h1.
            resume-keeps (store_step p.store r1) _ (store_step-keeps p.store r1 k.store h1)
              (λ r2 h2.
                resume-keeps (run_event_hooks "poststore hook error" p.post_store r2) _
                  (run_event_hooks-keeps "poststore hook error" p.post_store r2 k.post_store h2)
                  (λ r3 h3. run_response_hooks-keeps handled message hooks r3 hs h3)))
