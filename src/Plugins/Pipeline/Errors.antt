-- ===== src/Plugins/Pipeline/Errors.antt =====
-- Which errors the pipeline returns, and what it has not done then.
use oastrix.Prelude.{
  ◌≡◌, ◌≢◌, ◌⊎◌, inl, inr, refl, ◌∙◌, ap, ℕ, String, Bool, false, Option, none, some, List, [], ◌∷◌,
  arith, Option-cases, Bool-cases,
}
use oastrix.Failure.{Error, Result, ok, err}
use oastrix.Events.{EventOf, InteractionDraft, Attributes, HttpEvent, DnsEvent}
use oastrix.Plugins.Interfaces.{Fault, error, Store}
use oastrix.Plugins.Pipeline.{
  Run, Step, Named, Pipeline, resume, created, saved, save_step, store_step, process, process_http,
  process_dns, run_event_hooks,
}
use oastrix.Plugins.Pipeline.Frame.{run_event_hooks-frame, run_response_hooks-no_error}

module _ {S E : Type 0} where
  resume_error :
      (m : Option Fault × Run S E) (k : Step S E) (x : Error) (r' : Run S E)
      → resume m k ≡ (some (error x), r')
      → (m ≡ (some (error x), r')) ⊎ ((m.0 ≡ none) × (k m.1 ≡ (some (error x), r')))
  resume_error (none, r) k x r' h = inr (refl, h)
  resume_error (some f, r) k x r' h = inl h

-- Where an error comes from: the store refused a draft that was not dropped. The response plan is
-- the one that the run began with.
pub record StoreFailed {S Q R X : Type 0} (store : Option (Store S)) (r r' : Run S (EventOf Q R X))
    (x : Error) : Type 0 where
  pub failing : Store S
  pub draft : InteractionDraft
  pub state : S
  pub set : store ≡ some failing
  pub kept : draft.drop ≡ false
  pub refused : failing.create_interaction draft state ≡ (err x, r'.state)
  pub unanswered : r'.event.resp ≡ r.event.resp

module _ {S Q R X : Type 0} where
  save_step-no_error :
      (st : Store S) (id : ℕ) (attrs : Attributes) (r : Run S (EventOf Q R X)) (x : Error)
      → (save_step st id attrs r).0 ≢ some (error x)
  save_step-no_error st id [] r x = λ h. cc
  save_step-no_error st id (a ∷ attrs) r x = saved_none (st.save_attributes id (a ∷ attrs) r.state)
    where
      saved_none : (m : Result (Unit {0}) × S) → (saved m r).0 ≢ some (error x)
      saved_none (ok u, s) = λ h. cc
      saved_none (err e, s) = λ h. cc

  created_error :
      (st : Store S) (attrs : Attributes) (m : Result ℕ × S) (r r' : Run S (EventOf Q R X))
      (x : Error)
      → created st attrs m r ≡ (some (error x), r')
      → (m ≡ (err x, r'.state)) × (r'.event.resp ≡ r.event.resp)
  created_error st attrs (err e, s) r r' x h = ground arith
  created_error st attrs (ok id, s) r r' x h = absurd (
      save_step-no_error st id attrs _ x (ap (λ (m : Option Fault × Run S (EventOf Q R X)). m.0) h))

  store_step_error :
      (store : Option (Store S)) (r r' : Run S (EventOf Q R X)) (x : Error)
      → store_step store r ≡ (some (error x), r')
      → StoreFailed store r r' x
  unfolding store_step
  store_step_error store r r' x h = elim (Option-cases r.event.event.draft) [
    | inl missing ↦ cc (rw (missing, store_step) at h)
    | inr (d, there) ↦ elim (Bool-cases d.drop) [
      | inl dropped ↦ cc (rw (there, store_step, dropped) at h)
      | inr kept ↦ elim (Option-cases store) [
        | inl unset ↦ cc (rw (there, store_step, kept, unset) at h)
        | inr (st, isset) ↦
            let e =
              created_error st d.attributes (st.create_interaction d r.state) r r' x
                (rw (there, store_step, kept, isset) at h) in
            record {
              failing = st;
              draft = d;
              state = r.state;
              set = isset;
              kept = kept;
              refused = e.0;
              unanswered = e.1;
            }
      ]
    ]
  ]

  process_error :
      (handled : R → Bool) (message : String) (p : Pipeline S)
      (hooks : List (Named S (EventOf Q R X))) (r r' : Run S (EventOf Q R X)) (x : Error)
      → process handled message p hooks r ≡ (some (error x), r')
      → StoreFailed p.store r r' x
  unfolding process
  process_error handled message p hooks r r' x h =
      let fst = λ (m : Option Fault × Run S (EventOf Q R X)). m.0 in
      let m1 = run_event_hooks "prestore hook error" p.pre_store r in
      let frame1 = run_event_hooks-frame "prestore hook error" p.pre_store r x in
      let m2 = store_step p.store m1.1 in
      elim (resume_error m1 _ x r' h) [
        | inl early ↦ absurd (frame1.1 (ap fst early))
        | inr (ok1, h2) ↦ elim (resume_error m2 _ x r' h2) [
          | inl here ↦
              let f = store_step_error p.store m1.1 r' x here in
              record {
                failing = f.failing;
                draft = f.draft;
                state = f.state;
                set = f.set;
                kept = f.kept;
                refused = f.refused;
                unanswered = f.unanswered ∙ frame1.0;
              }
          | inr (ok2, h3) ↦
              elim (resume_error (run_event_hooks "poststore hook error" p.post_store m2.1) _ x r'
                h3) [
                  | inl late ↦ absurd (
                      (run_event_hooks-frame "poststore hook error" p.post_store m2.1 x).1
                        (ap fst late))
                  | inr (ok3, h4) ↦
                      absurd (run_response_hooks-no_error handled message hooks _ x (ap fst h4))
                ]
        ]
      ]

module _ {S : Type 0} where
  -- An error that `ProcessHTTP` returns is an error of the store, on a draft that is not dropped,
  -- and the response plan is then still the one that the run began with.
  pub process_http_error :
      (p : Pipeline S) (r r' : Run S HttpEvent) (x : Error)
      → process_http p r ≡ (some (error x), r')
      → StoreFailed p.store r r' x
  unfolding process_http
  process_http_error p r r' x h =
      process_error _ "http response hook error" p p.http_response r r' x h

  -- An error that `ProcessDNS` returns is an error of the store, on a draft that is not dropped,
  -- and the response plan is then still the one that the run began with.
  pub process_dns_error :
      (p : Pipeline S) (r r' : Run S DnsEvent) (x : Error)
      → process_dns p r ≡ (some (error x), r')
      → StoreFailed p.store r r' x
  unfolding process_dns
  process_dns_error p r r' x h = process_error _ "dns response hook error" p p.dns_response r r' x h
