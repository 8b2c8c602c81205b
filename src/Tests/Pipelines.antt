-- ===== src/Tests/Pipelines.antt =====
-- Pipelines: the one of the program over an engine that fails, and two plugins that both answer.
use oastrix.Db.Interactions
use oastrix.Plugins.Core.Storage
use oastrix.Prelude.{◌≡◌, refl, bytes, true, false, some, [], ◌∷◌, ◌++◌, str_eq}
use oastrix.Failure.{engine}
use oastrix.Events.{HttpEvent, http_handled}
use oastrix.Db.{Db}
use oastrix.Db.Tokens.{find_token, get_token_by_value}
use oastrix.Plugins.Interfaces.{error}
use oastrix.Plugins.Pipeline.{
  Run, Named, Pipeline, resume, process_http, run_event_hooks, run_response_hooks, store_step,
}
use oastrix.Plugins.Pipeline.Errors.{StoreFailed, process_http_error}
use oastrix.Plugins.Pipeline.Order.{run_response_hooks-append, continue_or_stop}
use oastrix.Plugins.Core.Storage.{storage_store, storage_plugin, on_pre_store}
use oastrix.Plugins.Core.DefaultResponse.{on_http_response}
use oastrix.Server.Http.{start, event_of}
use oastrix.Cmd.Server.{server_pipeline}
use oastrix.Tests.Data.{rt, tok, ip, db, request, host}

-- The engine fails the insertion.
abbrev before : Run Db HttpEvent
before = start (event_of (request host) tok 100) (record db { faults = false ∷ true ∷ [] })

abbrev after : Run Db HttpEvent
after = (process_http (server_pipeline rt ip) before).1

failed : process_http (server_pipeline rt ip) before ≡ (some (error engine), after)
unfolding server_pipeline process_http run_event_hooks store_step on_pre_store get_token_by_value
    find_token str_eq Storage.create_interaction Interactions.create_interaction event_of
failed = refl

process_http_error_example :
    StoreFailed (Pipeline.store (server_pipeline rt ip)) before after engine
process_http_error_example = process_http_error (server_pipeline rt ip) before after engine failed

abbrev arriving : Run Db HttpEvent
arriving = start (event_of (request host) tok 100) db

abbrev answering : Named Db HttpEvent
answering = (bytes "defaultresponse", on_http_response)

run_response_hooks-append_example :
    run_response_hooks http_handled "http response hook error"
      ((answering ∷ []) ++ (answering ∷ []))
      arriving
    ≡ resume
        (run_response_hooks http_handled "http response hook error" (answering ∷ []) arriving)
        (continue_or_stop http_handled
          (run_response_hooks http_handled "http response hook error" (answering ∷ [])))
run_response_hooks-append_example =
    run_response_hooks-append http_handled "http response hook error" answering [] (answering ∷ [])
      arriving
