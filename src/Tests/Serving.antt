-- ===== src/Tests/Serving.antt =====
-- The theorems on the diagnostics server at concrete inputs.
use kong_portal_controller.Base.{false, string_dec, error_text}
use kong_portal_controller.Base.{
  ℕ, ◌+◌, ◌≤◌, String, ◌≡◌, refl, ◌⊎◌, true, false, none, some, List, [], ◌∷◌, arith, Error,
  message, ◌==◌, string_eq, nat_eq, if◌then◌else◌,
}
use kong_portal_controller.Annotations.{lookup}
use kong_portal_controller.Diagnostics.{Handler, MuxLib, Server}
use kong_portal_controller.Diagnostics.Handlers.{IsMux}
use kong_portal_controller.Diagnostics.Listen.{
  IsOver, offering, ended, watching, returned_done, Listening, selecting, closing, returned,
  Goroutines, HttpLib, after_serving, expires, fails_serving, receives_done, selects_error,
  shuts_down, started, Reach, start, later, Run, no_step, more_steps,
}
use kong_portal_controller.Diagnostics.Interleavings.{IsFailure, Reach-returned, Run-offering}
use kong_portal_controller.Diagnostics.Endings.{IsEnded, QuietRun, Run-ends}

-- A mux is the table of its patterns.
abbrev muxes : MuxLib
muxes = record {
  Mux = List (String × Handler);
  new_serve_mux = [];
  handle_func =
      λ pattern h m. elim (lookup pattern m) [ none ↦ some ((pattern, h) ∷ m) | some old ↦ none ];
}

muxes-register :
    (pattern : String) (h : Handler) (m : List (String × Handler))
    → lookup pattern m ≡ none
    → (m' : List (String × Handler)) × (muxes.handle_func pattern h m ≡ some m')
      × ((q : String) → lookup q m' ≡ (if pattern == q then some h else lookup q m))
unfolding lookup
muxes-register pattern h m free = ((pattern, h) ∷ m, ground (arith, free), λ q. refl)

muxes-IsMux : IsMux muxes
unfolding lookup
muxes-IsMux = record {
  handler_of = λ m q. lookup q m;
  fresh = λ q. refl;
  registers = muxes-register;
}

abbrev profiled : Server
profiled = record { profiling_enabled = true; config_lock = none }

closed_itself : (error_text (message "http: Server closed") == "http: Server closed") ≡ true
unfolding string_dec
closed_itself = refl

abbrev http : HttpLib
http = record {
  server_closed = message "http: Server closed";
  is_server_closed = λ e. error_text e == "http: Server closed";
  closed-itself = closed_itself;
}

abbrev failure : Error
failure = message "address in use"

failure_open : http.is_server_closed failure ≡ false
unfolding string_dec
failure_open = refl

abbrev canceled : Error
canceled = message "context canceled"

-- The listener fails, and `Listen` receives the failure.
abbrev failed : Goroutines
failed = record {
  ctx = none;
  down = false;
  serving = ended;
  receiving = watching;
  listening = returned (some failure);
}

failed-Reach : Reach http none failed
unfolding after_serving string_dec
failed-Reach =
    later (later start (fails_serving failure failure_open refl)) (selects_error failure refl refl)

Reach-returned_example :
    IsOver failed
    ⊎ ((e : Error) × (some failure ≡ some e)
        × IsFailure http e
        × (failed.serving ≡ ended)
        × (failed.receiving ≡ watching))
Reach-returned_example = Reach-returned http none failed (some failure) failed-Reach refl

-- The listener fails at the end of the context, and `Listen` selects the end of the context.
abbrev unread : Goroutines
unread = record {
  ctx = some canceled;
  down = true;
  serving = offering failure;
  receiving = watching;
  listening = closing;
}

abbrev left_over : Goroutines
left_over = record {
  ctx = some canceled;
  down = true;
  serving = offering failure;
  receiving = returned_done;
  listening = returned none;
}

unread-Run : Run http unread 2 left_over
unread-Run =
    more_steps (more_steps no_step (shuts_down none refl)) (receives_done canceled refl refl)

past_select : ¬ (◌≡◌ {A = Listening} closing selecting)
past_select h = absurd (ground arith)

Run-offering_example : left_over.serving ≡ offering failure
Run-offering_example = Run-offering http unread left_over 2 failure unread-Run past_select refl

-- The listener has failed at the end of the context, and `Listen` has not noticed either.
abbrev both_ready : Goroutines
both_ready = record {
  ctx = some canceled;
  down = false;
  serving = offering failure;
  receiving = watching;
  listening = selecting;
}

both_ready-Run : Run http (started http none) 2 both_ready
unfolding after_serving string_dec
both_ready-Run =
    more_steps (more_steps no_step (expires canceled refl))
      (fails_serving failure failure_open refl)

Run-ends_example :
    (m : ℕ) × (t : Goroutines) × QuietRun http both_ready m t × (2 + m ≤ 6) × IsEnded http t
Run-ends_example = Run-ends http none both_ready 2 both_ready-Run (canceled, refl)
