-- ===== src/Tests/Logging.antt =====
-- The theorem on the log line at a handler that panics, and runs of both middlewares.
use crypticquest_backend.Base.{◌≡◌, refl, true, false, none, some, [], arith}
use crypticquest_backend.Http.{healthy}
use crypticquest_backend.Middleware.Logging.{
  Script, json_calls, recover, logging, is_informational, run_recorder, run_wire,
}
use crypticquest_backend.Middleware.Logging.Status.{logged_is_sent}

abbrev broken : Script
broken = record { calls = []; panics = true }

-- It panics behind its answer.
abbrev late : Script
late = record { calls = json_calls 201 healthy; panics = true }

abbrev silent : Script
silent = record { calls = []; panics = false }

logging_runs :
    (logging (recover broken) ≡ (some 500, some 500))
    × (logging (recover late) ≡ (some 201, some 201))
    × (logging (recover silent) ≡ (some 200, some 200))
    × (logging broken ≡ (none, none))
unfolding logging recover run_recorder is_informational
logging_runs = (refl, refl, refl, refl)

logged_is_sent_example : logging (recover late) ≡ (some 201, some 201)
unfolding run_wire is_informational
logged_is_sent_example = logged_is_sent late (omega arith, (tt, tt))
