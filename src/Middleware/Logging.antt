-- ===== src/Middleware/Logging.antt =====
-- internal/middleware/logging.go and the calls that internal/respond/respond.go makes of a
-- http.ResponseWriter. A handler is the sequence of its calls, and whether it then panics.
pub mod Status
use crypticquest_backend.Base.{
  ℕ, ◌<◌, Bool, true, false, ◌&&◌, not, Option, none, some, List, [], ◌∷◌, ◌++◌, leb, ltb, nat_eq,
  if◌then◌else◌,
}
use crypticquest_backend.Http.{Body, error}

-- What is written of a body: the JSON text of a value.
pub data Call : Type 0 where
  write_header : ℕ → Call
  write : Body → Call

pub record Script : Type 0 where
  pub calls : List Call
  pub panics : Bool

-- The connection, as net/http keeps it: the final status, once it is sent, and what was written.
pub record Wire : Type 0 where
  pub sent : Option ℕ
  pub bodies : List Body

abbrev or_sent : Option ℕ → ℕ → Option ℕ
or_sent none code = some code
or_sent (some k) code = some k

-- A status of 100 to 199 is sent ahead of the final one, but for 101; a second final status is
-- superfluous and dropped. net/http panics for a code that has not three digits, which no handler sends; that
-- is not modelled.
unfoldable pub is_informational : ℕ → Bool
is_informational code = leb 100 code && leb code 199 && not (nat_eq code 101)

unfoldable pub wire_header : ℕ → Wire → Wire
wire_header code w = if is_informational code then w else record w { sent = or_sent w.sent code }

-- A write before any final status sends 200.
unfoldable pub wire_write : Body → Wire → Wire
wire_write body w = record { sent = or_sent w.sent 200; bodies = w.bodies ++ body ∷ [] }

-- statusRecorder
pub record StatusRecorder : Type 0 where
  pub inner : Wire
  pub status : ℕ
  pub written : Bool

unfoldable pub recorder_header : ℕ → StatusRecorder → StatusRecorder
recorder_header code r = record {
  inner = wire_header code r.inner;
  status = if r.written then r.status else code;
  written = true;
}

unfoldable pub recorder_write : Body → StatusRecorder → StatusRecorder
recorder_write body r = record {
  inner = wire_write body r.inner;
  status = if r.written then r.status else 200;
  written = true;
}

-- One call on the recorder.
call_recorder : Call → StatusRecorder → StatusRecorder
call_recorder (write_header code) r = recorder_header code r
call_recorder (write body) r = recorder_write body r

unfoldable pub run_recorder : List Call → StatusRecorder → StatusRecorder
unfolding call_recorder recorder_header recorder_write wire_header wire_write
run_recorder [] r = r
run_recorder (c ∷ cs) r = run_recorder cs (call_recorder c r)

call_wire : Call → Wire → Wire
call_wire (write_header code) w = wire_header code w
call_wire (write body) w = wire_write body w

-- The same calls on the connection itself.
unfoldable pub run_wire : List Call → Wire → Wire
unfolding call_wire wire_header wire_write
run_wire [] w = w
run_wire (c ∷ cs) w = run_wire cs (call_wire c w)

abbrev pub new_wire : Wire
new_wire = record { sent = none; bodies = [] }

abbrev pub new_recorder : StatusRecorder
new_recorder = record { inner = new_wire; status = 200; written = false }

-- `respond.JSON`
abbrev pub json_calls : ℕ → Body → List Call
json_calls status v = write_header status ∷ write v ∷ []

-- Recover: the deferred function answers a panic.
unfoldable pub recover : Script → Script
recover next =
    if next.panics
    then record {
      calls = next.calls ++ json_calls 500 (error "internal server error");
      panics = false;
    }
    else next

-- What a client sees of a handler that returns: 200 if it has sent nothing. The connection of a
-- handler that panics is dropped.
abbrev pub seen_status : Option ℕ → ℕ
seen_status none = 200
seen_status (some k) = k

abbrev pub client_status : Bool → Wire → Option ℕ
client_status panics w = if panics then none else some (seen_status w.sent)

-- Logging: the status of the response, none if the connection is dropped, and that of the log line,
-- which a panic skips.
unfoldable pub logging : Script → Option ℕ × Option ℕ
unfolding run_recorder
logging next =
    let r = run_recorder next.calls new_recorder in
    (client_status next.panics r.inner, if next.panics then none else some r.status)
