-- ===== src/Middleware/Logging/Status.antt =====
-- That the log line of Logging (internal/middleware/logging.go) has the status that was sent.
use crypticquest_backend.Base.{
  ℕ, ◌≤◌, ◌≡◌, refl, ◌∙◌, ap, Bool, true, false, Option, none, some, List, [], ◌∷◌, ◌++◌,
  if◌then◌else◌, All, arith,
}
use crypticquest_backend.Http.{error}
use crypticquest_backend.Middleware.Logging.{
  Call, write_header, write, Script, Wire, is_informational, wire_header, wire_write,
  StatusRecorder, recorder_header, recorder_write, call_recorder, run_recorder, call_wire, run_wire,
  new_wire, new_recorder, json_calls, recover, seen_status, logging,
}

-- A final status; respond.JSON is called with no other.
abbrev pub IsFinal : Call → Type 0
IsFinal (write_header code) = 200 ≤ code
IsFinal (write body) = Unit

-- The recorder has noted what the connection has sent.
abbrev Agrees : StatusRecorder → Type 0
Agrees r = r.inner.sent ≡ (if r.written then some r.status else none)

final_is_sent : (code : ℕ) → 200 ≤ code → is_informational code ≡ false
unfolding is_informational
final_is_sent code h = ground arith

call-Agrees : (c : Call) (r : StatusRecorder) → IsFinal c → Agrees r → Agrees (call_recorder c r)
unfolding call_recorder recorder_header recorder_write wire_header wire_write
call-Agrees (write_header code) r h a = rw (final_is_sent code h) (rw a (ground arith))
call-Agrees (write body) r h a = rw a (ground arith)

-- Nothing written leaves the default.
abbrev HasDefault : StatusRecorder → Type 0
HasDefault r = (if r.written then 200 else r.status) ≡ 200

call-HasDefault : (c : Call) (r : StatusRecorder) → HasDefault (call_recorder c r)
unfolding call_recorder recorder_header recorder_write
call-HasDefault (write_header code) r = refl
call-HasDefault (write body) r = refl

run-Agrees :
    (cs : List Call) (r : StatusRecorder)
    → All IsFinal cs
    → Agrees r
    → HasDefault r
    → Agrees (run_recorder cs r) × HasDefault (run_recorder cs r)
unfolding run_recorder
run-Agrees [] r h a d = (a, d)
run-Agrees (c ∷ cs) r (p, h) a d =
    run-Agrees cs (call_recorder c r) h (call-Agrees c r p a) (call-HasDefault c r)

call-inner : (c : Call) (r : StatusRecorder) → (call_recorder c r).inner ≡ call_wire c r.inner
unfolding call_recorder call_wire recorder_header recorder_write
call-inner (write_header code) r = refl
call-inner (write body) r = refl

-- The recorder passes every call on.
run-inner : (cs : List Call) (r : StatusRecorder) → (run_recorder cs r).inner ≡ run_wire cs r.inner
unfolding run_recorder run_wire
run-inner [] r = refl
run-inner (c ∷ cs) r = run-inner cs (call_recorder c r) ∙ ap (run_wire cs) (call-inner c r)

run_wire-append :
    (cs ds : List Call) (w : Wire) → run_wire (cs ++ ds) w ≡ run_wire ds (run_wire cs w)
unfolding run_wire
run_wire-append [] ds w = refl
run_wire-append (c ∷ cs) ds w = run_wire-append cs ds (call_wire c w)

seen_of_Agrees :
    (r : StatusRecorder) → Agrees r → HasDefault r → r.status ≡ seen_status r.inner.sent
seen_of_Agrees r a d = rw a (ground arith)

-- Of a handler that returns.
logging_returns :
    (cs : List Call)
    → All IsFinal cs
    → logging (record { calls = cs; panics = false }) ≡ (
      some (seen_status (run_wire cs new_wire).sent),
      some (seen_status (run_wire cs new_wire).sent),
    )
unfolding logging
logging_returns cs h =
    let (a, d) = run-Agrees cs new_recorder h refl refl in
    rw (seen_of_Agrees (run_recorder cs new_recorder) a d) (rw (run-inner cs new_recorder) refl)

-- The status that a panic leaves: the one that was sent before it, or 500.
abbrev pub panic_status : Option ℕ → ℕ
panic_status none = 500
panic_status (some k) = k

after_panic :
    (w : Wire)
    → seen_status (run_wire (json_calls 500 (error "internal server error")) w).sent
      ≡ panic_status w.sent
unfolding run_wire call_wire wire_header wire_write is_informational
after_panic w = ground arith

All-append : (cs ds : List Call) → All IsFinal cs → All IsFinal ds → All IsFinal (cs ++ ds)
All-append [] ds h k = k
All-append (c ∷ cs) ds (p, h) k = (p, All-append cs ds h k)

recovered :
    (cs : List Call) (panics : Bool)
    → All IsFinal cs
    → let sent = (run_wire cs new_wire).sent in
      let status = if panics then panic_status sent else seen_status sent in
      logging (recover (record { calls = cs; panics = panics })) ≡ (some status, some status)
unfolding recover
recovered cs false h = logging_returns cs h
recovered cs true h =
    let answer = json_calls 500 (error "internal server error") in
    logging_returns (cs ++ answer) (All-append cs answer h (omega arith, (tt, tt)))
    ∙ rw (run_wire-append cs answer new_wire) (rw (after_panic (run_wire cs new_wire)) refl)

-- For a handler whose statuses are final ones, behind Recover and Logging: the client gets a
-- response and the log line has its status. That is the status which the handler alone sends first,
-- or 200 if it sends none; and if it panics, 500 unless it has sent a status before.
pub logged_is_sent :
    (next : Script)
    → All IsFinal next.calls
    → let sent = (run_wire next.calls new_wire).sent in
      let status = if next.panics then panic_status sent else seen_status sent in
      logging (recover next) ≡ (some status, some status)
logged_is_sent next h = recovered next.calls next.panics h
