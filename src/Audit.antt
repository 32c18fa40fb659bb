-- ===== src/Audit.antt =====
-- sphere/src/audit/event.rs, sphere/src/audit/sink.rs and sphere/src/audit/emitter.rs. An event's
-- JSON is `serde_json`'s, a parameter; so are the writers behind the sinks, which are given by what
-- an operation of theirs makes of the state `W` of the logs.
use intellisphere.Common.{String, Option, none, some, List, [], ◌∷◌, Result, ok, err}
use intellisphere.Common.Text.{◌<>◌}

pub data AuditEventType : Type 0 where
  request_received filter_applied filter_blocked completion_requested completion_received
        tool_call_intercepted tool_call_authorized tool_call_denied tool_call_executed
        tool_call_timeout response_filtered response_sent policy_evaluated policy_violated :
      AuditEventType

-- The names that serde gives the variants; `Display` writes them.
unfoldable pub event_type_text : AuditEventType → String
event_type_text request_received = "request_received"
event_type_text filter_applied = "filter_applied"
event_type_text filter_blocked = "filter_blocked"
event_type_text completion_requested = "completion_requested"
event_type_text completion_received = "completion_received"
event_type_text tool_call_intercepted = "tool_call_intercepted"
event_type_text tool_call_authorized = "tool_call_authorized"
event_type_text tool_call_denied = "tool_call_denied"
event_type_text tool_call_executed = "tool_call_executed"
event_type_text tool_call_timeout = "tool_call_timeout"
event_type_text response_filtered = "response_filtered"
event_type_text response_sent = "response_sent"
event_type_text policy_evaluated = "policy_evaluated"
event_type_text policy_violated = "policy_violated"

-- `Time` is `DateTime<Utc>`, `Val` a JSON value.
pub record AuditEvent (Time Val : Type 0) : Type 0 where
  pub event_type : AuditEventType
  pub request_id : String
  pub session_id : String
  pub timestamp : Time
  pub identity_sub : Option String
  pub details : Val

module _ {Time Val : Type 0} where
  -- `now` is the time read.
  unfoldable pub new : AuditEventType → String → String → Val → Time → AuditEvent Time Val
  new event_type request_id session_id details now = record {
    event_type = event_type;
    request_id = request_id;
    session_id = session_id;
    timestamp = now;
    identity_sub = none;
    details = details;
  }

  unfoldable pub with_identity : String → AuditEvent Time Val → AuditEvent Time Val
  with_identity sub e = record e { identity_sub = some sub }

-- A record that `tracing` is given: the audit record of an event, or the warning of the stub.
pub data TraceRecord : Type 0 where
  audit_event : (event_type request_id session_id audit_payload : String) → TraceRecord
  warning : String → TraceRecord

-- `writeln path text` is `writeln!` of a text to a log's non-blocking writer, whatever that makes of
-- it and whether it loses it or not; `trace` gives a record to `tracing`.
pub record Logs (W : Type 0) : Type 0 where
  pub writeln : String → String → W → W
  pub trace : TraceRecord → W → W

-- The implementations of `AuditSink`; a file sink is named by its directory and
-- file name prefix, which stand for its files of all days.
pub data AuditSink : Type 0 where
  stdout_sink otlp_sink : AuditSink
  file_sink : String → AuditSink

pub record AuditEmitter : Type 0 where
  pub sinks : List AuditSink

abbrev pub emitter : List AuditSink → AuditEmitter
emitter sinks = record { sinks = sinks }

module _ {Time Val W : Type 0} (to_string : AuditEvent Time Val → Result String String)
    (logs : Logs W) where
  payload_of : Result String String → String
  payload_of (ok text) = text
  payload_of (err e) = "{\"error\":\"failed to serialize audit event: " <> e <> "\"}"

  unfoldable pub payload : AuditEvent Time Val → String
  unfolding payload_of
  payload event = payload_of (to_string event)

  abbrev pub stdout_send : AuditEvent Time Val → W → W
  stdout_send event w =
      logs.trace
        (audit_event (event_type_text event.event_type) event.request_id event.session_id
          (payload event))
        w

  abbrev pub file_send : String → AuditEvent Time Val → W → W
  file_send path event w = logs.writeln path (payload event) w

  abbrev pub otlp_send : AuditEvent Time Val → W → W
  otlp_send event w = logs.trace (warning "OTLP sink not yet configured") w

  unfoldable pub send : AuditSink → AuditEvent Time Val → W → W
  send stdout_sink event w = stdout_send event w
  send (file_sink path) event w = file_send path event w
  send otlp_sink event w = otlp_send event w

  -- The loop of `emit`.
  unfoldable pub send_all : List AuditSink → AuditEvent Time Val → W → W
  unfolding send
  send_all [] event w = w
  send_all (s ∷ ss) event w = send_all ss event (send s event w)

  unfoldable pub emit : AuditEmitter → AuditEvent Time Val → W → W
  unfolding send_all
  emit e event w = send_all e.sinks event w
