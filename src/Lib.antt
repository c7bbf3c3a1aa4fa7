-- ===== src/Lib.antt =====
-- Verification of fde-assessment: what its Python services decide, without their I/O.
-- The repository has four programs. This library models the parts of each that decide something; what
-- it leaves out is said below.
--
-- task4_model_router/ routes a chat request to language-model providers under a budget of tokens per
-- tenant and minute. `ModelRouter.route` estimates the request's tokens, reserves them in a table of
-- rows, tries the providers in the order of their priorities, and settles the reservation at the
-- tokens that the reply reports, or gives it back. It stands in the modules below Router:
--   Router/Tokens     tokens.py: the walk over the request, the completion ceiling, the figure of a reply
--   Router/Limiter    limiter.py: one function of the table for each SQL statement and each method
--   Router/Errors     errors.py: codes, statuses, the allow-list of details, Retry-After
--   Router/Providers  providers.py and `_call_provider` of router.py: body, status, retry hint, order
--   Router/Route      `route`, `_attempt_providers` and `_release_orphan` of router.py
--   Router/App        app.py: the endpoint, from the authorization header to the answer
--   Router/Page       app.py: the payload that a client is shown
--
-- task2_mcp_gateway/ is a proxy before an MCP server. `proxy` authenticates the caller, reads the body
-- under a cap, parses it, checks the JSON-RPC envelope, screens calls of tools by role, forwards what
-- passes under the gateway's own credential, and checks what comes back. The modules below Gateway:
--   Gateway/Auth      auth.py and `sole_authorization_header`
--   Gateway/Policy    policy.py
--   Gateway/Rpc       errors.py, the envelope, and the check of the downstream's response
--   Gateway/Screen    `screen_message`
--   Gateway/Headers   `_ascii_header`, `request_reference`, `downstream_headers`
--   Gateway/Upstream  `_read_capped`, `_build_response` and the treatment of the downstream's reply
--   Gateway/Proxy     `proxy` and the backstop handler
--
-- task1_mcp_server/ is an MCP server with a billing tool. Server/Store models its store.py: the look-up
-- of a customer and the refund, each one step, since both run under the store's lock. Server/Tools
-- models the arguments' models of schemas.py, and `validate_arguments` and `on_call_tool` of server.py.
-- Between the transport's lines and the server stands the pump of server.py, which is a relation on
-- sessions, since lines come and answers go in any order:
--   Server/Frames     the screening of lines and envelopes, and the shape of errors
--   Server/Drain      `DrainTracker` and the bounds of its timeout
--   Server/Session    `LineRecordingInput`, `protocol_error_pump`, `TrackingWriteStream`
--
-- task3_streaming_guardrail/ relays a model's event stream and redacts it on the way. Guardrail/Sse
-- models `_parse_block` and `encode_sse` of its sse.py, an event's data being the field `payload`, and
-- Guardrail/Sse/Decoder its `SSEDecoder`, on the text that the UTF-8 decoder makes of the bytes.
-- Guardrail/Redactor models `StreamingRedactor` of its redactor.py and what it calls:
--   Redactor/Cards       `_card_scheme`, `_luhn_ok`, `_ssn_ok`, `_is_card`
--   Redactor/Spans       `_resolve_overlaps`, `_gaps`
--   Redactor/Scan        `_scan`, `_shorter_valid_match`, `_trimmed_pan`
--   Redactor/Rescue      `_numeric_runs`, `_rescue_candidates`, `_rescue_at`, `_rescue_matches`
--   Redactor/FixedPoint  `_scan_to_fixed_point`, `_valid_matches`
--   Redactor/Stream      `_holdback_index`, `_keyword_precedes`, `_emit`, `feed`, `flush`, `redact_text`
-- The gateway of its gateway.py feeds each incremental text of a response to the redactor of its key. It uses the
-- redactor through an interface (Redaction), which Guardrail/Pool/Redactors fills:
--   Guardrail/Pool       `RedactorPool`
--   Guardrail/Payload    `redact_payload` and the other walks over a chunk
--   Guardrail/Residue    the chunks that carry what a flush puts out
--   Guardrail/Gateway    `_handle_event`, `_remember` and `_stream`
--   Guardrail/Endpoint   `completions`
--
-- Base holds what all of them share; Json is the type of the values that `json.loads` returns.
--
-- Numbers. Times are whole milliseconds on the native numbers, so the source's floats of seconds are
-- read as multiples of a millisecond; the cutoff `now - window` stops at 0, which is right as long as
-- no row is older than time 0. Integers of JSON are unbounded, as in Python. The heuristic of 3.6
-- characters per token is the exact quotient, which the float agrees with at every length of a
-- request. Every loop is structural: the walk of a request is bounded by the source's own depth limit,
-- written out. Two loops of the redactor, whose steps the engine chooses, take fuel: `scan` gets one
-- more than the positions between its ends and `shrink` the end that it starts below, which are enough
-- since each round of the first moves forward and each of the second moves back.
--
-- Parameters. What comes from outside the repository is an argument: the tokenizer, `json.dumps`
-- and `repr` (Runtime), the Unicode tables of `str` (Unicode), comparisons of floats (Floats),
-- amounts of money (Money), the strict mode of pydantic's models (Reading), JSON parsing and
-- whether a response can be rendered (Codec), the clocks, the calls of providers and the points of
-- cancellation (World), the downstream server, the text that the UTF-8 decoder makes of a stream's
-- bytes, what `json` and `str` do in the gateway of the guardrail (Python) and in the router's
-- endpoint (Web), the lines of the MCP server's input (Lines), and the regex engine of the redactor
-- (Engine): where its matches lie is the hypothesis IsSound, which its documentation states. The
-- limiter's table is a list of its rows in the order in which SQLite scans them.
--
-- Not modelled. SQLite's set-up, pragmas and busy retries; the thread pools; logging and statistics
-- for it; FastAPI wiring; the mock servers; the SDK between the pump and the handlers of
-- task1_mcp_server/, and the file descriptors of its wire.py; a client of the guardrail that leaves;
-- the texts of the redactor's expressions, and the probe for the characters that they can start with.
-- A rule's regular expression is the test that it makes.
pub mod Base
pub mod Json
pub mod Router
pub mod Gateway
pub mod Server
pub mod Guardrail
