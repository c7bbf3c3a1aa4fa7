-- ===== src/Gateway/Proxy/Forwarded.antt =====
-- What reaches the downstream, and what a body's cap lets in: task2_mcp_gateway/gateway.py.
use text.Mathlib.Text.{starts_with}
use fde_assessment.Base.{
  ℕ, ◌+◌, ◌≤◌, String, ◌≡◌, ◌⊎◌, refl, sym, subst, Bool, true, false, none, some, List, [], ◌∷◌,
  ◌++◌, length, if◌then◌else◌, ltb, leb, le→leb, arith, Bool-cases, Option-cases, inl, inr,
  length-append,
}
use fde_assessment.Base.Unicode.{Unicode}
use fde_assessment.Json.{Json, Fields, null, bool, int, float, str, arr, obj, get}
use fde_assessment.Gateway.Auth.{Principal, Auth, ok, err, authenticate}
use fde_assessment.Gateway.Policy.{default_tool_rules}
use fde_assessment.Gateway.Headers.{Headers, request_reference, downstream_headers}
use fde_assessment.Gateway.Rpc.{Floats, validate_envelope}
use fde_assessment.Gateway.Screen.{Screened, forward, refuse, raised, normalise, screen_message}
use fde_assessment.Gateway.Screen.Gate.{admin_call_needs_admin}
use fde_assessment.Gateway.Upstream.{Bytes, Loaded, loaded, value_error, too_deep, Codec}
use fde_assessment.Gateway.Upstream.Capped.{join, append-join, append-nil}
use fde_assessment.Gateway.Proxy.{
  Request, Settings, Received, received, oversized, disconnected, receive, declares_too_large,
  Opened, forward_call, after_screen, after_parse, after_load, after_receive, read_request,
  after_auth, proxy,
}

module _ {F : Type 0} (u : Unicode) (fl : Floats F) (codec : Codec F) (settings : Settings)
    (upstream : Fields F → Headers → Opened) where
  -- the calls that the gateway may make for a request: a message that is a JSON-RPC request and that
  -- the gate lets pass for this caller, under the gateway's own headers
  pub record IsVetted (principal : Principal) (message : Fields F) : Type 0 where
    pub envelope : validate_envelope (obj message) ≡ none
    pub passed : screen_message u settings.rules principal message ≡ forward

  -- all the calls are vetted, and there is one at most
  abbrev pub AreVetted : Principal → String → Request → List (Fields F × Headers) → Type 0
  AreVetted p request_ref req [] = Unit
  AreVetted p request_ref req ((message, headers) ∷ []) =
      IsVetted p message
      × (headers ≡ downstream_headers u settings.service_token p request_ref req.header)
  AreVetted p request_ref req (c ∷ d ∷ rest) = ⊥

  module _ (request_ref : String) (req : Request) (p : Principal) where
    after_screen-AreVetted :
        (message : Fields F) (screened : Screened F)
        → validate_envelope (obj message) ≡ none
        → screen_message u settings.rules p message ≡ screened
        → AreVetted p request_ref req
            (after_screen u fl codec settings upstream request_ref req p message screened).sent
    unfolding after_screen forward_call
    after_screen-AreVetted message forward valid passed =
        (record { envelope = valid; passed = passed }, refl)
    after_screen-AreVetted message (refuse e) valid passed = tt
    after_screen-AreVetted message raised valid passed = tt

    after_parse-AreVetted :
        (message : Json F)
        → AreVetted p request_ref req
            (after_parse u fl codec settings upstream request_ref req p message).sent
    unfolding after_parse
    after_parse-AreVetted (obj message) = elim (Option-cases (validate_envelope (obj message))) [
      | inl valid ↦
          rw (valid, AreVetted)
            (after_screen-AreVetted message (screen_message u settings.rules p message) valid refl)
      | inr (bad, e) ↦ rw (e, AreVetted) tt
    ]
    after_parse-AreVetted null = tt
    after_parse-AreVetted (bool b) = tt
    after_parse-AreVetted (int n) = tt
    after_parse-AreVetted (float x) = tt
    after_parse-AreVetted (str s) = tt
    after_parse-AreVetted (arr xs) = tt

    after_load-AreVetted :
        (got : Loaded F)
        → AreVetted p request_ref req
            (after_load u fl codec settings upstream request_ref req p got).sent
    unfolding after_load
    after_load-AreVetted (loaded message) = after_parse-AreVetted message
    after_load-AreVetted value_error = tt
    after_load-AreVetted too_deep = tt

    after_receive-AreVetted :
        (got : Received)
        → AreVetted p request_ref req
            (after_receive u fl codec settings upstream request_ref req p got).sent
    unfolding after_receive
    after_receive-AreVetted (received raw) = after_load-AreVetted (codec.loads raw)
    after_receive-AreVetted oversized = tt
    after_receive-AreVetted disconnected = tt

    read_request-AreVetted :
        AreVetted p request_ref req
          (read_request u fl codec settings upstream request_ref req p).sent
    unfolding read_request
    read_request-AreVetted =
        elim (Option-cases (declares_too_large u settings.max_body (req.header "content-length"))) [
          | inl failed ↦ rw (failed, AreVetted) tt
          | inr (over, e) ↦ elim (Bool-cases over) [
            | inl t ↦ rw (e, t, AreVetted) tt
            | inr f ↦
                rw (e, f, AreVetted)
                  (after_receive-AreVetted
                    (receive settings.max_body 0 [] req.chunks req.disconnects))
          ]
        ]

  -- the calls made for a request, and whether its caller is authenticated
  abbrev pub CallsOf : Auth Principal → String → Request → List (Fields F × Headers) → Type 0
  CallsOf (err e) request_ref req sent = sent ≡ []
  CallsOf (ok p) request_ref req sent = AreVetted p request_ref req sent

  after_auth-CallsOf :
      (request_ref : String) (req : Request) (auth : Auth Principal)
      → CallsOf auth request_ref req
          (after_auth u fl codec settings upstream request_ref req auth).sent
  unfolding after_auth
  after_auth-CallsOf request_ref req (err e) = refl
  after_auth-CallsOf request_ref req (ok p) = read_request-AreVetted request_ref req p

  -- A request leads to at most one call downstream, and to none without an authenticated caller; the
  -- message of that call is a valid JSON-RPC request that the policy lets pass for this caller, and
  -- its headers are the gateway's own.
  pub proxy_forwards_vetted :
      (fresh : String) (req : Request)
      → CallsOf
          (authenticate u settings.tokens req.authorization)
          (request_reference u fresh (req.header "x-request-id"))
          req
          (proxy u fl codec settings upstream fresh req).sent
  unfolding proxy
  proxy_forwards_vetted fresh req =
      after_auth-CallsOf (request_reference u fresh (req.header "x-request-id")) req
        (authenticate u settings.tokens req.authorization)

  CallsOf-head :
      (auth : Auth Principal) (request_ref : String) (req : Request)
      (sent rest : List (Fields F × Headers)) (message : Fields F) (headers : Headers)
      → CallsOf auth request_ref req sent
      → sent ≡ (message, headers) ∷ rest
      → (p : Principal) × (auth ≡ ok p) × IsVetted p message
  CallsOf-head (err e) request_ref req sent rest message headers calls is_sent = absurd (cc)
  CallsOf-head (ok p) request_ref req [] rest message headers calls is_sent = absurd (cc)
  CallsOf-head (ok p) request_ref req ((m, h) ∷ []) rest message headers calls is_sent =
      let same : m ≡ message = cc in (p, refl, subst (λ x. IsVetted p x) same calls.0)
  CallsOf-head (ok p) request_ref req (c ∷ d ∷ more) rest message headers calls is_sent =
      absurd calls

-- Under the default rules, a tools/call whose tool name begins with admin_, as sent or once stripped
-- and casefolded, is sent downstream only for a request that is authenticated as a principal whose
-- role is admin.
pub admin_call_reaches_for_admin :
    {F : Type 0} (u : Unicode) (fl : Floats F) (codec : Codec F) (settings : Settings)
    (upstream : Fields F → Headers → Opened) (fresh : String) (req : Request)
    (message params : Fields F) (name : String) (headers : Headers)
    (rest : List (Fields F × Headers))
    → settings.rules ≡ default_tool_rules
    → (proxy u fl codec settings upstream fresh req).sent ≡ (message, headers) ∷ rest
    → get "method" message ≡ some (str "tools/call")
    → get "params" message ≡ some (obj params)
    → get "name" params ≡ some (str name)
    → (starts_with name "admin_" ≡ true) ⊎ (starts_with (normalise u name) "admin_" ≡ true)
    → (p : Principal) × (authenticate u settings.tokens req.authorization ≡ ok p)
      × (p.role ≡ "admin")
admin_call_reaches_for_admin u fl codec settings upstream fresh req message params name headers rest
      default is_sent is_call have named begins =
    let (p, authentic, vetted) =
      CallsOf-head u fl codec settings upstream (authenticate u settings.tokens req.authorization)
        (request_reference u fresh (req.header "x-request-id")) req
        (proxy u fl codec settings upstream fresh req).sent rest message headers
        (proxy_forwards_vetted u fl codec settings upstream fresh req) is_sent in
    let passed : screen_message u default_tool_rules p message ≡ forward =
      subst (λ rules. screen_message u rules p message ≡ forward) default vetted.passed in
    (p, authentic, admin_call_needs_admin u p message params name is_call have named passed begins)

receive_total :
    (cap sofar : ℕ) (parts : Bytes) (chunks : List Bytes) (gone : Bool)
    → sofar ≡ length parts
    → sofar ≤ cap
    → receive cap sofar parts chunks gone ≡ (
        if leb (length (parts ++ join chunks)) cap
        then (if gone then disconnected else received (parts ++ join chunks))
        else oversized)
unfolding receive
receive_total cap sofar parts [] gone counted short =
    rw (append-nil parts, sym counted, le→leb sofar cap short)
receive_total cap sofar parts (c ∷ cs) gone counted short =
    let together = append-join parts c cs in
    let total = length-append (parts ++ c) (join cs) in
    let grown = length-append parts c in
    elim (Bool-cases (ltb cap (sofar + length c))) [
      | inl over ↦
          let whole : leb (length ((parts ++ c) ++ join cs)) cap ≡ false = ground arith in
          rw (over, sym together, whole)
      | inr under ↦ rw (
        under,
        sym together,
        receive_total cap (sofar + length c) (parts ++ c) cs gone (omega arith) (ground arith),
      )
    ]

-- Reading a request's body gives all its chunks joined if they come to at most the cap, unless the
-- client goes away before their end; it is refused as too large exactly when what arrives is over
-- the cap, however it is cut into chunks and whether or not the client goes away.
pub receive_exact :
    (cap : ℕ) (chunks : List Bytes) (gone : Bool)
    → receive cap 0 [] chunks gone ≡ (
        if leb (length (join chunks)) cap
        then (if gone then disconnected else received (join chunks))
        else oversized)
receive_exact cap chunks gone = receive_total cap 0 [] chunks gone refl (omega arith)
