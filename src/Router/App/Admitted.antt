-- ===== src/Router/App/Admitted.antt =====
-- What passes the endpoint's checks, and what a request that does not pass them comes to:
-- `completions` of task4_model_router/app.py.
use fde_assessment.Base.{
  ℕ, ◌≤◌, String, ◌≡◌, ◌⊎◌, inl, inr, refl, subst, length, true, false, Option, none, some, List,
  [], Bool-cases, Option-cases,
}
use fde_assessment.Base.Unicode.{Unicode}
use fde_assessment.Json.{Json, Items, cons, Fields, null, bool, int, float, str, arr, obj, get}
use fde_assessment.Gateway.Upstream.{Bytes}
use fde_assessment.Gateway.Proxy.{
  Received, received, oversized, disconnected, receive, declares_too_large,
}
use fde_assessment.Router.Limiter.{Table, Limits}
use fde_assessment.Gateway.Upstream.Capped.{join}
use fde_assessment.Router.Tokens.{Runtime}
use fde_assessment.Router.Errors.{unauthenticated}
use fde_assessment.Router.Route.{World, route}
use fde_assessment.Router.App.{
  Web, HttpRequest, Ended, returned, refused, unexpected, hung_up, Admission, admitted, declined,
  Completed, error_of, bad_field, limit_key_for, is_filled_list, is_truthy, check_body,
  after_receive, read_body, admit, after_admission, completions, present,
}
use fde_assessment.Router.App.Guards.{
  IsCaller, IsShort, IsFalsy, limit_key_for-IsCaller, declares_too_large-IsShort, receive-arrived,
  is_filled_list-cons, is_truthy-IsFalsy,
}

-- the ways in which a request is turned away before it is routed
pub data IsRefusal {F : Type 0} (request_id : String) : Ended F → Type 0 where
  no_key : IsRefusal request_id (refused (error_of unauthenticated request_id))
  bad_body : IsRefusal request_id (refused (bad_field request_id "body"))
  bad_messages : IsRefusal request_id (refused (bad_field request_id "messages"))
  wants_stream : IsRefusal request_id (refused (bad_field request_id "stream"))
  client_left : IsRefusal request_id (returned hung_up)
  -- the declared length is made of digits that `int` does not read
  odd_length : IsRefusal request_id unexpected

module _ {F : Type 0} (web : Web F) (u : Unicode) (api_keys : List (String × String))
    (max_request_bytes : ℕ) where
  -- a request that is to be routed under a limit key with this body
  pub record IsAdmitted (req : HttpRequest) (key : String) (body : Fields F) : Type 0 where
    pub owner : limit_key_for u api_keys req.authorization ≡ some key
    pub caller : IsCaller u api_keys req.authorization key
    pub declared : IsShort u max_request_bytes req.content_length
    pub size : length (join req.chunks) ≤ max_request_bytes
    pub stays : req.disconnects ≡ false
    pub loads : web.loads (join req.chunks) ≡ some (obj body)
    pub first : Json F
    pub others : Items F
    pub messages : get "messages" body ≡ some (arr (cons first others))
    pub no_stream : IsFalsy web (get "stream" body)

  -- what an admission means of its request
  abbrev Decides : String → HttpRequest → Admission F → Type 0
  Decides request_id req (admitted key body) = IsAdmitted req key body
  Decides request_id req (declined how) = IsRefusal request_id how

  module _ (request_id key : String) (req : HttpRequest)
      (owner : limit_key_for u api_keys req.authorization ≡ some key)
      (declared : declares_too_large u max_request_bytes req.content_length ≡ some false) where
    check_body-IsAdmitted :
        (raw : Bytes) (body : Fields F)
        → is_filled_list (get "messages" body) ≡ true
        → is_truthy web (get "stream" body) ≡ false
        → receive max_request_bytes 0 [] req.chunks req.disconnects ≡ received raw
        → web.loads raw ≡ some (obj body)
        → IsAdmitted req key body
    check_body-IsAdmitted raw body filled whole read loads =
        let (size, stays, is_raw) =
          receive-arrived max_request_bytes req.chunks req.disconnects raw read in
        let (first, others, messages) = is_filled_list-cons (get "messages" body) filled in
        record {
          owner = owner;
          caller = limit_key_for-IsCaller u api_keys req.authorization key owner;
          declared = declares_too_large-IsShort u max_request_bytes req.content_length declared;
          size = size;
          stays = stays;
          loads = subst (λ r. web.loads r ≡ some (obj body)) is_raw loads;
          first = first;
          others = others;
          messages = messages;
          no_stream = is_truthy-IsFalsy web (get "stream" body) whole;
        }

    check_body-Decides :
        (raw : Bytes) (parsed : Option (Json F))
        → receive max_request_bytes 0 [] req.chunks req.disconnects ≡ received raw
        → web.loads raw ≡ parsed
        → Decides request_id req (check_body web request_id key parsed)
    unfolding check_body
    check_body-Decides raw (some (obj body)) read loads =
        elim (Bool-cases (is_filled_list (get "messages" body))) [
          | inr bad ↦ rw (bad, Decides) bad_messages
          | inl filled ↦ elim (Bool-cases (is_truthy web (get "stream" body))) [
            | inl streamed ↦ rw (filled, streamed, Decides) wants_stream
            | inr whole ↦
                rw (filled, whole, Decides) (check_body-IsAdmitted raw body filled whole read loads)
          ]
        ]
    check_body-Decides raw none read loads = bad_body
    check_body-Decides raw (some null) read loads = bad_body
    check_body-Decides raw (some (bool b)) read loads = bad_body
    check_body-Decides raw (some (int n)) read loads = bad_body
    check_body-Decides raw (some (float x)) read loads = bad_body
    check_body-Decides raw (some (str s)) read loads = bad_body
    check_body-Decides raw (some (arr xs)) read loads = bad_body

    after_receive-Decides :
        (got : Received)
        → receive max_request_bytes 0 [] req.chunks req.disconnects ≡ got
        → Decides request_id req (after_receive web request_id key got)
    unfolding after_receive
    after_receive-Decides (received raw) read = check_body-Decides raw (web.loads raw) read refl
    after_receive-Decides oversized read = bad_body
    after_receive-Decides disconnected read = client_left

  admit-Decides :
      (request_id : String) (req : HttpRequest)
      → Decides request_id req (admit web u api_keys max_request_bytes request_id req)
  unfolding admit read_body
  admit-Decides request_id req = elim (Option-cases (limit_key_for u api_keys req.authorization)) [
    | inl stranger ↦ rw (stranger, Decides) no_key
    | inr (key, owner) ↦
        elim (Option-cases (declares_too_large u max_request_bytes req.content_length)) [
          | inl odd ↦ rw (owner, odd, Decides) odd_length
          | inr (over, e) ↦ elim (Bool-cases over) [
            | inl t ↦ rw (owner, e, t, Decides) bad_body
            | inr f ↦
                rw (owner, e, f, Decides)
                  (after_receive-Decides request_id key req owner (rw (e, f))
                    (receive max_request_bytes 0 [] req.chunks req.disconnects) refl)
          ]
        ]
  ]

  module _ (rt : Runtime F) (ceiling : ℕ) (l : Limits) (w : World F) where
    after_admission-routes :
        (req : HttpRequest) (rows : Table) (how : Admission F)
        → Decides w.request_id req how
        → let done : Completed F =
            after_admission web u api_keys max_request_bytes rt ceiling l w how rows in
          ((key : String) × (body : Fields F) × IsAdmitted req key body
            × (let routed = route u ceiling l w rt key body rows in
                (done.end ≡ present web routed.end)
                × (done.rows ≡ routed.rows)
                × (done.sent ≡ routed.sent)))
          ⊎ (IsRefusal w.request_id done.end × (done.rows ≡ rows) × (done.sent ≡ []))
    unfolding after_admission
    after_admission-routes req rows (admitted key body) fit =
        inl (key, body, fit, (refl, refl, refl))
    after_admission-routes req rows (declined how) refusal = inr (refusal, refl, refl)

    -- A request either is routed under its caller's limit key with its parsed body, and then its header
    -- is the scheme bearer with an API key that stands in the registry, the key is that of its tenant,
    -- the length is within the cap if the header declares a number, and as it arrives, the body is an
    -- object whose messages are a list that is not empty, and its stream is absent, null, false, 0 or
    -- empty; or it ends in one of the six refusals, changes no row, and sends no provider anything.
    pub completions_routes-IsAdmitted :
        (req : HttpRequest) (rows : Table)
        → let done = completions web u api_keys max_request_bytes rt ceiling l w req rows in
          ((key : String) × (body : Fields F) × IsAdmitted req key body
            × (let routed = route u ceiling l w rt key body rows in
                (done.end ≡ present web routed.end)
                × (done.rows ≡ routed.rows)
                × (done.sent ≡ routed.sent)))
          ⊎ (IsRefusal w.request_id done.end × (done.rows ≡ rows) × (done.sent ≡ []))
    unfolding completions
    completions_routes-IsAdmitted req rows =
        after_admission-routes req rows (admit web u api_keys max_request_bytes w.request_id req)
          (admit-Decides w.request_id req)
