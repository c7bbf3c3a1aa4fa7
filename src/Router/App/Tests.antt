-- ===== src/Router/App/Tests.antt =====
-- The router's endpoint on concrete requests, and its theorems at inputs that meet their hypotheses.
use fde_assessment.Base.{
  ℕ, ◌-◌, ◌≡◌, ◌⊎◌, ◌≢◌, refl, String, true, false, some, List, [], ◌∷◌, ◌++◌,
}
use fde_assessment.Base.Int.{pos}
use fde_assessment.Base.Samples.{latin1}
use fde_assessment.Json.{Json, Fields, int, bool, str, arr, obj, nil, cons, end, field, put}
use fde_assessment.Router.Limiter.{
  Table, Limits, evict, eviction_batch, usage, try_reserve, reserve_transaction, sum_where,
  insert_row, settle, charge_for,
}
use fde_assessment.Router.Tokens.{
  estimate_request_tokens, items_length, positive_int, actual_tokens_from_response,
}
use fde_assessment.Gateway.Auth.{partition_blank}
use fde_assessment.Base.Unicode.{isdigit, read_number}
use fde_assessment.Router.Tokens.Samples.{plain}
use fde_assessment.Router.Providers.{ProviderConfig, response, call_provider, parsed}
use fde_assessment.Router.Route.{World, route}
use fde_assessment.Router.Route.Ledger.{charged_row}
use fde_assessment.Router.App.{
  Web, HttpRequest, returned, refused, page, Completed, completions, answer, limit_key_for,
  api_key_of, limit_key, bad_field, present,
}
use fde_assessment.Router.App.Keys.{limit_key_for_separates}
use fde_assessment.Router.App.Admitted.{IsAdmitted, IsRefusal, completions_routes-IsAdmitted}
use fde_assessment.Router.App.Served.{
  AreShown, reported_total, page_reports_the_charge, completions_isolates,
}
use fde_assessment.Router.App.Answers.{IsAnswer, answer-IsAnswer}

abbrev Flt : Type 0
Flt = Unit {0}

abbrev api_keys : List (String × String)
api_keys = ("k1", "acme") ∷ ("k2", "globex") ∷ []

abbrev body : Fields Flt
body = field "messages" (arr (cons (str "hi") nil)) (field "max_tokens" (int (pos 5)) end)

abbrev streaming : Fields Flt
streaming = field "messages" (arr (cons (str "hi") nil)) (field "stream" (bool true) end)

-- the length of the bytes stands for the body
abbrev parse : List ℕ → Json Flt
parse [] = arr nil
parse (_ ∷ []) = obj body
parse (_ ∷ _ ∷ _) = obj streaming

abbrev web : Web Flt
web = record { loads = λ raw. some (parse raw); is_zero = λ x. true; can_render = λ p. true }

abbrev request : List ℕ → HttpRequest
request raw = record {
  authorization = "bearer k1";
  content_length = some "1";
  chunks = raw ∷ [];
  disconnects = false;
}

abbrev provider : ProviderConfig
provider = record {
  name = "primary";
  url = "http://a";
  model = "large";
  api_key = "secret";
  timeout_ms = 3000;
  priority = pos 0;
}

-- the provider says more than a client may see, and reports a usage of 12
abbrev reply : Fields Flt
reply = field "id" (str "x") (
    field "error" (str "/srv/app")
      (field "usage" (obj (field "total_tokens" (int (pos 12)) end)) end))

abbrev world : World Flt
world = record {
  request_id = "r1";
  now = 1000;
  later = 1001;
  settle_clock = 1040;
  fresh = 9;
  calls =
      record { provider = provider; duration = 40; reply = response 200 "" (parsed (obj reply)) }
      ∷ [];
  cancelled_reserving = false;
  cancelled_settling = false;
}

abbrev limits : Limits
limits = record { default_limit = 1000; window_ms = 60 }

abbrev rows : Table
rows =
    record { id = 1; tenant_key = "globex:k2"; created_ms = 960; tokens = 70; settled = true } ∷ []

abbrev run : HttpRequest → Completed Flt
run req = completions web latin1 api_keys 100 plain 4096 limits world req rows

abbrev shown : Fields Flt
shown = field "id" (str "x") (
    field "usage" (obj (field "total_tokens" (int (pos 12)) end)) (
      field "gateway"
        (obj (
          field "request_id" (str "r1") (
            field "served_by" (str "primary") (
              field "attempts"
                (arr (
                  cons (obj (field "provider" (str "primary") (field "outcome" (str "ok") end)))
                    nil))
                (field "tokens_charged" (int (pos 12)) end)))))
        end))

-- the provider's text under `error` is not relayed
served_test : (run (request (0 ∷ []))).end ≡ returned (page "r1" shown)
unfolding completions partition_blank isdigit read_number try_reserve reserve_transaction sum_where
    evict estimate_request_tokens items_length positive_int insert_row call_provider put settle
    charge_for actual_tokens_from_response
served_test = refl

streaming_test : (run (request (0 ∷ 0 ∷ []))).end ≡ refused (bad_field "r1" "stream")
unfolding completions partition_blank isdigit read_number
streaming_test = refl

-- a tenant's name with a colon can make two keys share a budget
collision_test : limit_key "a:b" "c" ≡ limit_key "a" "b:c"
unfolding limit_key
collision_test = refl

completions_routes-IsAdmitted_example :
    let req = request (0 ∷ []) in
    ((key : String) × (fs : Fields Flt) × IsAdmitted web latin1 api_keys 100 req key fs
      × (let routed = route latin1 4096 limits world plain key fs rows in
          ((run req).end ≡ present web routed.end)
          × ((run req).rows ≡ routed.rows)
          × ((run req).sent ≡ routed.sent)))
    ⊎ (IsRefusal "r1" (run req).end × ((run req).rows ≡ rows) × ((run req).sent ≡ []))
completions_routes-IsAdmitted_example =
    completions_routes-IsAdmitted web latin1 api_keys 100 plain 4096 limits world (request (0 ∷ []))
      rows

page_reports_the_charge_example :
    AreShown shown
    × ((key : String) × (estimated : ℕ) × (charged : ℕ) × (reported_total shown
          ≡ some (int (pos charged)))
        × (limit_key_for latin1 api_keys "bearer k1" ≡ some key)
        × ((run (request (0 ∷ []))).rows
            ≡ evict (1000 - 60) eviction_batch rows
              ++ charged_row 1000 9 key estimated charged ∷ []))
page_reports_the_charge_example =
    page_reports_the_charge web latin1 api_keys 100 plain 4096 limits world (request (0 ∷ [])) rows
      "r1" shown refl served_test

limit_key_for_test : limit_key_for latin1 api_keys "bearer k1" ≡ some "acme:k1"
unfolding limit_key_for partition_blank
limit_key_for_test = refl

not_the_other : limit_key_for latin1 api_keys "bearer k1" ≢ some "globex:k2"
not_the_other e = absurd (cc limit_key_for_test)

completions_isolates_example :
    usage limits 1000 "globex:k2" (run (request (0 ∷ []))).rows ≡ usage limits 1000 "globex:k2" rows
completions_isolates_example =
    completions_isolates web latin1 api_keys 100 plain 4096 limits world (request (0 ∷ [])) rows
      "globex:k2" refl not_the_other

limit_key_for_separates_example : api_key_of latin1 "bearer k1" ≡ api_key_of latin1 "bearer k1"
limit_key_for_separates_example =
    limit_key_for_separates latin1 api_keys "bearer k1" "bearer k1" "acme:k1"
      ((refl, (refl, (refl, (refl, tt)))), ((refl, (refl, (refl, (refl, (refl, (refl, tt)))))), tt))
      limit_key_for_test limit_key_for_test

answer-IsAnswer_example :
    IsAnswer "r1" (answer web latin1 api_keys 100 plain 4096 limits world (request (0 ∷ [])) rows)
answer-IsAnswer_example =
    answer-IsAnswer web latin1 api_keys 100 plain 4096 limits world (request (0 ∷ [])) rows
