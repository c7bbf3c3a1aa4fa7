-- ===== src/Router/Route/Tests.antt =====
-- The router on concrete worlds, and its theorems at inputs that meet their hypotheses.
use mathlib.Core.List.{Perm}
use fde_assessment.Base.{
  ℕ, ◌+◌, ◌-◌, ◌*◌, ◌≤◌, ◌<◌, ◌≡◌, ◌⊎◌, refl, String, true, false, none, some, List, [], ◌∷◌, ◌++◌,
  any, arith, is_some,
}
use fde_assessment.Base.Int.{pos}
use fde_assessment.Base.Samples.{latin1}
use fde_assessment.Base.Unicode.{isdigit, read_number}
use fde_assessment.Json.{Fields, int, str, arr, obj, nil, cons, end, field, put}
use fde_assessment.Router.Limiter.{
  Row, Table, Limits, evict, usage, try_reserve, reserve_transaction, insert_row, retry_after,
  first_covering, earliest, sum_where, settle, charge_for, update_row,
}
use fde_assessment.Router.Errors.{
  GatewayError, Detail, detail, retry_after_header, upstream_rate_limited,
}
use fde_assessment.Router.Errors.Public.{retry_after_header_rounds_up}
use fde_assessment.Router.Providers.{
  ProviderConfig, Outcome, Reply, response, timed_out, http_error, parsed, not_json, call_provider,
  read_response, completion_caps, outgoing, is_billable, is_client_error, is_ok, sort_by_priority,
  insert_by_priority,
}
use fde_assessment.Router.Providers
use fde_assessment.Router.Providers.Outcomes.{
  payload_of, has_outcome, served_exactly, caller_error_exactly, billed_exactly,
}
use fde_assessment.Router.Providers.Order.{IsAscending, sort_by_priority_sorts}
use fde_assessment.Router.Providers.Outgoing.{sent, reserved, outgoing_uncapped}
use fde_assessment.Router.Tokens.Samples.{plain}
use fde_assessment.Router.Tokens.{positive_int, actual_tokens_from_response, reported, sane}
use fde_assessment.Router.Route.{
  Call, World, served, RouteResult, attempt_providers, conclude, proceed, route_estimated,
}
use fde_assessment.Router.Route.Ledger.{billed_rows, bill, route_ledger}
use fde_assessment.Router.Route.Failover.{decide, attempt_providers_decides}
use fde_assessment.Router.Route.Refusal.{told, retry_after_suffices, retry_after_early}

abbrev Flt : Type 0
Flt = Unit {0}

abbrev primary : ProviderConfig
primary = record {
  name = "primary";
  url = "http://a";
  model = "large";
  api_key = "k1";
  timeout_ms = 3000;
  priority = pos 0;
}

abbrev secondary : ProviderConfig
secondary = record {
  name = "secondary";
  url = "http://b";
  model = "small";
  api_key = "k2";
  timeout_ms = 5000;
  priority = pos 1;
}

abbrev reply_ok : Fields Flt
reply_ok = field "id" (str "x") (field "usage" (obj (field "total_tokens" (int (pos 12)) end)) end)

abbrev refused_reply : Reply Flt
refused_reply = response 422 "" not_json

abbrev odd_reply : Reply Flt
odd_reply = response 429 "²" not_json

abbrev calls : List (Call Flt)
calls =
    record { provider = primary; duration = 3000; reply = timed_out }
    ∷ record {
      provider = secondary;
      duration = 40;
      reply = response 200 "" (parsed (obj reply_ok));
    }
    ∷ []

abbrev failing_calls : List (Call Flt)
failing_calls =
    record { provider = primary; duration = 3000; reply = timed_out }
    ∷ record { provider = secondary; duration = 5000; reply = timed_out }
    ∷ []

abbrev world : List (Call Flt) → World Flt
world cs = record {
  request_id = "r1";
  now = 1000;
  later = 1001;
  settle_clock = 1040;
  fresh = 9;
  calls = cs;
  cancelled_reserving = false;
  cancelled_settling = false;
}

abbrev limits : Limits
limits = record { default_limit = 100; window_ms = 60 }

abbrev row : ℕ → String → ℕ → ℕ → Row
row i tenant created n = record {
  id = i;
  tenant_key = tenant;
  created_ms = created;
  tokens = n;
  settled = true;
}

abbrev rows : Table
rows = row 1 "a" 960 70 ∷ row 2 "b" 970 20 ∷ []

abbrev body : Fields Flt
body = field "messages" (arr (cons (str "hi") nil)) (field "max_tokens" (int (pos 5)) end)

abbrev result : RouteResult Flt
result = record {
  payload = reply_ok;
  provider = "secondary";
  attempts =
      record {
        provider = "primary";
        outcome = Outcome.timeout;
        status_code = none;
        duration_ms = 3000;
        retry_after_seconds = none;
      }
      ∷ record {
        provider = "secondary";
        outcome = Outcome.ok;
        status_code = some 200;
        duration_ms = 40;
        retry_after_seconds = none;
      }
      ∷ [];
  tokens_reserved = 30;
  tokens_charged = 12;
  request_id = "r1";
}

fails_over : (route_estimated latin1 4096 limits (world calls) "b" body 30 rows).end ≡ served result
unfolding route_estimated try_reserve reserve_transaction insert_row evict sum_where proceed
    attempt_providers call_provider outgoing put conclude settle charge_for update_row
    actual_tokens_from_response reported sane
fails_over = refl

route_ledger_example :
    (route_estimated latin1 4096 limits (world failing_calls) "b" body 30 rows).rows
    ≡ evict 940 1000 rows
      ++ billed_rows 1000 9 "b" 30 (bill latin1 4096 limits (world failing_calls) "b" body 30 rows)
route_ledger_example = route_ledger latin1 4096 limits (world failing_calls) "b" body 30 rows refl

attempt_providers_decides_example : (attempt_providers latin1 4096 body calls).loop ≡ decide calls
attempt_providers_decides_example = attempt_providers_decides latin1 4096 body calls

over : 100 < usage limits 1000 "a" rows + 40
unfolding usage sum_where
over = omega arith

retry_after_suffices_example :
    (s : ℕ) × (retry_after_header (told latin1 4096 limits (world calls) "a" body 40 rows) ≡ some s)
    × (usage limits (1001 + s * 1000 + 1) "a" (evict 940 1000 rows) + 40 ≤ 100)
retry_after_suffices_example =
    retry_after_suffices latin1 4096 limits (world calls) "a" body 40 rows (omega arith) over

-- a minute's window, and a row that expires a whole number of seconds after the refusal
abbrev minute : Limits
minute = record { default_limit = 100; window_ms = 60000 }

abbrev old_rows : Table
old_rows = row 1 "a" 100 70 ∷ []

abbrev minute_world : World Flt
minute_world = record {
  request_id = "r2";
  now = 40000;
  later = 40100;
  settle_clock = 40200;
  fresh = 9;
  calls = calls;
  cancelled_reserving = false;
  cancelled_settling = false;
}

retry_after_early_example :
    (retry_after_header (told latin1 4096 minute minute_world "a" body 40 old_rows) ≡ some 20)
    × (100 < usage minute 60100 "a" (evict 0 1000 old_rows) + 40)
unfolding usage sum_where retry_after first_covering earliest evict
retry_after_early_example =
    retry_after_early latin1 4096 minute minute_world "a" body 40 old_rows 20 (omega arith)
      (omega arith) (omega arith) refl

abbrev rate_limited : ℕ → GatewayError
rate_limited ms = record {
  code = upstream_rate_limited;
  request_id = "r3";
  details = ("retry_after_seconds", Detail.seconds ms) ∷ [];
}

a_served_call_test :
    let called = call_provider latin1 primary 7 (response 200 "" (parsed (obj reply_ok))) in
    (payload_of called ≡ some reply_ok) × (has_outcome is_ok called ≡ true)
a_served_call_test = served_exactly latin1 primary 7 (response 200 "" (parsed (obj reply_ok)))

a_caller_error_test :
    has_outcome is_client_error (call_provider latin1 primary 7 refused_reply) ≡ true
a_caller_error_test = caller_error_exactly latin1 primary 7 refused_reply

-- a superscript two passes `isdigit`, and `float` refuses it
billed_exactly_example : has_outcome is_billable (call_provider latin1 primary 7 odd_reply) ≡ true
unfolding Providers.retry_after isdigit read_number
billed_exactly_example = billed_exactly latin1 primary 7 odd_reply

two_sorted_test :
    Perm (sort_by_priority (secondary ∷ primary ∷ [])) (secondary ∷ primary ∷ [])
    × IsAscending (sort_by_priority (secondary ∷ primary ∷ []))
two_sorted_test = sort_by_priority_sorts (secondary ∷ primary ∷ [])

a_rounded_hint_test :
    (s : ℕ) × (retry_after_header (rate_limited 20001) ≡ some s)
    × (1 ≤ s)
    × (20001 ≤ s * 1000)
    × ((s ≡ 1) ⊎ ((s - 1) * 1000 < 20001))
unfolding detail
a_rounded_hint_test = retry_after_header_rounds_up (rate_limited 20001) 20001 refl

-- a cap of 0
abbrev zero_cap : Fields Flt
zero_cap = field "max_tokens" (int (pos 0)) end

outgoing_uncapped_example :
    (any (λ cap. is_some (sent plain 4096 primary zero_cap cap)) completion_caps ≡ false)
    × (reserved plain 4096 primary zero_cap ≡ 4096)
unfolding positive_int
outgoing_uncapped_example = outgoing_uncapped plain 4096 primary zero_cap refl refl
