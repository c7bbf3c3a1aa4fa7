-- ===== src/Router/App/Served.antt =====
-- What the client of the router is shown: the payload and the exception handlers of
-- task4_model_router/app.py.
use text.Mathlib.Text.{◌==◌ as str_eq}
use fde_assessment.Base.{
  ℕ, ◌-◌, String, ◌≡◌, ◌⊎◌, ◌≢◌, inl, inr, refl, sym, ap, ◌∙◌, subst, Bool, true, false, Option,
  none, some, List, [], ◌∷◌, ◌++◌, arith, Bool-cases, eq_iff,
}
use fde_assessment.Base.Int.{pos}
use fde_assessment.Base.Unicode.{Unicode}
use fde_assessment.Json.{Json, Fields, int, obj, end, field, get, put, get-put}
use fde_assessment.Router.Limiter.{Table, Limits, evict, eviction_batch, has_id, usage, sum_where}
use fde_assessment.Router.Limiter.Usage.{sum_where-append}
use fde_assessment.Router.Limiter.Reserve.{used_now-evicted}
use fde_assessment.Router.Tokens.{Runtime, estimate_request_tokens}
use fde_assessment.Router.Route.{
  World, RouteResult, RouteEnd, served, raised, cancelled, crashed, route,
}
use fde_assessment.Router.Route.Ledger.{charged_row, billed_rows, bill, route_ledger, served_charge}
use fde_assessment.Router.App.{
  Web, HttpRequest, Ended, returned, page, Completed, present, completions, limit_key_for,
}
use fde_assessment.Router.Page.{is_relayed, relayed_fields, usage_of, page_of}
use fde_assessment.Router.App.Admitted.{IsRefusal, completions_routes-IsAdmitted}

-- every key of the payload may be shown, or is the router's own
abbrev pub AreShown : {F : Type 0} → Fields F → Type 0
AreShown end = Unit
AreShown (field k v fs) = ((is_relayed k ≡ true) ⊎ (k ≡ "gateway")) × AreShown fs

module _ {F : Type 0} where
  relayed_fields-AreShown : (fs : Fields F) → AreShown (relayed_fields fs)
  unfolding relayed_fields
  relayed_fields-AreShown end = tt
  relayed_fields-AreShown (field k v fs) = elim (Bool-cases (is_relayed k)) [
    | inl shown ↦ rw (shown, AreShown) (inl shown, relayed_fields-AreShown fs)
    | inr hidden ↦ rw hidden (relayed_fields-AreShown fs)
  ]

  put-AreShown :
      (k : String) (v : Json F) (fs : Fields F)
      → (is_relayed k ≡ true) ⊎ (k ≡ "gateway")
      → AreShown fs
      → AreShown (put k v fs)
  unfolding put
  put-AreShown k v end may rest = (may, tt)
  put-AreShown k v (field j w fs) may rest = elim (Bool-cases (str_eq j k)) [
    | inl here ↦ rw (here, AreShown) (rest.0, rest.1)
    | inr there ↦ rw (there, AreShown) (rest.0, put-AreShown k v fs may rest.1)
  ]

  pub page_of-AreShown : (res : RouteResult F) → AreShown (page_of res)
  unfolding page_of
  page_of-AreShown res =
      put-AreShown _ _ _ (inr refl)
        (put-AreShown _ _ _ (inl refl) (relayed_fields-AreShown res.payload))

  -- the figure that the payload's usage block gives
  abbrev pub reported_total : Fields F → Option (Json F)
  reported_total fs = get "total_tokens" (usage_of (get "usage" fs))

  page_of-reported_total :
      (res : RouteResult F) → reported_total (page_of res) ≡ some (int (pos res.tokens_charged))
  unfolding page_of usage_of
  page_of-reported_total res =
      let payload = relayed_fields res.payload in
      let total = int (pos res.tokens_charged) in
      let used = put "total_tokens" total (usage_of (get "usage" payload)) in
      rw (get-put "gateway" "usage" _ (put "usage" (obj used) payload)) (
        rw (get-put "usage" "usage" (obj used) payload)
          (get-put "total_tokens" "total_tokens" total (usage_of (get "usage" payload))))

abbrev is_page : {F : Type 0} → Ended F → Bool
is_page (returned (page rid shown)) = true
is_page _ = false

abbrev payload_shown : {F : Type 0} → Ended F → Fields F
payload_shown (returned (page rid shown)) = shown
payload_shown _ = end

module _ {F : Type 0} (web : Web F) where
  present-page :
      (how : RouteEnd F) (request_id : String) (shown : Fields F)
      → present web how ≡ returned (page request_id shown)
      → (res : RouteResult F) × (how ≡ served res) × (page_of res ≡ shown)
  unfolding present
  present-page (served res) request_id shown e = elim (Bool-cases (web.can_render (page_of res))) [
    | inl fine ↦ (res, refl, ap payload_shown (rw (fine, present) at e))
    | inr odd ↦ absurd (cc (rw (odd, present) at e))
  ]
  present-page (raised g) request_id shown e = absurd (cc)
  present-page cancelled request_id shown e = absurd (cc)
  present-page crashed request_id shown e = absurd (cc)

IsRefusal-no_page :
    {F : Type 0} {request_id : String} {how : Ended F} (rid : String) (shown : Fields F)
    → IsRefusal request_id how
    → how ≡ returned (page rid shown)
    → ⊥
IsRefusal-no_page rid shown IsRefusal.no_key e = absurd (cc)
IsRefusal-no_page rid shown IsRefusal.bad_body e = absurd (cc)
IsRefusal-no_page rid shown IsRefusal.bad_messages e = absurd (cc)
IsRefusal-no_page rid shown IsRefusal.wants_stream e = absurd (cc)
IsRefusal-no_page rid shown IsRefusal.client_left e = absurd (cc (ap is_page e))
IsRefusal-no_page rid shown IsRefusal.odd_length e = absurd (cc)

module _ {F : Type 0} (web : Web F) (u : Unicode) (api_keys : List (String × String))
    (max_request_bytes : ℕ) (rt : Runtime F) (ceiling : ℕ) (l : Limits) (w : World F)
    (req : HttpRequest) (rows : Table) where
  abbrev pub done : Completed F
  done = completions web u api_keys max_request_bytes rt ceiling l w req rows

  -- Under an unused row id: a page that a client gets shows no field but the nine allowed ones and
  -- the router's own note; the total that its usage reports is the charge on the one row that the
  -- request adds, a settled row under the caller's limit key, to those that the eviction left.
  pub page_reports_the_charge :
      (request_id : String) (shown : Fields F)
      → has_id w.fresh rows ≡ false
      → done.end ≡ returned (page request_id shown)
      → AreShown shown
        × ((key : String) × (estimated : ℕ) × (charged : ℕ) × (reported_total shown
              ≡ some (int (pos charged)))
            × (limit_key_for u api_keys req.authorization ≡ some key)
            × (done.rows
                ≡ evict (w.now - l.window_ms) eviction_batch rows
                  ++ charged_row w.now w.fresh key estimated charged ∷ []))
  unfolding route
  page_reports_the_charge request_id shown free e =
      elim (completions_routes-IsAdmitted web u api_keys max_request_bytes rt ceiling l w req
        rows) [
          | inr (refusal, _, _) ↦ absurd (IsRefusal-no_page request_id shown refusal e)
          | inl (key, body, fit, (ends, left, _)) ↦
              let estimated = estimate_request_tokens rt ceiling none body in
              let (res, ok, is_shown) =
                present-page web (route u ceiling l w rt key body rows).end request_id shown
                  (sym ends ∙ e) in
              (
                subst AreShown is_shown (page_of-AreShown res),
                (
                  key,
                  estimated,
                  res.tokens_charged,
                  subst (λ p. reported_total p ≡ some (int (pos res.tokens_charged))) is_shown
                      (page_of-reported_total res),
                  fit.owner,
                  left ∙ served_charge u ceiling l w key body estimated rows res free ok,
                ),
              )
        ]

  billed_elsewhere :
      (key other : String) (estimated : ℕ) (charge : Option ℕ)
      → key ≢ other
      → usage l w.now other (billed_rows w.now w.fresh key estimated charge) ≡ 0
  unfolding usage sum_where
  billed_elsewhere key other estimated none differs = refl
  billed_elsewhere key other estimated (some n) differs = ground (arith, eq_iff key other)

  -- Under an unused row id, however a request ends, it changes nobody's usage but that of its own
  -- caller's limit key.
  pub completions_isolates :
      (other : String)
      → has_id w.fresh rows ≡ false
      → limit_key_for u api_keys req.authorization ≢ some other
      → usage l w.now other done.rows ≡ usage l w.now other rows
  unfolding route usage
  completions_isolates other free differs =
      elim (completions_routes-IsAdmitted web u api_keys max_request_bytes rt ceiling l w req
        rows) [
          | inr (_, left, _) ↦ ap (usage l w.now other) left
          | inl (key, body, fit, (_, left, _)) ↦
              let estimated = estimate_request_tokens rt ceiling none body in
              let kept = evict (w.now - l.window_ms) eviction_batch rows in
              let own = bill u ceiling l w key body estimated rows in
              let added = billed_rows w.now w.fresh key estimated own in
              let apart =
                billed_elsewhere key other estimated own
                  (λ same. differs (fit.owner ∙ ap some same)) in
              ap (usage l w.now other)
                (left ∙ route_ledger u ceiling l w key body estimated rows free)
              ∙ (sum_where-append _ kept added
                  ∙ omega (
                    arith,
                    apart,
                    used_now-evicted l w.now w.later w.fresh key estimated rows other,
                  ))
        ]
