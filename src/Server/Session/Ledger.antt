-- ===== src/Server/Session/Ledger.antt =====
-- That each request is answered as often as it came, no more and, once idle, no less: the drain of
-- task1_mcp_server/server.py.
use mathlib.Core.Option.{none-ne-some, some-injective}
use fde_assessment.Base.{
  ℕ, ◌+◌, ◌≡◌, inl, inr, refl, sym, ap, ◌∙◌, subst, true, false, String, Option, none, some, List,
  [], ◌∷◌, ◌++◌, arith, Bool-cases, Option-cases,
}
use text.Mathlib.Text.{◌==◌ as str_eq}
use fde_assessment.Json.{Json, Fields}
use fde_assessment.Server.Frames.{
  RequestId, Details, Frame, Message, unparsed, request, notification, client_reply, reply, failure,
  note, error_for_payload, carries_id, rejected_id, normalise_error_detail,
  tools_call_envelope_error,
}
use fde_assessment.Server.Drain.{get_count, is_empty, wait_idle}
use fde_assessment.Server.Session.{
  Lines, Session, untracked_send, frame_id, credit, envelope_failure, tracked_send, forward,
  refusal_of, refuse, pump_message, Act, answer, announce, Run, start, arrive, act,
}
use fde_assessment.Server.Session.Counted.{
  answers-append, answers_one-normalise, occurs-append, tally-one_if, one_if_self,
  dispatched-IsTracked, answered-IsTracked, same_key, tally, answers_one, answers, echoed, owed_one,
  owed, occurs, IsTracked,
}

module _ {F : Type 0} (lines : Lines F) where
  -- what was answered and what is in hand is what was owed
  abbrev pub IsSettled : List (String × Message F) → List (Frame F) → List RequestId → Type 0
  IsSettled log wire handling =
      (k : Option RequestId) → answers k wire + occurs k handling ≡ owed lines k log

  abbrev pub IsBalanced : List (String × Message F) → Session F → Type 0
  IsBalanced log s = IsTracked s.tracker s.handling × IsSettled log s.wire s.handling

  untracked_send-IsBalanced :
      (log : List (String × Message F)) (m : String × Message F) (f : Frame F) (s : Session F)
      → ((k : Option RequestId) → answers_one k f ≡ owed_one lines k m)
      → IsBalanced log s
      → IsBalanced (m ∷ log) (untracked_send f s)
  untracked_send-IsBalanced log m f s same h =
      (h.0, λ k. omega (arith, h.1 k, same k, answers-append k s.wire (f ∷ [])))

  error_for_payload-answers_one :
      (k : Option RequestId) (payload : Option (Json F))
      → answers_one k (error_for_payload payload) ≡ tally (same_key (echoed payload) k)
  error_for_payload-answers_one k (some Json.null) = refl
  error_for_payload-answers_one k _ = refl

  refuse-answers_one :
      (id : RequestId) (found : Option Details) (f : Frame F)
      → refuse id found ≡ some f
      → (k : Option RequestId) → answers_one k f ≡ tally (same_key (some id) k)
  refuse-answers_one id none f refused = absurd (none-ne-some f refused)
  refuse-answers_one id (some details) f refused =
      subst (λ f. (k : Option RequestId) → answers_one k f ≡ tally (same_key (some id) k))
        (some-injective (envelope_failure id details) f refused) (λ k. refl)

  -- a frame that carries an id answers it
  frame_id-answers_one :
      (f : Frame F) (id : RequestId)
      → frame_id f ≡ some id
      → (k : Option RequestId) → answers_one k f ≡ tally (same_key (some id) k)
  frame_id-answers_one (reply j value) id names k = ap (λ o. tally (same_key o k)) names
  frame_id-answers_one (failure j code message detail) id names k =
      ap (λ o. tally (same_key o k)) names
  frame_id-answers_one (note method) id names k = absurd (none-ne-some id names)

  refusal_of-answers_one :
      (id : RequestId) (method : String) (params : Option (Fields F)) (f : Frame F)
      → refusal_of id method params ≡ some f
      → (k : Option RequestId) → answers_one k f ≡ tally (same_key (some id) k)
  unfolding refusal_of
  refusal_of-answers_one id method params f refused =
      elim (Bool-cases (str_eq method "tools/call")) [
        | inl call ↦
            refuse-answers_one id (tools_call_envelope_error params) f
              (rw (call, refusal_of) at refused)
        | inr other ↦ absurd (none-ne-some f (rw (other, refusal_of) at refused))
      ]

  pump_message-IsBalanced :
      (log : List (String × Message F)) (line : String) (m : Message F) (s : Session F)
      → IsBalanced log s
      → IsBalanced ((line, m) ∷ log) (pump_message lines line m s)
  unfolding pump_message forward
  pump_message-IsBalanced log line unparsed s h = elim (Bool-cases (lines.is_blank line)) [
    | inl blank ↦ rw blank (h.0, λ k. omega (arith, h.1 k))
    | inr filled ↦
        let f : Frame F = error_for_payload (lines.loads line) in
        rw filled (
          h.0,
          λ k. omega (
            arith,
            h.1 k,
            error_for_payload-answers_one k (lines.loads line),
            answers-append k s.wire (f ∷ []),
          ),
        )
  ]
  pump_message-IsBalanced log line (request id method params) s h =
      elim (Option-cases (refusal_of id method params)) [
        | inl passed ↦ rw passed (
          dispatched-IsTracked id s.tracker s.handling h.0,
          λ k. omega (arith, h.1 k, occurs-append k s.handling (id ∷ [])),
        )
        | inr (f, refused) ↦ rw refused (
          h.0,
          λ k. omega (
            arith,
            h.1 k,
            refusal_of-answers_one id method params f refused k,
            answers-append k s.wire (f ∷ []),
          ),
        )
      ]
  pump_message-IsBalanced log line (notification method params) s h =
      elim (Bool-cases (carries_id (lines.loads line))) [
        | inl bad ↦
            let f : Frame F = rejected_id in
            rw bad (h.0, λ k. omega (arith, h.1 k, answers-append k s.wire (f ∷ [])))
        | inr proper ↦ rw proper (h.0, λ k. omega (arith, h.1 k))
      ]
  pump_message-IsBalanced log line (client_reply id) s h = (h.0, λ k. omega (arith, h.1 k))

  Act-IsBalanced :
      (log : List (String × Message F)) (s t : Session F)
      → Act lines s t
      → IsBalanced log s
      → IsBalanced log t
  unfolding tracked_send
  Act-IsBalanced log s t (answer front back id f here names e) h =
      let before' = subst (λ ids. IsTracked s.tracker ids × IsSettled log s.wire ids) here h in
      subst (IsBalanced log) (sym e) (
        subst (λ o. IsTracked (credit o s.tracker) (front ++ back)) (sym names)
            (answered-IsTracked id s.tracker front back before'.0),
        λ k. omega (
          arith,
          before'.1 k,
          answers_one-normalise k f,
          frame_id-answers_one f id names k,
          answers-append k s.wire (normalise_error_detail f ∷ []),
          occurs-append k front (id ∷ back),
          occurs-append k front back,
        ),
      )
  Act-IsBalanced log s t (announce method e) h =
      let f : Frame F = normalise_error_detail (note method) in
      subst (IsBalanced log) (sym e) (
        h.0,
        λ k.
            omega (
              arith,
              h.1 k,
              answers_one-normalise k (note method),
              answers-append k s.wire (f ∷ []),
            ),
      )

  Run-IsBalanced :
      {log : List (String × Message F)} {s : Session F} → Run lines log s → IsBalanced log s
  Run-IsBalanced start =
      (record { counter = tt; counted = λ k. refl; settled = refl }, λ k. omega arith)
  Run-IsBalanced (arrive {log} {s} line m run) =
      pump_message-IsBalanced log line m s (Run-IsBalanced run)
  Run-IsBalanced (act {log} {s} {t} run step) = Act-IsBalanced log s t step (Run-IsBalanced run)

  none_in_hand : (ids : List RequestId) → ((id : RequestId) → occurs (some id) ids ≡ 0) → ids ≡ []
  none_in_hand [] h = refl
  none_in_hand (id ∷ ids) h = absurd (omega (arith, h id, tally-one_if id id, one_if_self id))

  empty_counts :
      (m : List (RequestId × ℕ)) → is_empty m ≡ true → (k : RequestId) → get_count k m ≡ 0
  empty_counts [] h k = refl
  empty_counts (e ∷ m) h k = absurd (ground (arith, h))

  -- Whatever lines come and in whatever order the server answers: for each id, and for the null that
  -- stands for none, the answers written and the requests in hand are together as many as the messages
  -- called for, a refusal by the pump included, also where ids are used twice. The tracker counts for
  -- each id just the requests in hand, and is idle only if none is.
  pub Run-ledger :
      {log : List (String × Message F)} {s : Session F}
      → Run lines log s
      → ((k : Option RequestId) → answers k s.wire + occurs k s.handling ≡ owed lines k log)
        × ((k : RequestId) → get_count k s.tracker.pending ≡ occurs (some k) s.handling)
        × (s.tracker.idle ≡ true → s.handling ≡ [])
  Run-ledger {log} {s} run =
      let h = Run-IsBalanced run in
      (
        h.1,
        h.0.counted,
        λ idle. none_in_hand s.handling (λ id.
            sym (h.0.counted id) ∙ empty_counts s.tracker.pending (sym h.0.settled ∙ idle) id),
      )

  -- When the wait of the drain ends and the timeout has not won, each message that called for an
  -- answer has had it, and exactly once: no request that the server took is left without one.
  pub drained_answers_each :
      {log : List (String × Message F)} {s : Session F}
      → Run lines log s
      → wait_idle s.tracker false ≡ true
      → (k : Option RequestId) → answers k s.wire ≡ owed lines k log
  unfolding wait_idle
  drained_answers_each {log} {s} run drained k =
      let (owed_all, counted, idle_none) = Run-ledger run in
      let idle : s.tracker.idle ≡ true = elim (Bool-cases (is_empty s.tracker.pending)) [
        | inl none_left ↦ (Run-IsBalanced run).0.settled ∙ none_left
        | inr some_left ↦ rw some_left at drained
      ] in
      let no_more : occurs k s.handling ≡ 0 = ap (occurs k) (idle_none idle) in
      omega (arith, owed_all k, no_more)
