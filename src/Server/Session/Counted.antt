-- ===== src/Server/Session/Counted.antt =====
-- How often the lines of a session call for an answer and how often its wire gives one, and the count
-- that the tracker keeps: task1_mcp_server/server.py.
use fde_assessment.Base.{
  ℕ, ◌+◌, ◌<◌, ◌≡◌, inl, inr, refl, sym, ap, ◌∙◌, Bool, true, false, String, Option, none, some,
  List, [], ◌∷◌, ◌++◌, if◌then◌else◌, lt→ltb, arith, Bool-cases, ◌||◌,
}
use fde_assessment.Json.{Json, Fields}
use fde_assessment.Json
use fde_assessment.Server.Frames.{
  RequestId, id_eq, Frame, Message, unparsed, request, notification, client_reply, reply, failure,
  note, carries_id, normalise_error_detail, usable_id,
}
use fde_assessment.Server.Drain.{
  Tracker, get_count, increment, decrement, is_empty, dispatched, answered,
}
use fde_assessment.Server.Drain.Counts.{
  id_eq_refl, one_if, IsCounter, get_count-increment, increment-IsCounter, get_count-decrement,
  decrement-IsCounter,
}
use fde_assessment.Server.Session.{Lines}

-- a client's id, or the null that stands where none can be told
abbrev pub same_key : Option RequestId → Option RequestId → Bool
same_key none none = true
same_key (some j) (some k) = id_eq j k
same_key _ _ = false

abbrev pub tally : Bool → ℕ
tally true = 1
tally false = 0

module _ {F : Type 0} where
  -- how often the wire answers a key: results and errors count, notes do not
  abbrev pub answers_one : Option RequestId → Frame F → ℕ
  answers_one k (reply id value) = tally (same_key (some id) k)
  answers_one k (failure id code message detail) = tally (same_key id k)
  answers_one k (note method) = 0

  abbrev pub answers : Option RequestId → List (Frame F) → ℕ
  answers k [] = 0
  answers k (f ∷ fs) = answers_one k f + answers k fs

  pub answers-append :
      (k : Option RequestId) (fs gs : List (Frame F))
      → answers k (fs ++ gs) ≡ answers k fs + answers k gs
  answers-append k [] gs = omega arith
  answers-append k (f ∷ fs) gs = omega (arith, answers-append k fs gs)

  pub answers_one-normalise :
      (k : Option RequestId) (f : Frame F)
      → answers_one k (normalise_error_detail f) ≡ answers_one k f
  unfolding normalise_error_detail
  answers_one-normalise k (reply id value) = refl
  answers_one-normalise k (failure id code message detail) = refl
  answers_one-normalise k (note method) = refl

  -- the id that an answer to a line that was not accepted must carry: that of an object's field `id`
  abbrev pub echoed : Option (Json F) → Option RequestId
  echoed (some (Json.obj fields)) = usable_id (Json.get "id" fields)
  echoed _ = none

module _ {F : Type 0} (lines : Lines F) where
  -- the answers that a message calls for, by key: one for a request under its id, one for a line that is
  -- not blank and not accepted, and one without an id for a notification whose line has one
  abbrev pub owed_one : Option RequestId → String × Message F → ℕ
  owed_one k (line, unparsed) =
      if lines.is_blank line then 0 else tally (same_key (echoed (lines.loads line)) k)
  owed_one k (line, request id method params) = tally (same_key (some id) k)
  owed_one k (line, notification method params) =
      if carries_id (lines.loads line) then tally (same_key none k) else 0
  owed_one k (line, client_reply id) = 0

  abbrev pub owed : Option RequestId → List (String × Message F) → ℕ
  owed k [] = 0
  owed k (m ∷ log) = owed_one k m + owed k log

abbrev pub occurs : Option RequestId → List RequestId → ℕ
occurs k [] = 0
occurs k (id ∷ ids) = tally (same_key (some id) k) + occurs k ids

pub occurs-append :
    (k : Option RequestId) (xs ys : List RequestId)
    → occurs k (xs ++ ys) ≡ occurs k xs + occurs k ys
occurs-append k [] ys = omega arith
occurs-append k (x ∷ xs) ys = omega (arith, occurs-append k xs ys)

pub tally-one_if : (id k : RequestId) → tally (same_key (some id) (some k)) ≡ one_if id k
tally-one_if id k = elim (Bool-cases (id_eq id k)) [
  | inl same ↦ rw same refl
  | inr other ↦ rw other refl
]

pub one_if_self : (id : RequestId) → one_if id id ≡ 1
one_if_self id = rw (id_eq_refl id) refl

-- the tracker counts what is in hand, and what was owed is answered or in hand
pub record IsTracked (t : Tracker) (handling : List RequestId) : Type 0 where
  pub counter : IsCounter t.pending
  pub counted : (k : RequestId) → get_count k t.pending ≡ occurs (some k) handling
  pub settled : t.idle ≡ is_empty t.pending

pub increment_filled : (k : RequestId) (m : List (RequestId × ℕ)) → is_empty (increment k m) ≡ false
unfolding increment
increment_filled k [] = refl
increment_filled k ((j, n) ∷ rest) = elim (Bool-cases (id_eq j k)) [
  | inl same ↦ rw same refl
  | inr other ↦ rw other refl
]

pub counted_filled :
    (k : RequestId) (m : List (RequestId × ℕ)) → 0 < get_count k m → is_empty m ≡ false
counted_filled k [] h = absurd (omega arith)
counted_filled k (e ∷ rest) h = refl

pub or_false : (b : Bool) → (b || false) ≡ b
or_false true = refl
or_false false = refl

pub dispatched-IsTracked :
    (id : RequestId) (t : Tracker) (handling : List RequestId)
    → IsTracked t handling
    → IsTracked (dispatched id t) (handling ++ id ∷ [])
unfolding dispatched
dispatched-IsTracked id t handling h = record {
  counter = increment-IsCounter id t.pending h.counter;
  counted = λ k. omega (
    arith,
    get_count-increment id k t.pending,
    h.counted k,
    tally-one_if id k,
    occurs-append (some k) handling (id ∷ []),
  );
  settled = sym (increment_filled id t.pending);
}

pub answered-IsTracked :
    (id : RequestId) (t : Tracker) (front back : List RequestId)
    → IsTracked t (front ++ id ∷ back)
    → IsTracked (answered id t) (front ++ back)
unfolding answered
answered-IsTracked id t front back h =
    let here : 0 < get_count id t.pending = omega (
      arith,
      h.counted id,
      occurs-append (some id) front (id ∷ back),
      tally-one_if id id,
      one_if_self id,
    ) in
    rw (lt→ltb 0 (get_count id t.pending) here) (record {
      counter = decrement-IsCounter id t.pending h.counter here;
      counted = λ k. omega (
        arith,
        get_count-decrement id k t.pending h.counter here,
        h.counted k,
        tally-one_if id k,
        occurs-append (some k) front (id ∷ back),
        occurs-append (some k) front back,
      );
      settled =
          ap (λ b. is_empty (decrement id t.pending) || b)
            (h.settled ∙ counted_filled id t.pending here)
          ∙ or_false (is_empty (decrement id t.pending));
    })
