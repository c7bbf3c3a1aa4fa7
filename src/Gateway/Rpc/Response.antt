-- ===== src/Gateway/Rpc/Response.antt =====
-- What a JSON-RPC response is, and that `_invalid_response` of task2_mcp_gateway/gateway.py finds
-- nothing wrong with nothing else.
use fde_assessment.Base.{
  ◌≡◌, ◌⊎◌, refl, ap, Bool, true, false, not, ◌&&◌, ◌||◌, Option, none, some, arith, inl, inr,
  is_some, eq_iff,
}
use fde_assessment.Base.Int.{pos, int_eq_sound}
use fde_assessment.Json.{Json, Fields, null, bool, int, float, str, arr, obj, get}
use fde_assessment.Gateway.Rpc.{
  Floats, extract_id, id_of, is_valid_response, py_eq, has_text, or_null, is_object, differ,
}

module _ {F : Type 0} where
  -- the id that an answer to a request is to have: its own, if that is a text or a number, or null
  abbrev pub answer_id : Option (Json F) → Json F
  answer_id (some (str s)) = str s
  answer_id (some (int n)) = int n
  answer_id (some (float x)) = float x
  answer_id none = null
  answer_id (some null) = null
  answer_id (some (bool b)) = null
  answer_id (some (arr xs)) = null
  answer_id (some (obj fs)) = null

  id_of-answer_id : (v : Option (Json F)) → id_of v ≡ answer_id v
  unfolding id_of
  id_of-answer_id none = refl
  id_of-answer_id (some null) = refl
  id_of-answer_id (some (bool b)) = refl
  id_of-answer_id (some (int n)) = refl
  id_of-answer_id (some (float x)) = refl
  id_of-answer_id (some (str s)) = refl
  id_of-answer_id (some (arr xs)) = refl
  id_of-answer_id (some (obj fs)) = refl

  pub extract_id-answer_id :
      (message : Fields F) → extract_id (obj message) ≡ answer_id (get "id" message)
  unfolding extract_id
  extract_id-answer_id message = id_of-answer_id (get "id" message)

module _ {F : Type 0} (fl : Floats F) where
  -- the first value is an id that Python's `==` takes for the second: a bool is an int, and a float
  -- is compared by its value
  abbrev pub IsSameId : Json F → Json F → Type 0
  IsSameId null null = Unit
  IsSameId (str s) (str t) = s ≡ t
  IsSameId (int m) (int n) = m ≡ n
  IsSameId (bool true) (int n) = pos 1 ≡ n
  IsSameId (bool false) (int n) = pos 0 ≡ n
  IsSameId (float x) (int n) = fl.eq_int x n ≡ true
  IsSameId (int m) (float y) = fl.eq_int y m ≡ true
  IsSameId (bool true) (float y) = fl.eq_int y (pos 1) ≡ true
  IsSameId (bool false) (float y) = fl.eq_int y (pos 0) ≡ true
  IsSameId (float x) (float y) = fl.eq x y ≡ true
  IsSameId _ _ = ⊥

  -- a JSON-RPC 2.0 response under an id: a result or an error object, not both; an absent id counts
  -- as null
  pub record IsResponse (expected : Json F) (payload : Fields F) : Type 0 where
    pub version : get "jsonrpc" payload ≡ some (str "2.0")
    pub outcome :
        ((v : Json F) × (get "result" payload ≡ some v) × (get "error" payload ≡ none))
        ⊎ ((e : Fields F) × (get "error" payload ≡ some (obj e)) × (get "result" payload ≡ none))
    pub id : IsSameId (or_null fl (get "id" payload)) expected

  py_eq-IsSameId : (a b : Json F) → py_eq fl a b ≡ true → IsSameId a b
  unfolding py_eq
  py_eq-IsSameId null null e = tt
  py_eq-IsSameId (str s) (str t) e = (eq_iff s t).0 e
  py_eq-IsSameId (int m) (int n) e = int_eq_sound m n e
  py_eq-IsSameId (bool true) (int n) e = int_eq_sound (pos 1) n e
  py_eq-IsSameId (bool false) (int n) e = int_eq_sound (pos 0) n e
  py_eq-IsSameId (float x) (int n) e = e
  py_eq-IsSameId (int m) (float y) e = e
  py_eq-IsSameId (bool true) (float y) e = e
  py_eq-IsSameId (bool false) (float y) e = e
  py_eq-IsSameId (float x) (float y) e = e
  py_eq-IsSameId _ _ e = absurd (cc)

  has_text-some : (v : Option (Json F)) → has_text "2.0" v ≡ true → v ≡ some (str "2.0")
  unfolding has_text
  has_text-some (some (str t)) e = ap (λ s. some (str s)) ((eq_iff t "2.0").0 e)
  has_text-some _ e = absurd (cc)

  is_object-some :
      (v : Option (Json F)) → is_object fl v ≡ true → (fs : Fields F) × (v ≡ some (obj fs))
  is_object-some (some (obj fs)) e = (fs, refl)
  is_object-some _ e = absurd (cc)

  -- one of the two, and an error is an object
  outcome_of :
      (result error : Option (Json F))
      → differ fl (is_some result) (is_some error) ≡ true
      → (not (is_some error) || is_object fl error) ≡ true
      → ((v : Json F) × (result ≡ some v) × (error ≡ none))
        ⊎ ((e : Fields F) × (error ≡ some (obj e)) × (result ≡ none))
  outcome_of (some v) none one shaped = inl (v, refl, refl)
  outcome_of none (some e) one shaped =
      let (fs, same) = is_object-some (some e) shaped in inr (fs, same, refl)
  outcome_of (some v) (some e) one shaped = absurd (cc)
  outcome_of none none one shaped = absurd (cc)

  and_four :
      (a b c d : Bool)
      → (a && b && c && d) ≡ true
      → (a ≡ true) × (b ≡ true) × (c ≡ true) × (d ≡ true)
  and_four a b c d h = (ground arith, ground arith, ground arith, ground arith)

  pub is_valid_response-IsResponse :
      (expected : Json F) (payload : Fields F)
      → is_valid_response fl (obj payload) expected ≡ true
      → IsResponse expected payload
  unfolding is_valid_response
  is_valid_response-IsResponse expected payload valid =
      let error = get "error" payload in
      let (version, one, shaped, same) =
        and_four (has_text "2.0" (get "jsonrpc" payload))
          (differ fl (is_some (get "result" payload)) (is_some error))
          (not (is_some error) || is_object fl error)
          (py_eq fl (or_null fl (get "id" payload)) expected) valid in
      record {
        version = has_text-some (get "jsonrpc" payload) version;
        outcome = outcome_of (get "result" payload) error one shaped;
        id = py_eq-IsSameId (or_null fl (get "id" payload)) expected same;
      }
