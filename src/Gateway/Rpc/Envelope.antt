-- ===== src/Gateway/Rpc/Envelope.antt =====
-- What passes for a JSON-RPC message: `validate_envelope` of task2_mcp_gateway/gateway.py.
use text.Mathlib.Text.{◌==◌ as str_eq}
use fde_assessment.Base.{
  String, ◌≡◌, ◌≢◌, ◌↔◌, refl, true, false, Option, none, some, arith, eq_iff, Bool-cases, inl, inr,
}
use fde_assessment.Base.Int.{ℤ}
use fde_assessment.Json.{Json, Items, Fields, null, bool, int, float, str, arr, obj, get}
use fde_assessment.Gateway.Rpc.{
  has_text, is_filled_text, is_valid_id, is_null, is_invalid_id, is_params, validate_fields,
  validate_envelope,
}

module _ {F : Type 0} where
  -- an id that a request may carry, or none
  pub data IsRequestId : Option (Json F) → Type 0 where
    no_id : IsRequestId none
    text_id : (s : String) → IsRequestId (some (str s))
    int_id : (n : ℤ) → IsRequestId (some (int n))
    float_id : (x : F) → IsRequestId (some (float x))

  pub data IsStructured : Option (Json F) → Type 0 where
    no_params : IsStructured none
    null_params : IsStructured (some null)
    by_position : (xs : Items F) → IsStructured (some (arr xs))
    by_name : (fs : Fields F) → IsStructured (some (obj fs))

  -- a JSON-RPC 2.0 request or notification
  pub data IsMessage : Json F → Type 0 where
    message :
        (fields : Fields F) (method : String)
        → get "jsonrpc" fields ≡ some (str "2.0")
        → get "method" fields ≡ some (str method)
        → method ≢ ""
        → IsRequestId (get "id" fields)
        → IsStructured (get "params" fields)
        → IsMessage (obj fields)

  has_text-some : (s : String) (v : Option (Json F)) → has_text s v ≡ true → v ≡ some (str s)
  unfolding has_text
  has_text-some s (some (str t)) e = rw ((eq_iff t s).0 e)
  has_text-some s none e = absurd (cc)
  has_text-some s (some null) e = absurd (cc)
  has_text-some s (some (bool b)) e = absurd (cc)
  has_text-some s (some (int n)) e = absurd (cc)
  has_text-some s (some (float x)) e = absurd (cc)
  has_text-some s (some (arr xs)) e = absurd (cc)
  has_text-some s (some (obj fs)) e = absurd (cc)

  is_filled_text-some :
      (v : Option (Json F)) → is_filled_text v ≡ true → (t : String) × (v ≡ some (str t)) × (t ≢ "")
  unfolding is_filled_text
  is_filled_text-some (some (str t)) e = (t, refl, λ empty. absurd (ground (arith, eq_iff t "")))
  is_filled_text-some none e = absurd (cc)
  is_filled_text-some (some null) e = absurd (cc)
  is_filled_text-some (some (bool b)) e = absurd (cc)
  is_filled_text-some (some (int n)) e = absurd (cc)
  is_filled_text-some (some (float x)) e = absurd (cc)
  is_filled_text-some (some (arr xs)) e = absurd (cc)
  is_filled_text-some (some (obj fs)) e = absurd (cc)

  is_invalid_id-IsRequestId :
      (v : Option (Json F)) → is_invalid_id v ≡ false → is_null v ≡ false → IsRequestId v
  unfolding is_valid_id
  is_invalid_id-IsRequestId none e n = no_id
  is_invalid_id-IsRequestId (some (str s)) e n = text_id s
  is_invalid_id-IsRequestId (some (int k)) e n = int_id k
  is_invalid_id-IsRequestId (some (float x)) e n = float_id x
  is_invalid_id-IsRequestId (some null) e n = absurd (cc)
  is_invalid_id-IsRequestId (some (bool b)) e n = absurd (cc)
  is_invalid_id-IsRequestId (some (arr xs)) e n = absurd (cc)
  is_invalid_id-IsRequestId (some (obj fs)) e n = absurd (cc)

  is_params-IsStructured : (v : Option (Json F)) → is_params v ≡ true → IsStructured v
  unfolding is_params
  is_params-IsStructured none e = no_params
  is_params-IsStructured (some null) e = null_params
  is_params-IsStructured (some (arr xs)) e = by_position xs
  is_params-IsStructured (some (obj fs)) e = by_name fs
  is_params-IsStructured (some (bool b)) e = absurd (cc)
  is_params-IsStructured (some (int n)) e = absurd (cc)
  is_params-IsStructured (some (float x)) e = absurd (cc)
  is_params-IsStructured (some (str s)) e = absurd (cc)

  IsRequestId-tests :
      (v : Option (Json F)) → IsRequestId v → (is_invalid_id v ≡ false) × (is_null v ≡ false)
  unfolding is_valid_id
  IsRequestId-tests _ no_id = (refl, refl)
  IsRequestId-tests _ (text_id s) = (refl, refl)
  IsRequestId-tests _ (int_id n) = (refl, refl)
  IsRequestId-tests _ (float_id x) = (refl, refl)

  IsStructured-is_params : (v : Option (Json F)) → IsStructured v → is_params v ≡ true
  unfolding is_params
  IsStructured-is_params _ no_params = refl
  IsStructured-is_params _ null_params = refl
  IsStructured-is_params _ (by_position xs) = refl
  IsStructured-is_params _ (by_name fs) = refl

  validate_fields-IsMessage :
      (fields : Fields F) → validate_fields fields ≡ none → IsMessage (obj fields)
  unfolding validate_fields
  validate_fields-IsMessage fields e = elim (Bool-cases (has_text "2.0" (get "jsonrpc" fields))) [
    | inr f ↦ absurd (ground arith)
    | inl version ↦ elim (Bool-cases (is_filled_text (get "method" fields))) [
      | inr f ↦ absurd (ground arith)
      | inl filled ↦ elim (Bool-cases (is_invalid_id (get "id" fields))) [
        | inl t ↦ absurd (ground arith)
        | inr id_kind ↦ elim (Bool-cases (is_null (get "id" fields))) [
          | inl t ↦ absurd (ground arith)
          | inr id_there ↦ elim (Bool-cases (is_params (get "params" fields))) [
            | inr f ↦ absurd (ground arith)
            | inl structured ↦
                let (method, named, something) = is_filled_text-some (get "method" fields) filled in
                message fields method (has_text-some "2.0" (get "jsonrpc" fields) version) named
                  something (is_invalid_id-IsRequestId (get "id" fields) id_kind id_there)
                  (is_params-IsStructured (get "params" fields) structured)
          ]
        ]
      ]
    ]
  ]

  IsMessage-valid : (m : Json F) → IsMessage m → validate_envelope m ≡ none
  unfolding validate_envelope validate_fields has_text is_filled_text
  IsMessage-valid _ (message fields method version named something id params) =
      let (kind, there) = IsRequestId-tests (get "id" fields) id in
      let filled : str_eq method "" ≡ false = ground (arith, eq_iff method "") in
      rw (version, named, filled, kind, there, IsStructured-is_params (get "params" fields) params)

  validate_envelope-IsMessage : (m : Json F) → validate_envelope m ≡ none → IsMessage m
  unfolding validate_envelope
  validate_envelope-IsMessage (obj fields) e = validate_fields-IsMessage fields e
  validate_envelope-IsMessage null e = absurd (cc)
  validate_envelope-IsMessage (bool b) e = absurd (cc)
  validate_envelope-IsMessage (int n) e = absurd (cc)
  validate_envelope-IsMessage (float x) e = absurd (cc)
  validate_envelope-IsMessage (str s) e = absurd (cc)
  validate_envelope-IsMessage (arr xs) e = absurd (cc)

  -- A message passes the envelope check exactly when it is an object whose jsonrpc is 2.0, whose
  -- method is a text that is not empty, whose id is absent, a text or a number, and whose params are
  -- absent, null, an array or an object.
  pub validate_envelope_decides : (m : Json F) → (validate_envelope m ≡ none) ↔ IsMessage m
  validate_envelope_decides m = (validate_envelope-IsMessage m, IsMessage-valid m)
