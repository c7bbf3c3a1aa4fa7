-- ===== src/Guardrail/Payload/Leaves.antt =====
-- Which text of a chunk goes to which redactor, and what the client is shown of it: `_redact_node`
-- with `RedactorPool` of task3_streaming_guardrail/gateway.py.
use text.Mathlib.Text.{◌==◌ as str_eq}
use fde_assessment.Base.{
  ℕ, zero, suc, String, ◌≡◌, refl, sym, ap, ◌∙◌, subst, Bool, true, false, List, [], ◌∷◌, ◌++◌,
  if◌then◌else◌, arith, Bool-cases, inl, inr, Option, Option-cases, ◌||◌, none, some, eq_iff,
}
use fde_assessment.Base.Int.{ℤ}
use fde_assessment.Base.Unicode.{joined}
use fde_assessment.Json.{
  Json, Items, Fields, null, bool, int, float, str, arr, obj, nil, cons, end, field, get,
}
use fde_assessment.Guardrail.Pool.{
  Redaction, Step, at_key, at_position, Key, streamed, key_eq, feed, redact_once,
}
use fde_assessment.Guardrail.Pool.Isolated.{feed_each}
use fde_assessment.Guardrail.Payload.{
  is_structural, is_one_of, streaming_leaves, last_key, is_streaming_path, or_else, declared_index,
  redact_node, redact_items, redact_fields, redact_text, Redacted, untouched,
}
use fde_assessment.Guardrail.Payload.Kept.{get-redact_fields}

-- the last name on a path
abbrev pub last_name : List Step → Option String
last_name [] = none
last_name (at_position n ∷ path) = last_name path
last_name (at_key k ∷ path) = elim (last_name path) [ none ↦ some k | some leaf ↦ some leaf ]

-- the names of the texts that come in pieces
abbrev pub is_text_name : String → Bool
is_text_name name =
    str_eq "content" name
    || (str_eq "text" name
        || (str_eq "refusal" name || (str_eq "reasoning_content" name || str_eq "arguments" name)))

-- a path whose last name is one of those
abbrev pub is_incremental : List Step → Bool
is_incremental path = elim (last_name path) [ none ↦ false | some leaf ↦ is_text_name leaf ]

last_key-last_name :
    (found : Option String) (path : List Step)
    → last_key found path ≡ elim (last_name path) [ none ↦ found | some leaf ↦ some leaf ]
unfolding last_key
last_key-last_name found [] = refl
last_key-last_name found (at_position n ∷ path) = last_key-last_name found path
last_key-last_name found (at_key k ∷ path) = elim (Option-cases (last_name path)) [
  | inl none_after ↦ last_key-last_name (some k) path ∙ rw none_after refl
  | inr (leaf, e) ↦ last_key-last_name (some k) path ∙ rw e refl
]

pub is_streaming_path-is_incremental :
    (path : List Step) → is_streaming_path path ≡ is_incremental path
unfolding is_streaming_path
is_streaming_path-is_incremental path =
    ap is_leaf (last_key-last_name none path) ∙ same (last_name path)
  where
    is_leaf : Option String → Bool
    is_leaf none = false
    is_leaf (some leaf) = is_one_of streaming_leaves leaf

    same :
        (found : Option String)
        → is_leaf (elim found [ none ↦ none | some leaf ↦ some leaf ])
          ≡ elim found [ none ↦ false | some leaf ↦ is_text_name leaf ]
    same none = refl
    same (some leaf) = ground arith

-- the incremental texts of a chunk, each with its stream
abbrev pub text_leaf : String → List Step → Option ℤ → List (Key × String)
text_leaf text path choice =
    if str_eq text ""
    then []
    else if is_incremental path
    then (streamed choice path, text) ∷ []
    else []

-- the index that keys the texts of an object: its own, if that is an integer, or the one around it
abbrev pub keyed_by : {F : Type 0} → Option (Json F) → Option ℤ → Option ℤ
keyed_by (some (int n)) around = some n
keyed_by _ around = around

or_else-keyed_by :
    {F : Type 0} (v : Option (Json F)) (around : Option ℤ)
    → or_else (declared_index v) around ≡ keyed_by v around
or_else-keyed_by none around = refl
or_else-keyed_by (some null) around = refl
or_else-keyed_by (some (bool b)) around = refl
or_else-keyed_by (some (int n)) around = refl
or_else-keyed_by (some (float x)) around = refl
or_else-keyed_by (some (str s)) around = refl
or_else-keyed_by (some (arr xs)) around = refl
or_else-keyed_by (some (obj fs)) around = refl

module _ {F : Type 0} where
  unfoldable mutual
    pub leaves : Json F → List Step → Option ℤ → List (Key × String)
    leaves (obj fs) path choice = fields_leaves fs path (keyed_by (get "index" fs) choice)
    leaves (arr xs) path choice = items_leaves xs zero path choice
    leaves (str text) path choice = text_leaf text path choice
    leaves _ path choice = []

    pub items_leaves : Items F → ℕ → List Step → Option ℤ → List (Key × String)
    items_leaves nil position path choice = []
    items_leaves (cons v vs) position path choice =
        leaves v (path ++ at_position position ∷ []) choice
        ++ items_leaves vs (suc position) path choice

    pub fields_leaves : Fields F → List Step → Option ℤ → List (Key × String)
    fields_leaves end path choice = []
    fields_leaves (field k v fs) path choice =
        (if is_structural k then [] else leaves v (path ++ at_key k ∷ []) choice)
        ++ fields_leaves fs path choice

-- all the texts under a key, one after the other
abbrev pub text_under : Key → List (Key × String) → String
text_under key [] = ""
text_under key ((k, text) ∷ rest) =
    let more = text_under key rest in if key_eq k key then joined text more else more

joined_assoc : (r s t : String) → joined (joined r s) t ≡ joined r (joined s t)
joined_assoc String.[] s t = refl
joined_assoc (String.◌∷◌ c r) s t = ap (String.◌∷◌ c) (joined_assoc r s t)

text_under-append :
    (key : Key) (xs ys : List (Key × String))
    → text_under key (xs ++ ys) ≡ joined (text_under key xs) (text_under key ys)
text_under-append key [] ys = refl
text_under-append key ((k, text) ∷ xs) ys = elim (Bool-cases (key_eq k key)) [
  | inl here ↦ simp here (
      ap (joined text) (text_under-append key xs ys)
      ∙ sym (joined_assoc text (text_under key xs) (text_under key ys)))
  | inr there ↦ simp there (text_under-append key xs ys)
]

text_leaf-whole :
    (out : String) (path : List Step) (choice : Option ℤ)
    → is_streaming_path path ≡ false
    → text_leaf out path choice ≡ []
text_leaf-whole out path choice whole = ground (arith, whole, is_streaming_path-is_incremental path)

text_leaf-text_under :
    (key : Key) (out : String) (path : List Step) (choice : Option ℤ)
    → is_streaming_path path ≡ true
    → text_under key (text_leaf out path choice) ≡ text_under key ((streamed choice path, out) ∷ [])
text_leaf-text_under key out path choice streams = elim (Bool-cases (str_eq out "")) [
  | inl empty ↦ rw ((eq_iff out "").0 empty) (ground arith)
  | inr filled ↦
      let comes : is_incremental path ≡ true =
        rw (← is_streaming_path-is_incremental path) streams in
      simp (filled, comes) refl
]

module _ {R : Type 0} (red : Redaction R) where
  feed_each-append :
      (xs ys : List (Key × String)) (pool : List (Key × R))
      → (feed_each red (xs ++ ys) pool).1 ≡ (feed_each red ys (feed_each red xs pool).1).1
  feed_each-append [] ys pool = refl
  feed_each-append ((k, text) ∷ xs) ys pool = feed_each-append xs ys (feed red k text pool).1

  shown-append :
      (xs ys : List (Key × String)) (pool : List (Key × R))
      → (feed_each red (xs ++ ys) pool).0
        ≡ (feed_each red xs pool).0 ++ (feed_each red ys (feed_each red xs pool).1).0
  shown-append [] ys pool = refl
  shown-append ((k, text) ∷ xs) ys pool =
      let (out, pool') = feed red k text pool in ap (λ l. (k, out) ∷ l) (shown-append xs ys pool')

-- A walk over some value follows its texts: the pool after it is that of feeding them, and under each
-- key it shows what the pool put out for them.
abbrev pub FollowsTexts :
    {R : Type 0}
    → Redaction R
    → List (Key × R)
    → List (Key × String)
    → List (Key × R)
    → List (Key × String)
    → Type 0
FollowsTexts red pool texts after shown =
    (after ≡ (feed_each red texts pool).1)
    × ((key : Key) → text_under key shown ≡ text_under key (feed_each red texts pool).0)

module _ {R : Type 0} (red : Redaction R) where
  pub FollowsTexts-then :
      (pool mid after : List (Key × R)) (xs ys shown_x shown_y : List (Key × String))
      → FollowsTexts red pool xs mid shown_x
      → FollowsTexts red mid ys after shown_y
      → FollowsTexts red pool (xs ++ ys) after (shown_x ++ shown_y)
  FollowsTexts-then pool mid after xs ys shown_x shown_y (moved, first) (moved', rest) =
      let fed = (feed_each red xs pool).1 in
      (
        moved' ∙ ap (λ p. (feed_each red ys p).1) moved ∙ sym (feed_each-append red xs ys pool),
        λ key.
            text_under-append key shown_x shown_y
            ∙ (λ i.
                joined (first key i)
                  ((rest key ∙ ap (λ p. text_under key (feed_each red ys p).0) moved) i))
            ∙ sym (text_under-append key (feed_each red xs pool).0 (feed_each red ys fed).0)
            ∙ ap (text_under key) (sym (shown-append red xs ys pool)),
      )

module _ (F : Type 0) {R : Type 0} (red : Redaction R) where
  text-FollowsTexts :
      (text : String) (pool : List (Key × R)) (path : List Step) (choice : Option ℤ)
      → let done = redact_node {F = F} red (str text) pool path choice in
        FollowsTexts red pool (text_leaf text path choice) done.pool (leaves done.value path choice)
  unfolding redact_node redact_text leaves
  text-FollowsTexts text pool path choice = elim (Bool-cases (str_eq text "")) [
    | inl empty ↦ (simp empty refl, λ key. simp empty refl)
    | inr filled ↦ elim (Bool-cases (is_streaming_path path)) [
      | inl streams ↦
          let out = (feed red (streamed choice path) text pool).0 in
          let comes = sym (is_streaming_path-is_incremental path) ∙ streams in
          (
            simp (filled, streams, comes) refl,
            λ key.
                simp (filled, streams, comes)
                  (simp comes at (text_leaf-text_under key out path choice streams)),
          )
      | inr whole ↦
          let comes_whole = sym (is_streaming_path-is_incremental path) ∙ whole in
          (
            simp (filled, whole, comes_whole) refl,
            λ key.
                simp (filled, whole, comes_whole)
                  (simp comes_whole at (
                    ap (text_under key)
                      (text_leaf-whole (redact_once red text) path choice whole))),
          )
    ]
  ]

module _ {F R : Type 0} (red : Redaction R) where
  field-FollowsTexts :
      (v : Json F) (pool : List (Key × R)) (inner : Redacted R (Json F))
      (after : List (Key × R) → Redacted R (Fields F)) (structural : Bool)
      (texts rest_texts : List (Key × String)) (shown : Json F → List (Key × String))
      (rest_shown : Fields F → List (Key × String))
      → FollowsTexts red pool texts inner.pool (shown inner.value)
      → ((p : List (Key × R))
          → FollowsTexts red p rest_texts (after p).pool (rest_shown (after p).value))
      → let first = if structural then untouched v pool else inner in
        FollowsTexts red pool
          ((if structural then [] else texts) ++ rest_texts)
          (after first.pool).pool
          ((if structural then [] else shown first.value) ++ rest_shown (after first.pool).value)
  field-FollowsTexts v pool inner after true texts rest_texts shown rest_shown one rest = rest pool
  field-FollowsTexts v pool inner after false texts rest_texts shown rest_shown one rest =
      FollowsTexts-then red pool inner.pool _ texts rest_texts _ _ one (rest inner.pool)

  mutual
    unfolding redact_node leaves

    pub redact_node-FollowsTexts :
        (v : Json F) (pool : List (Key × R)) (path : List Step) (choice : Option ℤ)
        → let done = redact_node red v pool path choice in
          FollowsTexts red pool (leaves v path choice) done.pool (leaves done.value path choice)
    redact_node-FollowsTexts (obj fs) pool path choice =
        let local = keyed_by (get "index" fs) choice in
        subst
          (λ around.
            let done = redact_fields red fs pool path around in
            FollowsTexts red pool (fields_leaves fs path local) done.pool
              (fields_leaves done.value path (keyed_by (get "index" done.value) choice)))
          (sym (or_else-keyed_by (get "index" fs) choice))
          (let done = redact_fields red fs pool path local in
            subst
              (λ declared.
                FollowsTexts red pool (fields_leaves fs path local) done.pool
                  (fields_leaves done.value path (keyed_by declared choice)))
              (sym (get-redact_fields red "index" fs pool path local refl))
              (redact_fields-FollowsTexts fs pool path local))
    redact_node-FollowsTexts (arr xs) pool path choice =
        redact_items-FollowsTexts xs zero pool path choice
    redact_node-FollowsTexts (str text) pool path choice =
        text-FollowsTexts F red text pool path choice
    redact_node-FollowsTexts null pool path choice = (refl, λ key. refl)
    redact_node-FollowsTexts (bool b) pool path choice = (refl, λ key. refl)
    redact_node-FollowsTexts (int n) pool path choice = (refl, λ key. refl)
    redact_node-FollowsTexts (float x) pool path choice = (refl, λ key. refl)

    redact_items-FollowsTexts :
        (xs : Items F) (position : ℕ) (pool : List (Key × R)) (path : List Step) (choice : Option ℤ)
        → let done = redact_items red xs position pool path choice in
          FollowsTexts red pool
            (items_leaves xs position path choice)
            done.pool
            (items_leaves done.value position path choice)
    redact_items-FollowsTexts nil position pool path choice = (refl, λ key. refl)
    redact_items-FollowsTexts (cons v vs) position pool path choice =
        let here = path ++ at_position position ∷ [] in
        let first = redact_node red v pool here choice in
        let rest = redact_items red vs (suc position) first.pool path choice in
        FollowsTexts-then red pool first.pool rest.pool (leaves v here choice)
          (items_leaves vs (suc position) path choice) (leaves first.value here choice)
          (items_leaves rest.value (suc position) path choice)
          (redact_node-FollowsTexts v pool here choice)
          (redact_items-FollowsTexts vs (suc position) first.pool path choice)

    redact_fields-FollowsTexts :
        (fs : Fields F) (pool : List (Key × R)) (path : List Step) (choice : Option ℤ)
        → let done = redact_fields red fs pool path choice in
          FollowsTexts red pool
            (fields_leaves fs path choice)
            done.pool
            (fields_leaves done.value path choice)
    redact_fields-FollowsTexts end pool path choice = (refl, λ key. refl)
    redact_fields-FollowsTexts (field k v fs) pool path choice =
        let here = path ++ at_key k ∷ [] in
        let inner = redact_node red v pool here choice in
        field-FollowsTexts v pool inner (λ p. redact_fields red fs p path choice) (is_structural k)
          (leaves v here choice) (fields_leaves fs path choice) (λ x. leaves x here choice)
          (λ after. fields_leaves after path choice) (redact_node-FollowsTexts v pool here choice)
          (λ p. redact_fields-FollowsTexts fs p path choice)
