-- ===== src/Guardrail/Pool/Isolated.antt =====
-- That the texts of a response do not mix: `RedactorPool` of task3_streaming_guardrail/gateway.py.
use fde_assessment.Base.{
  String, ◌≡◌, refl, sym, ap, subst, true, false, List, [], ◌∷◌, if◌then◌else◌, arith, none, some,
  Option, Bool-cases, inl, inr, eq_iff,
}
use fde_assessment.Base.Int.{ℤ, int_eq_sound, int_eq_refl}
use fde_assessment.Guardrail.Pool.{
  Redaction, Step, at_key, at_position, step_eq, path_eq, choice_eq, Key, raw, bare, streamed,
  key_eq, feed,
}

step_eq_sound : (s t : Step) → step_eq s t ≡ true → s ≡ t
step_eq_sound (at_key a) (at_key b) h = ap at_key ((eq_iff a b).0 h)
step_eq_sound (at_position a) (at_position b) h = ap at_position (ground (arith, h))
step_eq_sound (at_key a) (at_position b) h = absurd (ground (arith, h))
step_eq_sound (at_position a) (at_key b) h = absurd (ground (arith, h))

path_eq_sound : (p q : List Step) → path_eq p q ≡ true → p ≡ q
path_eq_sound [] [] h = refl
path_eq_sound (s ∷ p) (t ∷ q) h = elim (Bool-cases (step_eq s t)) [
  | inl same ↦
      let rest : path_eq p q ≡ true = rw same at h in
      rw (step_eq_sound s t same, path_eq_sound p q rest)
  | inr other ↦ absurd (ground (arith, other, h))
]
path_eq_sound [] (t ∷ q) h = absurd (ground (arith, h))
path_eq_sound (s ∷ p) [] h = absurd (ground (arith, h))

choice_eq_sound : (c d : Option ℤ) → choice_eq c d ≡ true → c ≡ d
choice_eq_sound none none h = refl
choice_eq_sound (some a) (some b) h = ap some (int_eq_sound a b h)
choice_eq_sound none (some b) h = absurd (ground (arith, h))
choice_eq_sound (some a) none h = absurd (ground (arith, h))

pub key_eq_sound : (j k : Key) → key_eq j k ≡ true → j ≡ k
key_eq_sound raw raw h = refl
key_eq_sound bare bare h = refl
key_eq_sound (streamed c p) (streamed d q) h = elim (Bool-cases (choice_eq c d)) [
  | inl same ↦
      let rest : path_eq p q ≡ true = rw same at h in
      rw (choice_eq_sound c d same, path_eq_sound p q rest)
  | inr other ↦ absurd (ground (arith, other, h))
]
key_eq_sound raw bare h = absurd (ground (arith, h))
key_eq_sound raw (streamed d q) h = absurd (ground (arith, h))
key_eq_sound bare raw h = absurd (ground (arith, h))
key_eq_sound bare (streamed d q) h = absurd (ground (arith, h))
key_eq_sound (streamed c p) raw h = absurd (ground (arith, h))
key_eq_sound (streamed c p) bare h = absurd (ground (arith, h))

path_eq_refl : (p : List Step) → path_eq p p ≡ true
path_eq_refl [] = refl
path_eq_refl (at_key a ∷ p) = rw ((eq_iff a a).1 refl) (path_eq_refl p)
path_eq_refl (at_position a ∷ p) = ground (arith, path_eq_refl p)

choice_eq_refl : (c : Option ℤ) → choice_eq c c ≡ true
choice_eq_refl none = refl
choice_eq_refl (some a) = int_eq_refl a

pub key_eq_refl : (k : Key) → key_eq k k ≡ true
key_eq_refl raw = refl
key_eq_refl bare = refl
key_eq_refl (streamed c p) = rw (choice_eq_refl c) (path_eq_refl p)

-- no key is that of two others
pub key_apart : (i j k : Key) → key_eq i k ≡ true → key_eq j k ≡ false → key_eq i j ≡ false
key_apart i j k here other = elim (Bool-cases (key_eq i j)) [
  | inr differs ↦ differs
  | inl same ↦
      absurd (ground (arith, subst (λ x. key_eq x k ≡ true) (key_eq_sound i j same) here, other))
]

-- what stands under one key
abbrev pub under : Key → List (Key × String) → List String
under key [] = []
under key ((k, text) ∷ rest) =
    let more = under key rest in if key_eq k key then text ∷ more else more

module _ {R : Type 0} (red : Redaction R) where
  -- the redactor of a key: a fresh one before its first text
  abbrev pub redactor_of : Key → List (Key × R) → R
  redactor_of key [] = red.fresh
  redactor_of key ((k, r) ∷ rest) = if key_eq k key then r else redactor_of key rest

  feed-own :
      (key : Key) (text : String) (pool : List (Key × R))
      → ((feed red key text pool).0 ≡ (red.feed (redactor_of key pool) text).0)
        × (redactor_of key (feed red key text pool).1 ≡ (red.feed (redactor_of key pool) text).1)
  unfolding feed
  feed-own key text [] = rw (key_eq_refl key) (refl, refl)
  feed-own key text ((k, r) ∷ rest) = elim (Bool-cases (key_eq k key)) [
    | inl here ↦ (simp here, simp here)
    | inr there ↦
        let (put_out, moved) = feed-own key text rest in (simp there put_out, simp there moved)
  ]

  feed-other :
      (key other : Key) (text : String) (pool : List (Key × R))
      → key_eq key other ≡ false
      → redactor_of other (feed red key text pool).1 ≡ redactor_of other pool
  unfolding feed
  feed-other key other text [] differs = rw differs refl
  feed-other key other text ((k, r) ∷ rest) differs = elim (Bool-cases (key_eq k key)) [
    | inl here ↦
        let apart : key_eq k other ≡ false =
          subst (λ x. key_eq x other ≡ false) (sym (key_eq_sound k key here)) differs in
        rw (here, apart, redactor_of) refl
    | inr there ↦ elim (Bool-cases (key_eq k other)) [
      | inl same ↦ rw (there, same, redactor_of) refl
      | inr far ↦ rw (there, far, redactor_of) (feed-other key other text rest differs)
    ]
  ]

  -- texts fed one after the other under their keys, each with what the pool puts out for it
  abbrev pub feed_each : List (Key × String) → List (Key × R) → List (Key × String) × List (Key × R)
  feed_each [] pool = ([], pool)
  feed_each ((key, text) ∷ texts) pool =
      let (out, pool') = feed red key text pool in
      let (outs, pool'') = feed_each texts pool' in ((key, out) ∷ outs, pool'')

  -- one redactor alone, fed with texts one after the other
  abbrev pub feed_alone : R → List String → List String × R
  feed_alone r [] = ([], r)
  feed_alone r (text ∷ texts) =
      let (out, r') = red.feed r text in let (outs, r'') = feed_alone r' texts in (out ∷ outs, r'')

  -- a pool fed with texts follows one redactor fed with the texts of its key
  abbrev Follows : Key → List (Key × String) → List (Key × R) → R → Type 0
  Follows key texts pool r =
      (under key (feed_each texts pool).0 ≡ (feed_alone r (under key texts)).0)
      × (redactor_of key (feed_each texts pool).1 ≡ (feed_alone r (under key texts)).1)

  feed_each-Follows :
      (key : Key) (texts : List (Key × String)) (pool : List (Key × R))
      → Follows key texts pool (redactor_of key pool)
  feed_each-Follows key [] pool = (refl, refl)
  feed_each-Follows key ((k, text) ∷ texts) pool =
      let pool' = (feed red k text pool).1 in
      elim (Bool-cases (key_eq k key)) [
        | inl here ↦
            let (put_out, moved) =
              subst
                (λ x.
                  ((feed red x text pool).0 ≡ (red.feed (redactor_of key pool) text).0)
                  × (redactor_of key (feed red x text pool).1
                      ≡ (red.feed (redactor_of key pool) text).1))
                (sym (key_eq_sound k key here)) (feed-own key text pool) in
            let (outs, last) =
              subst (Follows key texts pool') moved (feed_each-Follows key texts pool') in
            rw (here, under) (λ i. put_out i ∷ outs i, last)
        | inr there ↦
            rw (there, under)
              (subst (Follows key texts pool') (feed-other k key text pool there)
                (feed_each-Follows key texts pool'))
      ]

  -- However the texts of several streams are interleaved, what the pool puts out under a key, and the
  -- redactor that it keeps for it, are those of one redactor of its own that is fed with the texts
  -- of this key alone.
  pub feed_each_isolates :
      (key : Key) (texts : List (Key × String)) (pool : List (Key × R))
      → let alone = feed_alone (redactor_of key pool) (under key texts) in
        (under key (feed_each texts pool).0 ≡ alone.0)
        × (redactor_of key (feed_each texts pool).1 ≡ alone.1)
  feed_each_isolates = feed_each-Follows
