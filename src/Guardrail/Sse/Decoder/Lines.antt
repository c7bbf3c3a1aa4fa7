-- ===== src/Guardrail/Sse/Decoder/Lines.antt =====
-- Text that comes in pieces, its line ends and its start: `SSEDecoder.feed` of
-- task3_streaming_guardrail/sse.py.
use text.Mathlib.TextEquality.{Char-path}
use Prim.Native.Char.{Char, code}
use fde_assessment.Base.{
  ◌≡◌, refl, sym, ap, ◌∙◌, ◌⊎◌, inl, inr, Bool, true, false, ◌&&◌, String, if◌then◌else◌, ◌==◌,
  arith, Bool-cases, subst,
}
use fde_assessment.Base.Unicode.{joined}
use fde_assessment.Guardrail.Sse.{}
use fde_assessment.Guardrail.Sse.Decoder.{
  is_empty, strip_bom, ends_cr, but_last, replace_crlf, replace_cr, normalised, ready, held,
}

pub joined_assoc : (s t u : String) → joined (joined s t) u ≡ joined s (joined t u)
joined_assoc String.[] t u = refl
joined_assoc (String.◌∷◌ c s) t u = ap (λ x. String.◌∷◌ c x) (joined_assoc s t u)

pub joined_empty : (s : String) → joined s "" ≡ s
joined_empty String.[] = refl
joined_empty (String.◌∷◌ c s) = ap (λ x. String.◌∷◌ c x) (joined_empty s)

pub replace_cr-joined :
    (s t : String) → replace_cr (joined s t) ≡ joined (replace_cr s) (replace_cr t)
unfolding replace_cr
replace_cr-joined String.[] t = refl
replace_cr-joined (String.◌∷◌ c s) t = elim (Bool-cases (code c == 13)) [
  | inl return' ↦ rw (return', replace_cr-joined s t) refl
  | inr other ↦ rw (other, replace_cr-joined s t) refl
]

-- a cut that does not part a carriage return from its line feed
abbrev pub starts_lf : String → Bool
starts_lf String.[] = false
starts_lf (String.◌∷◌ c s) = code c == 10

pub apart_tail :
    (d : Char) (s t : String)
    → (ends_cr (String.◌∷◌ d s) && starts_lf t) ≡ false
    → (ends_cr s && starts_lf t) ≡ false
unfolding ends_cr
apart_tail d String.[] t apart = refl
apart_tail d (String.◌∷◌ e s) t apart = apart

pub replace_crlf-joined :
    (s t : String)
    → (ends_cr s && starts_lf t) ≡ false
    → replace_crlf (joined s t) ≡ joined (replace_crlf s) (replace_crlf t)
unfolding replace_crlf ends_cr
replace_crlf-joined String.[] t apart = refl
replace_crlf-joined (String.◌∷◌ c String.[]) String.[] apart = refl
replace_crlf-joined (String.◌∷◌ c String.[]) (String.◌∷◌ d t) apart = ground (arith, apart)
replace_crlf-joined (String.◌∷◌ c (String.◌∷◌ d s)) t apart =
    elim (Bool-cases (code c == 13 && code d == 10)) [
      | inl pair ↦ rw (pair, replace_crlf-joined s t (apart_tail d s t apart)) refl
      | inr single ↦ rw (single, replace_crlf-joined (String.◌∷◌ d s) t apart) refl
    ]

pub ends_cr-joined :
    (s t : String) → (ends_cr s && is_empty t) ≡ false → ends_cr (joined s t) ≡ ends_cr t
unfolding ends_cr
ends_cr-joined String.[] t apart = refl
ends_cr-joined (String.◌∷◌ c String.[]) String.[] apart = ground (arith, apart)
ends_cr-joined (String.◌∷◌ c String.[]) (String.◌∷◌ d t) apart = refl
ends_cr-joined (String.◌∷◌ c (String.◌∷◌ d s)) t apart = ends_cr-joined (String.◌∷◌ d s) t apart

pub but_last-joined :
    (s : String) (d : Char) (t : String)
    → but_last (joined s (String.◌∷◌ d t)) ≡ joined s (but_last (String.◌∷◌ d t))
unfolding but_last
but_last-joined String.[] d t = refl
but_last-joined (String.◌∷◌ c String.[]) d t = refl
but_last-joined (String.◌∷◌ c (String.◌∷◌ e s)) d t =
    ap (λ x. String.◌∷◌ c x) (but_last-joined (String.◌∷◌ e s) d t)

pub ready-joined :
    (s t : String) → (ends_cr s && is_empty t) ≡ false → ready (joined s t) ≡ joined s (ready t)
unfolding ready ends_cr
ready-joined s String.[] apart = rw (ends_cr-joined s "" apart) refl
ready-joined s (String.◌∷◌ d t) apart = elim (Bool-cases (ends_cr (String.◌∷◌ d t))) [
  | inl cr ↦ rw (ends_cr-joined s (String.◌∷◌ d t) apart, cr) (but_last-joined s d t)
  | inr other ↦ rw (ends_cr-joined s (String.◌∷◌ d t) apart, other) refl
]

pub held-joined : (s t : String) → (ends_cr s && is_empty t) ≡ false → held (joined s t) ≡ held t
unfolding held
held-joined s t apart = rw (ends_cr-joined s t apart) refl

pub is_cr : (c : Char) → (code c == 13) ≡ true → String.◌∷◌ c "" ≡ "\r"
is_cr c h = ap (λ x. String.◌∷◌ x "") (Char-path c "\r" (ground (arith, h)))

pub last_cr : (s : String) → ends_cr s ≡ true → joined (but_last s) "\r" ≡ s
unfolding ends_cr but_last
last_cr String.[] cr = absurd (ground (arith, cr))
last_cr (String.◌∷◌ c String.[]) cr = sym (is_cr c cr)
last_cr (String.◌∷◌ c (String.◌∷◌ d s)) cr = ap (λ x. String.◌∷◌ c x) (last_cr (String.◌∷◌ d s) cr)

-- what is ready and what is held make the text
pub ready-held : (s : String) → joined (ready s) (held s) ≡ s
unfolding ready held
ready-held s = elim (Bool-cases (ends_cr s)) [
  | inl cr ↦ rw cr (last_cr s cr)
  | inr other ↦ rw other (joined_empty s)
]

pub and_false : (b : Bool) → (b && false) ≡ false
and_false true = refl
and_false false = refl

-- with what is held, no cut comes between a carriage return and its line feed
pub held-apart : (s t : String) → (ends_cr (ready s) && starts_lf (joined (held s) t)) ≡ false
unfolding ready held
held-apart s t = elim (Bool-cases (ends_cr s)) [
  | inl cr ↦ rw cr (and_false (ends_cr (but_last s)))
  | inr other ↦ rw (other, other) refl
]

pub held-whole : (s t : String) → (ends_cr (ready s) && is_empty (joined (held s) t)) ≡ false
unfolding ready held
held-whole s t = elim (Bool-cases (ends_cr s)) [
  | inl cr ↦ rw cr (and_false (ends_cr (but_last s)))
  | inr other ↦ rw (other, other) refl
]

pub starts_lf-ready :
    (b : Bool) (s : String) → (b && starts_lf s) ≡ false → (b && starts_lf (ready s)) ≡ false
unfolding ready ends_cr but_last
starts_lf-ready b String.[] apart = apart
starts_lf-ready b (String.◌∷◌ c String.[]) apart = elim (Bool-cases (code c == 13)) [
  | inl cr ↦ rw cr (and_false b)
  | inr other ↦ rw other apart
]
starts_lf-ready b (String.◌∷◌ c (String.◌∷◌ d s)) apart =
    elim (Bool-cases (ends_cr (String.◌∷◌ d s))) [
      | inl cr ↦ rw cr apart
      | inr other ↦ rw other apart
    ]

pub is_empty-nil : (s : String) → is_empty s ≡ true → s ≡ ""
is_empty-nil String.[] h = refl
is_empty-nil (String.◌∷◌ c s) h = absurd (ground (arith, h))

pub is_empty-joined : (s t : String) → is_empty s ≡ false → is_empty (joined s t) ≡ false
is_empty-joined String.[] t h = absurd (ground (arith, h))
is_empty-joined (String.◌∷◌ c s) t h = refl

pub strip_bom-joined :
    (s t : String)
    → strip_bom (joined s t)
      ≡ (if is_empty (strip_bom s) then strip_bom t else joined (strip_bom s) t)
unfolding strip_bom
strip_bom-joined String.[] t = refl
strip_bom-joined (String.◌∷◌ c s) t = elim (Bool-cases (code c == 65279)) [
  | inl mark ↦ rw mark (strip_bom-joined s t)
  | inr other ↦ rw other refl
]

-- the text that is ready and what is held, with more text
pub ready-then : (s t : String) → joined (ready s) (joined (held s) t) ≡ joined s t
ready-then s t = sym (joined_assoc (ready s) (held s) t) ∙ ap (λ x. joined x t) (ready-held s)

-- how what arrives in two pieces makes what arrives at once
abbrev pub IsCut : Bool → String → String → String → Type 0
IsCut at_start here next whole =
    (joined (ready here) next ≡ whole)
    × ((ends_cr (ready here) && is_empty next) ≡ false)
    × ((ends_cr (ready here) && starts_lf next) ≡ false)
    × ((at_start && is_empty whole) ≡ ((at_start && is_empty here) && is_empty next))

pub inside-IsCut : (s t : String) → IsCut false s (joined (held s) t) (joined s t)
inside-IsCut s t = (ready-then s t, held-whole s t, held-apart s t, refl)

pub start-IsCut : (at_start : Bool) (t : String) → IsCut at_start "" t t
unfolding ready
start-IsCut true t = (refl, refl, refl, refl)
start-IsCut false t = (refl, refl, refl, refl)

-- `arrived` by the two fields that it reads
abbrev pub arrives : Bool → String → String → String
arrives at_start pending_cr text =
    let decoded = joined pending_cr text in if at_start then strip_bom decoded else decoded

abbrev pub ArrivesCut : Bool → String → String → String → Type 0
ArrivesCut at_start pending_cr s t =
    let here = arrives at_start pending_cr s in
    IsCut at_start here (arrives (at_start && is_empty here) (held here) t)
      (arrives at_start pending_cr (joined s t))

pub first-ArrivesCut : (s t : String) → ArrivesCut true "" s t
unfolding held ends_cr
first-ArrivesCut s t = elim (Bool-cases (is_empty (strip_bom s))) [
  | inl nothing ↦
      rw (strip_bom-joined s t, is_empty-nil (strip_bom s) nothing) (start-IsCut true (strip_bom t))
  | inr begun ↦
      let a = strip_bom s in
      rw (strip_bom-joined s t, begun)
        (ready-then a t, held-whole a t, held-apart a t, is_empty-joined a t begun)
]

pub arrives-IsCut :
    (at_start : Bool) (pending_cr s t : String)
    → (at_start ≡ false) ⊎ (pending_cr ≡ "")
    → ArrivesCut at_start pending_cr s t
arrives-IsCut false p s t is_ready =
    subst (IsCut false (joined p s) (joined (held (joined p s)) t)) (joined_assoc p s t)
      (inside-IsCut (joined p s) t)
arrives-IsCut true p s t (inl inside) = absurd (ground (arith, inside))
arrives-IsCut true p s t (inr empty) =
    subst (λ p. ArrivesCut true p s t) (sym empty) (first-ArrivesCut s t)

pub normalised-ready :
    (u v : String)
    → (ends_cr u && is_empty v) ≡ false
    → (ends_cr u && starts_lf v) ≡ false
    → normalised (ready (joined u v)) ≡ joined (normalised u) (normalised (ready v))
normalised-ready u v apart no_lf =
    ap normalised (ready-joined u v apart)
    ∙ ap replace_cr (replace_crlf-joined u (ready v) (starts_lf-ready (ends_cr u) v no_lf))
    ∙ replace_cr-joined (replace_crlf u) (replace_crlf (ready v))
