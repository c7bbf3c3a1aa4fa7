-- ===== src/Router/App/Keys.antt =====
-- Whose budget a request draws on: `_limit_key_for` of task4_model_router/app.py.
use Prim.Native.Char.{Char, code, nul}
use text.Mathlib.Text.{◌==◌ as str_eq}
use fde_assessment.Base.{
  ℕ, String, ◌≡◌, inl, inr, refl, sym, ap, ◌∙◌, false, some, List, [], ◌∷◌, ◌==◌, arith, Bool-cases,
  Option-cases,
}
use mathlib.Core.Option.{some-injective}
use fde_assessment.Base.Unicode.{Unicode}
use fde_assessment.Router.App.{tenant_of, limit_key, api_key_of, limit_key_for}

-- no colon stands in the text
abbrev pub IsColonFree : String → Type 0
IsColonFree String.[] = Unit
IsColonFree (String.◌∷◌ c s) = (code c == 58 ≡ false) × IsColonFree s

-- no tenant's name has a colon
abbrev pub AreColonFree : List (String × String) → Type 0
AreColonFree [] = Unit
AreColonFree ((key, tenant) ∷ rest) = IsColonFree tenant × AreColonFree rest

tail_of : String → String
tail_of String.[] = ""
tail_of (String.◌∷◌ c s) = s

head_of : String → Char
head_of String.[] = nul
head_of (String.◌∷◌ c s) = c

code_of : String → ℕ
code_of String.[] = 0
code_of (String.◌∷◌ c s) = code c

limit_key_injective :
    (t t' k k' : String)
    → IsColonFree t
    → IsColonFree t'
    → limit_key t k ≡ limit_key t' k'
    → (t ≡ t') × (k ≡ k')
unfolding limit_key tail_of code_of head_of
limit_key_injective String.[] String.[] k k' f f' e = (refl, ap tail_of e)
limit_key_injective String.[] (String.◌∷◌ d t') k k' f f' e =
    let colon : 58 ≡ code d = ap code_of e in absurd (ground arith)
limit_key_injective (String.◌∷◌ c t) String.[] k k' f f' e =
    let colon : code c ≡ 58 = ap code_of e in absurd (ground arith)
limit_key_injective (String.◌∷◌ c t) (String.◌∷◌ d t') k k' f f' e =
    let (same, keys) = limit_key_injective t t' k k' f.1 f'.1 (ap tail_of e) in
    let same_head : c ≡ d = ap head_of e in (λ i. String.◌∷◌ (same_head i) (same i), keys)

tenant_of-IsColonFree :
    (api_keys : List (String × String)) (key tenant : String)
    → AreColonFree api_keys
    → tenant_of api_keys key ≡ some tenant
    → IsColonFree tenant
unfolding tenant_of
tenant_of-IsColonFree [] key tenant free found = absurd (cc)
tenant_of-IsColonFree ((known, t) ∷ rest) key tenant free found =
    elim (Bool-cases (str_eq known key)) [
      | inl same ↦ rw (← some-injective t tenant (rw same at found)) free.0
      | inr other ↦ tenant_of-IsColonFree rest key tenant free.1 (rw other at found)
    ]

-- a limit key stands for an API key that is registered
pub limit_key_for_sound :
    (u : Unicode) (api_keys : List (String × String)) (header limit : String)
    → limit_key_for u api_keys header ≡ some limit
    → (key : String) × (tenant : String) × (api_key_of u header ≡ some key)
      × (tenant_of api_keys key ≡ some tenant)
      × (limit ≡ limit_key tenant key)
unfolding limit_key_for
limit_key_for_sound u api_keys header limit e = elim (Option-cases (api_key_of u header)) [
  | inl unnamed ↦ absurd (cc (rw (unnamed, limit_key_for) at e))
  | inr (key, named) ↦ elim (Option-cases (tenant_of api_keys key)) [
    | inl unknown ↦ absurd (cc (rw (named, unknown, limit_key_for) at e))
    | inr (tenant, known) ↦ (
      key,
      tenant,
      named,
      known,
      sym (some-injective (limit_key tenant key) limit (rw (named, known, limit_key_for) at e)),
    )
  ]
]

-- Where no tenant's name has a colon, two requests that draw on one budget name the same API key:
-- each key has a budget of its own, also among the keys of one tenant.
pub limit_key_for_separates :
    (u : Unicode) (api_keys : List (String × String)) (header header' limit : String)
    → AreColonFree api_keys
    → limit_key_for u api_keys header ≡ some limit
    → limit_key_for u api_keys header' ≡ some limit
    → api_key_of u header ≡ api_key_of u header'
limit_key_for_separates u api_keys header header' limit free e e' =
    let (key, tenant, named, known, is_limit) = limit_key_for_sound u api_keys header limit e in
    let (key', tenant', named', known', is_limit') =
      limit_key_for_sound u api_keys header' limit e' in
    let (_, same) =
      limit_key_injective tenant tenant' key key'
        (tenant_of-IsColonFree api_keys key tenant free known)
        (tenant_of-IsColonFree api_keys key' tenant' free known') (sym is_limit ∙ is_limit') in
    named ∙ ap some same ∙ sym named'
