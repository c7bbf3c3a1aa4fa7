-- ===== src/Router/App/Guards.antt =====
-- What the checks of the endpoint establish of a request: `_limit_key_for` and the tests of
-- `completions` in task4_model_router/app.py.
use mathlib.Core.List.{Mem, mem-cons_self, mem-cons_of_mem}
use mathlib.Core.Option.{some-injective}
use text.Mathlib.Text.{◌==◌ as str_eq}
use fde_assessment.Base.{
  ℕ, ◌≤◌, String, ◌≡◌, ◌⊎◌, inl, inr, refl, subst, ap, Bool, true, false, Option, none, some, List,
  [], ◌∷◌, length, leb, ltb, arith, Bool-cases, Option-cases, eq_iff,
}
use fde_assessment.Base.Int.{pos, negsuc}
use fde_assessment.Base.Unicode.{Unicode, isdigit, read_number, joined, text_length}
use fde_assessment.Json.{Json, Items, null, bool, int, float, str, arr, obj, nil, cons, end, field}
use fde_assessment.Gateway.Auth.{partition_blank}
use fde_assessment.Gateway.Upstream.{Bytes}
use fde_assessment.Gateway.Upstream.Capped.{join}
use fde_assessment.Gateway.Proxy.{received, receive, declares_too_large, int_of}
use fde_assessment.Gateway.Proxy.Forwarded.{receive_exact}
use fde_assessment.Router.App.{
  Web, tenant_of, limit_key, api_key_of, limit_key_for, is_filled_list, is_truthy,
}
use fde_assessment.Router.App.Keys.{limit_key_for_sound}

-- a declared length that is no text of digits, or is a number that is at most the cap
abbrev pub IsShort : Unicode → ℕ → Option String → Type 0
IsShort u cap none = Unit
IsShort u cap (some text) =
    (isdigit u text ≡ false) ⊎ ((n : ℕ) × (read_number u text ≡ some n) × (n ≤ cap))

-- a value that is absent, null, false, 0 or empty
abbrev pub IsFalsy : {F : Type 0} → Web F → Option (Json F) → Type 0
IsFalsy web none = Unit
IsFalsy web (some null) = Unit
IsFalsy web (some (bool b)) = b ≡ false
IsFalsy web (some (int n)) = n ≡ pos 0
IsFalsy web (some (float x)) = web.is_zero x ≡ true
IsFalsy web (some (str s)) = s ≡ ""
IsFalsy web (some (arr xs)) = xs ≡ nil
IsFalsy web (some (obj fs)) = fs ≡ end

-- the header is the scheme `bearer`, in any case, and an API key that is registered for a tenant; the
-- limit key is the tenant, a colon and the API key
pub record IsCaller (u : Unicode) (api_keys : List (String × String)) (header key : String)
    : Type 0 where
  pub api_key : String
  pub tenant : String
  pub scheme : u.lower (partition_blank header).0 ≡ "bearer"
  pub credential : u.strip (partition_blank header).1 ≡ api_key
  pub is_filled : str_eq api_key "" ≡ false
  pub registered : Mem (api_key, tenant) api_keys
  pub owner : key ≡ joined tenant (joined ":" api_key)

tenant_of-Mem :
    (api_keys : List (String × String)) (key tenant : String)
    → tenant_of api_keys key ≡ some tenant
    → Mem (key, tenant) api_keys
unfolding tenant_of
tenant_of-Mem [] key tenant found = absurd (cc)
tenant_of-Mem ((known, t) ∷ rest) key tenant found = elim (Bool-cases (str_eq known key)) [
  | inl same ↦
      let is_tenant : t ≡ tenant = some-injective t tenant (rw same at found) in
      let is_key : known ≡ key = (eq_iff known key).0 same in rw (is_tenant, is_key) mem-cons_self
  | inr other ↦ mem-cons_of_mem (known, t) (tenant_of-Mem rest key tenant (rw other at found))
]

api_key_of-IsBearer :
    (u : Unicode) (header key : String)
    → api_key_of u header ≡ some key
    → (u.lower (partition_blank header).0 ≡ "bearer")
      × (u.strip (partition_blank header).1 ≡ key)
      × (str_eq key "" ≡ false)
unfolding api_key_of
api_key_of-IsBearer u header key named =
    let scheme = u.lower (partition_blank header).0 in
    let token = u.strip (partition_blank header).1 in
    elim (Bool-cases (str_eq scheme "bearer")) [
      | inr other ↦ absurd (cc (rw other at named))
      | inl bearer ↦ elim (Bool-cases (str_eq token "")) [
        | inl empty ↦ absurd (cc (rw (bearer, empty) at named))
        | inr filled ↦
            let same : token ≡ key = some-injective token key (rw (bearer, filled) at named) in
            ((eq_iff scheme "bearer").0 bearer, same, subst (λ t. str_eq t "" ≡ false) same filled)
      ]
    ]

pub limit_key_for-IsCaller :
    (u : Unicode) (api_keys : List (String × String)) (header key : String)
    → limit_key_for u api_keys header ≡ some key
    → IsCaller u api_keys header key
unfolding limit_key
limit_key_for-IsCaller u api_keys header key e =
    let (api_key, tenant, named, known, is_limit) = limit_key_for_sound u api_keys header key e in
    let (scheme, credential, filled) = api_key_of-IsBearer u header api_key named in
    record {
      api_key = api_key;
      tenant = tenant;
      scheme = scheme;
      credential = credential;
      is_filled = filled;
      registered = tenant_of-Mem api_keys api_key tenant known;
      owner = is_limit;
    }

pub declares_too_large-IsShort :
    (u : Unicode) (cap : ℕ) (declared : Option String)
    → declares_too_large u cap declared ≡ some false
    → IsShort u cap declared
unfolding declares_too_large int_of
declares_too_large-IsShort u cap none e = tt
declares_too_large-IsShort u cap (some text) e = elim (Bool-cases (isdigit u text)) [
  | inr other ↦ inl other
  | inl digits ↦ elim (Bool-cases (ltb 4300 (text_length text))) [
    | inl long ↦ absurd (cc (rw (digits, long) at e))
    | inr brief ↦ elim (Option-cases (read_number u text)) [
      | inl failed ↦ absurd (cc (rw (digits, brief, failed) at e))
      | inr (n, read) ↦
          let under : ltb cap n ≡ false =
            some-injective (ltb cap n) false (rw (digits, brief, read) at e) in
          inr (n, read, ground arith)
    ]
  ]
]

pub receive-arrived :
    (cap : ℕ) (chunks : List Bytes) (gone : Bool) (raw : Bytes)
    → receive cap 0 [] chunks gone ≡ received raw
    → (length (join chunks) ≤ cap) × (gone ≡ false) × (raw ≡ join chunks)
receive-arrived cap chunks gone raw e = elim (Bool-cases (leb (length (join chunks)) cap)) [
  | inr over ↦ absurd (cc (rw (receive_exact cap chunks gone, over) at e))
  | inl short ↦ elim (Bool-cases gone) [
    | inl left ↦ absurd (cc (rw (receive_exact cap chunks gone, short, left) at e))
    | inr stays ↦
        let same : received (join chunks) ≡ received raw =
          rw (receive_exact cap chunks gone, short, stays) at e in
        (ground arith, stays, cc)
  ]
]

pub is_filled_list-cons :
    {F : Type 0} (v : Option (Json F))
    → is_filled_list v ≡ true
    → (first : Json F) × (others : Items F) × (v ≡ some (arr (cons first others)))
unfolding is_filled_list
is_filled_list-cons (some (arr (cons first others))) filled = (first, others, refl)
is_filled_list-cons (some (arr nil)) filled = absurd (cc)
is_filled_list-cons (some null) filled = absurd (cc)
is_filled_list-cons (some (bool b)) filled = absurd (cc)
is_filled_list-cons (some (int n)) filled = absurd (cc)
is_filled_list-cons (some (float x)) filled = absurd (cc)
is_filled_list-cons (some (str s)) filled = absurd (cc)
is_filled_list-cons (some (obj fs)) filled = absurd (cc)
is_filled_list-cons none filled = absurd (cc)

pub is_truthy-IsFalsy :
    {F : Type 0} (web : Web F) (v : Option (Json F)) → is_truthy web v ≡ false → IsFalsy web v
unfolding is_truthy
is_truthy-IsFalsy web none e = tt
is_truthy-IsFalsy web (some null) e = tt
is_truthy-IsFalsy web (some (bool b)) e = e
is_truthy-IsFalsy web (some (int (pos n))) e = ap pos (ground arith)
is_truthy-IsFalsy web (some (int (negsuc n))) e = absurd (cc)
is_truthy-IsFalsy web (some (float x)) e = ground arith
is_truthy-IsFalsy web (some (str s)) e =
    let empty : str_eq s "" ≡ true = ground arith in (eq_iff s "").0 empty
is_truthy-IsFalsy web (some (arr nil)) e = refl
is_truthy-IsFalsy web (some (arr (cons x xs))) e = absurd (cc)
is_truthy-IsFalsy web (some (obj end)) e = refl
is_truthy-IsFalsy web (some (obj (field k x fs))) e = absurd (cc)
