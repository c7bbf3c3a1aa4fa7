-- ===== src/Gateway/Auth.antt =====
-- Bearer authentication: task2_mcp_gateway/auth.py and `sole_authorization_header` of gateway.py.
-- `hmac.compare_digest` is equality of its two texts; the registered tokens are ASCII.
use Prim.Native.Char.{code}
use mathlib.Core.Option.{some-injective}
use text.Mathlib.Text.{◌==◌ as str_eq}
use fde_assessment.Base.{
  String, ◌≡◌, refl, not, ◌||◌, Option, none, some, List, [], ◌∷◌, if◌then◌else◌, arith, eq_iff,
  Bool-cases, inl, inr, ◌⊎◌, ◌==◌,
}
use fde_assessment.Base.Unicode.{Unicode, is_ascii}

pub record Principal : Type 0 where
  pub subject : String
  pub role : String

-- the messages of `AuthError`, which reach the log and not the client
pub data AuthError : Type 0 where
  missing malformed non_ascii unknown repeated : AuthError

pub data Auth (A : Type 0) : Type 0 where
  ok : A → Auth A
  err : AuthError → Auth A

-- `header.partition(" ")`: what stands before the first blank, and what after it
unfoldable pub partition_blank : String → String × String
partition_blank String.[] = ("", "")
partition_blank (String.◌∷◌ c s) =
    let (scheme, token) = partition_blank s in
    if code c == 32 then ("", s) else (String.◌∷◌ c scheme, token)

-- the loop over the registered tokens: the last match wins
unfoldable pub find_token : List (String × Principal) → String → Option Principal → Option Principal
find_token [] candidate found = found
find_token ((known, principal) ∷ rest) candidate found =
    find_token rest candidate (if str_eq known candidate then some principal else found)

abbrev pub or_unknown : Option Principal → Auth Principal
or_unknown none = err unknown
or_unknown (some p) = ok p

-- `sole_authorization_header`
unfoldable pub sole_authorization_header : List String → Auth (Option String)
sole_authorization_header [] = ok none
sole_authorization_header (v ∷ []) = ok (some v)
sole_authorization_header (v ∷ w ∷ rest) = err repeated

module _ (u : Unicode) (tokens : List (String × Principal)) where
  -- the part of `principal_from_header` after the partition
  unfoldable pub check_credential : String → String → Auth Principal
  unfolding find_token
  check_credential scheme token =
      if not (str_eq (u.lower scheme) "bearer") || str_eq token ""
      then err malformed
      else if not (is_ascii token)
      then err non_ascii
      else or_unknown (find_token tokens token none)

  -- `principal_from_header`; an empty header counts as none
  unfoldable pub principal_from_header : Option String → Auth Principal
  unfolding check_credential partition_blank
  principal_from_header none = err missing
  principal_from_header (some header) =
      let (scheme, token) = partition_blank header in
      if str_eq header "" then err missing else check_credential scheme token

  -- `resolved_verifier.principal_from_header(sole_authorization_header(request))`
  unfoldable pub authenticate : List String → Auth Principal
  unfolding principal_from_header sole_authorization_header
  authenticate headers = elim (sole_authorization_header headers) [
    | err e ↦ err e
    | ok header ↦ principal_from_header header
  ]

-- a token is registered for this principal
abbrev pub IsRegistered : String → Principal → List (String × Principal) → Type 0
IsRegistered token p [] = ⊥
IsRegistered token p ((known, principal) ∷ rest) =
    ((known ≡ token) × (principal ≡ p)) ⊎ IsRegistered token p rest

or_unknown_sound :
    (found : Option Principal) (p : Principal) → or_unknown found ≡ ok p → found ≡ some p
or_unknown_sound none p e = absurd (cc)
or_unknown_sound (some q) p e = cc

find_token_sound :
    (tokens : List (String × Principal)) (candidate : String) (found : Option Principal)
    (p : Principal)
    → find_token tokens candidate found ≡ some p
    → IsRegistered candidate p tokens ⊎ (found ≡ some p)
unfolding find_token
find_token_sound [] candidate found p e = inr e
find_token_sound ((known, principal) ∷ rest) candidate found p e =
    elim (find_token_sound rest candidate (if str_eq known candidate then some principal else found)
      p e) [
        | inl r ↦ inl (inr r)
        | inr here ↦ elim (Bool-cases (str_eq known candidate)) [
          | inl same ↦
              inl (
                inl ((eq_iff known candidate).0 same, some-injective principal p (rw same at here)))
          | inr other ↦ inr (rw other at here)
        ]
      ]

check_credential_sound :
    (u : Unicode) (tokens : List (String × Principal)) (scheme token : String) (p : Principal)
    → check_credential u tokens scheme token ≡ ok p
    → (u.lower scheme ≡ "bearer") × IsRegistered token p tokens
unfolding check_credential
check_credential_sound u tokens scheme token p e =
    elim (Bool-cases (str_eq (u.lower scheme) "bearer")) [
      | inr other ↦ absurd (ground arith)
      | inl bearer ↦ elim (Bool-cases (str_eq token "")) [
        | inl empty ↦ absurd (ground arith)
        | inr filled ↦ elim (Bool-cases (is_ascii token)) [
          | inr foreign ↦ absurd (ground arith)
          | inl ascii ↦
              let found : or_unknown (find_token tokens token none) ≡ ok p = ground arith in
              (
                (eq_iff (u.lower scheme) "bearer").0 bearer,
                elim (find_token_sound tokens token none p
                    (or_unknown_sound (find_token tokens token none) p found)) [
                      | inl r ↦ r
                      | inr bad ↦ absurd (cc)
                    ],
              )
        ]
      ]
    ]

-- Who is authenticated has sent exactly one Authorization header, of the scheme bearer in any case,
-- whose credential is, to the letter, a token registered for that principal.
pub authenticate_sound :
    (u : Unicode) (tokens : List (String × Principal)) (headers : List String) (p : Principal)
    → authenticate u tokens headers ≡ ok p
    → (header : String) × (headers ≡ header ∷ [])
      × (u.lower (partition_blank header).0 ≡ "bearer")
      × IsRegistered (partition_blank header).1 p tokens
unfolding authenticate
authenticate_sound u tokens [] p e = absurd (cc)
authenticate_sound u tokens (h ∷ k ∷ rest) p e = absurd (cc)
authenticate_sound u tokens (h ∷ []) p e = elim (Bool-cases (str_eq h "")) [
  | inl empty ↦ absurd (ground arith)
  | inr filled ↦
      let (scheme, token) = partition_blank h in
      let checked : check_credential u tokens scheme token ≡ ok p = ground arith in
      let (bearer, registered) = check_credential_sound u tokens scheme token p checked in
      (h, refl, bearer, registered)
]
