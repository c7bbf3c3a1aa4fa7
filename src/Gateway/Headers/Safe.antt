-- ===== src/Gateway/Headers/Safe.antt =====
-- The headers that leave the gateway are safe to emit: task2_mcp_gateway/gateway.py.
use Prim.Native.Char.{Char, code}
use Prim.Native.String.{◌++◌}
use text.Mathlib.Text.{◌==◌ as str_eq}
use fde_assessment.Base.{
  ℕ, zero, suc, ◌≤◌, String, ◌≡◌, ◌∙◌, refl, Bool, true, false, not, ◌&&◌, Option, none, some, [],
  ◌∷◌, ltb, leb, arith, Bool-cases, le→leb, inl, inr, All, keep, ◌||◌,
}
use fde_assessment.Base.Unicode.{Unicode, is_ascii, text_length}
use fde_assessment.Gateway.Auth.{Principal}
use fde_assessment.Gateway.Headers.{
  Headers, take_text, emitted_char, emitted, ascii_header, isprintable, pass_on, downstream_headers,
  blank, question_mark,
}

-- a header value that cannot split a header and that httpx takes
abbrev pub is_safe : Unicode → String → Bool
is_safe u s = is_ascii s && (isprintable u s && leb (text_length s) 200)

module _ (u : Unicode) (blank_prints : u.is_printable blank ≡ true) where
  emitted-char_safe :
      (c : Char)
      → (ltb (code (emitted_char u c)) 128 ≡ true) × (u.is_printable (emitted_char u c) ≡ true)
  emitted-char_safe c = elim (Bool-cases (ltb (code c) 128)) [
    | inl low ↦ elim (Bool-cases (u.is_printable c)) [
      | inl prints ↦ (rw (low, prints, low), rw (low, prints, prints))
      | inr hidden ↦ (rw (low, hidden), rw (low, hidden, blank_prints))
    ]
    | inr high ↦ elim (Bool-cases (u.is_printable question_mark)) [
      | inl prints ↦ (rw (high, prints), rw (high, prints, prints))
      | inr hidden ↦ (rw (high, hidden), rw (high, hidden, blank_prints))
    ]
  ]

  is_ascii-take_text-emitted : (n : ℕ) (s : String) → is_ascii (take_text n (emitted u s)) ≡ true
  unfolding is_ascii take_text emitted
  is_ascii-take_text-emitted zero s = refl
  is_ascii-take_text-emitted (suc n) String.[] = refl
  is_ascii-take_text-emitted (suc n) (String.◌∷◌ c s) =
      rw ((emitted-char_safe c).0, is_ascii-take_text-emitted n s)

  isprintable-take_text-emitted :
      (n : ℕ) (s : String) → isprintable u (take_text n (emitted u s)) ≡ true
  unfolding isprintable take_text emitted
  isprintable-take_text-emitted zero s = refl
  isprintable-take_text-emitted (suc n) String.[] = refl
  isprintable-take_text-emitted (suc n) (String.◌∷◌ c s) =
      rw ((emitted-char_safe c).1, isprintable-take_text-emitted n s)

  length-take_text : (n : ℕ) (s : String) → text_length (take_text n s) ≤ n
  unfolding take_text text_length
  length-take_text zero s = omega arith
  length-take_text (suc n) String.[] = omega arith
  length-take_text (suc n) (String.◌∷◌ c s) = let rest = length-take_text n s in omega arith

  ascii_header-is_safe : (s : String) → is_safe u (ascii_header u s) ≡ true
  unfolding ascii_header
  ascii_header-is_safe s = rw (
    is_ascii-take_text-emitted 200 s,
    isprintable-take_text-emitted 200 s,
    le→leb (text_length (take_text 200 (emitted u s))) 200 (length-take_text 200 (emitted u s)),
  )

  pass_on-safe :
      (name : String) (value : Option String) (rest : Headers)
      → All (λ h. is_safe u h.1 ≡ true) rest
      → All (λ h. is_safe u h.1 ≡ true) (pass_on u name value rest)
  unfolding pass_on
  pass_on-safe name none rest safe = safe
  pass_on-safe name (some value) rest safe =
      elim (Bool-cases (not (str_eq value "") && is_ascii value)) [
        | inl usable ↦ rw usable (ascii_header-is_safe value, safe)
        | inr other ↦ rw other safe
      ]

  -- Where a blank is printable and the gateway's own authorization value is ASCII, printable and of
  -- at most 200 characters, so is every header that the gateway sends downstream, whatever the
  -- client's identity, request id and headers hold.
  pub downstream_headers_safe :
      (service_token : String) (principal : Principal) (request_ref : String)
      (incoming : String → Option String)
      → All
          (λ s. isprintable u s ≡ true)
          ("application/json" ∷ "application/json, text/event-stream" ∷ "identity" ∷ [])
      → is_safe u ("Bearer " ++ service_token) ≡ true
      → All
          (λ h. is_safe u h.1 ≡ true)
          (downstream_headers u service_token principal request_ref incoming)
  unfolding downstream_headers text_length
  downstream_headers_safe service_token principal request_ref incoming fixed own =
      let passed : All (λ h. is_safe u h.1 ≡ true)
          (pass_on u "mcp-session-id" (incoming "mcp-session-id")
            (pass_on u "mcp-protocol-version" (incoming "mcp-protocol-version") [])) =
        pass_on-safe "mcp-session-id" (incoming "mcp-session-id")
          (pass_on u "mcp-protocol-version" (incoming "mcp-protocol-version") [])
          (pass_on-safe "mcp-protocol-version" (incoming "mcp-protocol-version") [] tt) in
      (
        rw (fixed.0, text_length),
        (
          rw (fixed.1.0, text_length),
          (
            rw (fixed.1.1.0, text_length),
            (
              own,
              (
                ascii_header-is_safe principal.subject,
                (ascii_header-is_safe principal.role, (ascii_header-is_safe request_ref, passed)),
              ),
            ),
          ),
        ),
      )

-- the two headers of an MCP session
abbrev pub is_session_header : String × String → Bool
is_session_header h = str_eq h.0 "mcp-session-id" || str_eq h.0 "mcp-protocol-version"

abbrev pub own_headers : Headers → Headers
own_headers hs = keep (λ h. not (is_session_header h)) hs

keep-pass_on :
    (u : Unicode) (p : String × String → Bool) (name : String) (value : Option String)
    (rest : Headers)
    → ((v : String) → p (name, v) ≡ false)
    → keep p (pass_on u name value rest) ≡ keep p rest
unfolding pass_on
keep-pass_on u p name none rest out = refl
keep-pass_on u p name (some value) rest out =
    elim (Bool-cases (not (str_eq value "") && is_ascii value)) [
      | inl usable ↦ rw (usable, out (ascii_header u value))
      | inr other ↦ rw other
    ]

-- what `p` keeps of the headers that the client has a say in
keep-session :
    (u : Unicode) (p : String × String → Bool) (incoming : String → Option String)
    → ((v : String) → p ("mcp-session-id", v) ≡ false)
    → ((v : String) → p ("mcp-protocol-version", v) ≡ false)
    → keep p (
        pass_on u "mcp-session-id"
          (incoming "mcp-session-id")
          (pass_on u "mcp-protocol-version" (incoming "mcp-protocol-version") []))
      ≡ []
keep-session u p incoming out out' =
    keep-pass_on u p "mcp-session-id" (incoming "mcp-session-id")
      (pass_on u "mcp-protocol-version" (incoming "mcp-protocol-version") []) out
    ∙ keep-pass_on u p "mcp-protocol-version" (incoming "mcp-protocol-version") [] out'

-- Apart from the two headers of an MCP session, what the gateway sends downstream does not depend
-- on the client's headers, and the only authorization value in it is the gateway's own token.
pub downstream_headers_own :
    (u : Unicode) (service_token : String) (principal : Principal) (request_ref : String)
    (incoming other : String → Option String)
    → (own_headers (downstream_headers u service_token principal request_ref incoming)
        ≡ own_headers (downstream_headers u service_token principal request_ref other))
      × (keep
            (λ h. str_eq h.0 "authorization")
            (downstream_headers u service_token principal request_ref incoming)
          ≡ ("authorization", "Bearer " ++ service_token) ∷ [])
unfolding downstream_headers
downstream_headers_own u service_token principal request_ref incoming other =
    let own = keep-session u (λ h. not (is_session_header h)) in
    let auth = keep-session u (λ h. str_eq h.0 "authorization") in
    (
      rw (own incoming (λ v. refl) (λ v. refl), own other (λ v. refl) (λ v. refl)),
      rw (auth incoming (λ v. refl) (λ v. refl)),
    )
