-- ===== src/Gateway/Headers.antt =====
-- What the gateway puts in headers: `_ascii_header`, `request_reference`, `downstream_headers` of
-- task2_mcp_gateway/gateway.py. `headers.get` of the incoming request is a function.
pub mod Safe
use Prim.Native.Char.{Char, code}
use Prim.Native.String.{◌++◌}
use text.Mathlib.Text.{◌==◌ as str_eq}
use fde_assessment.Base.{
  ℕ, zero, suc, String, Bool, true, false, not, ◌&&◌, ◌||◌, Option, none, some, List, [], ◌∷◌,
  if◌then◌else◌, ltb, leb,
}
use fde_assessment.Base.Unicode.{Unicode, is_ascii, text_length}
use fde_assessment.Gateway.Auth.{Principal}

-- a response's or a request's headers, in the order in which they are set
abbrev pub Headers : Type 0
Headers = List (String × String)

-- `s[:limit]`
unfoldable pub take_text : ℕ → String → String
take_text zero s = ""
take_text (suc n) String.[] = ""
take_text (suc n) (String.◌∷◌ c s) = String.◌∷◌ c (take_text n s)

abbrev pub blank : Char
blank = " "

abbrev pub question_mark : Char
question_mark = "?"

-- `encode("ascii", "replace")`, then a blank for what is not printable
abbrev pub emitted_char : Unicode → Char → Char
emitted_char u c =
    let replaced = if ltb (code c) 128 then c else question_mark in
    if u.is_printable replaced then replaced else blank

unfoldable pub emitted : Unicode → String → String
emitted u String.[] = ""
emitted u (String.◌∷◌ c s) = String.◌∷◌ (emitted_char u c) (emitted u s)

-- `_ascii_header`
unfoldable pub ascii_header : Unicode → String → String
unfolding take_text emitted
ascii_header u value = take_text 200 (emitted u value)

-- `s.isprintable()`
unfoldable pub isprintable : Unicode → String → Bool
isprintable u String.[] = true
isprintable u (String.◌∷◌ c s) = u.is_printable c && isprintable u s

-- `request_reference`, where `fresh` is what `uuid4` gives
unfoldable pub request_reference : Unicode → String → Option String → String
unfolding isprintable is_ascii text_length
request_reference u fresh none = fresh
request_reference u fresh (some supplied) =
    if not (str_eq supplied "")
      && (is_ascii supplied
          && (isprintable u supplied
              && (ltb 0 (text_length supplied) && leb (text_length supplied) 200)))
    then supplied
    else fresh

-- a value that is there, not empty and ASCII is passed on
unfoldable pub pass_on : Unicode → String → Option String → Headers → Headers
unfolding ascii_header is_ascii
pass_on u name none rest = rest
pass_on u name (some value) rest =
    if not (str_eq value "") && is_ascii value then (name, ascii_header u value) ∷ rest else rest

-- `downstream_headers`
unfoldable pub downstream_headers :
    Unicode → String → Principal → String → (String → Option String) → Headers
unfolding pass_on ascii_header
downstream_headers u service_token principal request_ref incoming =
    ("content-type", "application/json")
    ∷ ("accept", "application/json, text/event-stream")
    ∷ ("accept-encoding", "identity")
    ∷ ("authorization", "Bearer " ++ service_token)
    ∷ ("x-mcp-user", ascii_header u principal.subject)
    ∷ ("x-mcp-role", ascii_header u principal.role)
    ∷ ("x-request-id", ascii_header u request_ref)
    ∷ pass_on u "mcp-session-id" (incoming "mcp-session-id")
        (pass_on u "mcp-protocol-version" (incoming "mcp-protocol-version") [])
