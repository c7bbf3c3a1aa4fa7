-- ===== src/Server/Session/Pairing.antt =====
-- That each message is seen with its own line: `LineRecordingInput` of task1_mcp_server/server.py. The
-- transport reads ahead; it makes one message of each line, in order.
use mathlib.Core.List.{append_assoc, map-append}
use fde_assessment.Base.{
  ◌≡◌, refl, sym, ap, ◌∙◌, subst, String, List, [], ◌∷◌, ◌++◌, map, All, All-append,
}
use fde_assessment.Server.Frames.{Message}

-- the recorder's lines, the messages in the read stream, and the pairs that the pump has taken
pub record Reader (F : Type 0) : Type 0 where
  pub lines : List String
  pub stream : List (Message F)
  pub seen : List (String × Message F)

-- `self.lines.popleft() if self.lines else ""`
abbrev pub take_line : List String → String × List String
take_line [] = ("", [])
take_line (line ∷ rest) = (line, rest)

module _ {F : Type 0} (parsed : String → Message F) where
  abbrev pub new_reader : Reader F
  new_reader = record { lines = []; stream = []; seen = [] }

  -- `__anext__`, and what the transport makes of the line
  unfoldable pub read_line : String → Reader F → Reader F
  read_line line r = record r {
    lines = r.lines ++ line ∷ [];
    stream = r.stream ++ parsed line ∷ [];
  }

  -- the pump's `async for`, and its `recorder.take()`
  abbrev pub take_next : List (Message F) → Reader F → Reader F
  take_next [] r = r
  take_next (m ∷ rest) r = record {
    lines = (take_line r.lines).1;
    stream = rest;
    seen = r.seen ++ ((take_line r.lines).0, m) ∷ [];
  }

  unfoldable pub pump_next : Reader F → Reader F
  pump_next r = take_next r.stream r

  -- the orders in which the transport reads and the pump takes
  pub data Interleaving : List String → Reader F → Type 0 where
    start : Interleaving [] new_reader
    reads :
        {input : List String} {r : Reader F}
        → (line : String) → Interleaving input r
        → Interleaving (input ++ line ∷ []) (read_line line r)
    takes :
        {input : List String} {r : Reader F}
        → Interleaving input r
        → Interleaving input (pump_next r)

  -- a line with what the transport makes of it
  abbrev pub IsPair : String × Message F → Type 0
  IsPair (line, m) = m ≡ parsed line

  abbrev pub line_of : String × Message F → String
  line_of (line, m) = line

  abbrev pub IsPaired : List String → Reader F → Type 0
  IsPaired input r =
      All IsPair r.seen × (map line_of r.seen ++ r.lines ≡ input) × (r.stream ≡ map parsed r.lines)

  abbrev in_step : List String → List (String × Message F) → Reader F
  in_step lines seen = record { lines = lines; stream = map parsed lines; seen = seen }

  pump_next-IsPaired :
      (lines : List String) (seen : List (String × Message F)) (input : List String)
      → All IsPair seen
      → map line_of seen ++ lines ≡ input
      → IsPaired input (pump_next (in_step lines seen))
  unfolding pump_next
  pump_next-IsPaired [] seen input pairs whole = (pairs, whole, refl)
  pump_next-IsPaired (line ∷ rest) seen input pairs whole = (
    All-append IsPair seen ((line, parsed line) ∷ []) pairs (refl, tt),
    ap (λ xs. xs ++ rest) (map-append line_of seen ((line, parsed line) ∷ []))
        ∙ append_assoc (map line_of seen) (line ∷ []) rest
        ∙ whole,
    refl,
  )

  -- Whatever the reader's lead, each message that the pump takes comes with the line that it was made
  -- of, the lines in their order, and those not taken yet are still recorded.
  pub taken_with_its_line :
      {input : List String} {r : Reader F} → Interleaving input r → IsPaired input r
  unfolding read_line
  taken_with_its_line start = (tt, refl, refl)
  taken_with_its_line (reads {input} {r} line i) =
      let (pairs, whole, ahead) = taken_with_its_line i in
      (
        pairs,
        sym (append_assoc (map line_of r.seen) r.lines (line ∷ []))
            ∙ ap (λ xs. xs ++ line ∷ []) whole,
        ap (λ ms. ms ++ parsed line ∷ []) ahead ∙ sym (map-append parsed r.lines (line ∷ [])),
      )
  taken_with_its_line (takes {input} {r} i) =
      let (pairs, whole, ahead) = taken_with_its_line i in
      subst
        (λ st. IsPaired input (pump_next (record { lines = r.lines; stream = st; seen = r.seen })))
        (sym ahead) (pump_next-IsPaired r.lines r.seen input pairs whole)
