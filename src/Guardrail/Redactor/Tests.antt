-- ===== src/Guardrail/Redactor/Tests.antt =====
-- Runs of the redactor of task3_streaming_guardrail/redactor.py with a small engine, which finds the
-- word "42", and each property at a concrete input.
use mathlib.Core.Option.{none-ne-some, some-injective}
use fde_assessment.Base.{
  ℕ, zero, suc, ◌+◌, ◌-◌, ◌≤◌, ◌<◌, ◌≡◌, ◌⊎◌, inl, inr, refl, subst, Bool, true, false, ◌&&◌,
  Option, none, some, List, [], ◌∷◌, ◌++◌, length, All, if◌then◌else◌, leb, ◌==◌, arith, Bool-cases,
}
use fde_assessment.Base.Slices.{get_elem?}
use fde_assessment.Guardrail.Redactor.{
  Text, Match, Unicode, Engine, Config, IsWithin, IsLawful, IsSound,
}
use fde_assessment.Guardrail.Redactor.Cards.{luhn_ok, is_card}
use fde_assessment.Guardrail.Redactor.Cards.Checksum.{luhn_ok_detects_digit}
use fde_assessment.Guardrail.Redactor.Scan.{scan}
use fde_assessment.Guardrail.Redactor.Scan.Accounted.{IsAccounted, scan_passes_over_nothing}
use fde_assessment.Guardrail.Redactor.FixedPoint.{valid_matches}
use fde_assessment.Guardrail.Redactor.Stream.{
  context_chars, emit, fresh, new_redactor, feed, flush, feed_all,
}
use fde_assessment.Guardrail.Redactor.Stream.Pieces.{Piece, raw_of, shown}
use fde_assessment.Guardrail.Redactor.Stream.Released.{
  all_chunks, stream_pieces, stream_output, spans_of,
}
use fde_assessment.Guardrail.Redactor.Stream.Whole.{stream_output-shown, pending_bounded}
use fde_assessment.Guardrail.Redactor.Stream.Covered.{IsMaskedBy, IsHeld, emit_masks_or_holds}

abbrev ascii : Unicode
ascii = record {
  is_digit = λ c. leb 48 c && leb c 57;
  is_alnum = λ c. leb 48 c && leb c 57;
  lower = λ t. t;
  value = λ c. if leb 48 c && leb c 57 then c - 48 else 0;
}

-- whether "42" stands at a position, and ends by another
abbrev stands : Text → ℕ → ℕ → Bool
stands text pos endpos =
    leb (pos + 2) endpos
    && (leb endpos (length text) && (char_at pos == 52 && char_at (pos + 1) == 50))
  where
    char_at : ℕ → ℕ
    char_at i = elim (get_elem? text i) [ none ↦ 0 | some c ↦ c ]

abbrev find_word : ℕ → Text → ℕ → ℕ → Option Match
find_word zero text pos endpos = none
find_word (suc left) text pos endpos =
    let rest = find_word left text (pos + 1) endpos in
    if stands text pos endpos
    then some (record { start = pos; stop = pos + 2; name = "word" })
    else rest

abbrev word : Engine
word = record {
  search = λ text pos endpos. find_word (endpos - pos) text pos endpos;
  fullmatch = λ text pos endpos.
      if endpos == pos + 2 && stands text pos endpos
      then some (record { start = pos; stop = endpos; name = "word" })
      else none;
  match_at = λ text pos.
      if stands text pos (length text)
      then some (record { start = pos; stop = pos + 2; name = "word" })
      else none;
  could_grow =
      λ text index. length text == index + 1 && stands (text ++ (50 ∷ [])) index (index + 2);
}

abbrev small : Config
small = record {
  unicode = ascii;
  combined = word;
  keyword_ssn = word;
  find_keyword_ssn = λ text pos. [];
  rescue = none;
  validator = λ name. none;
  placeholder = 35 ∷ [];
  max_holdback = 1024;
  is_first_char = λ c. c == 52;
}

-- "a4", "2b", "42"
abbrev chunks : List Text
chunks = (97 ∷ 52 ∷ []) ∷ (50 ∷ 98 ∷ []) ∷ (52 ∷ 50 ∷ []) ∷ []

masked_output : stream_output small fresh chunks ≡ 97 ∷ 35 ∷ 98 ∷ 35 ∷ []
unfolding feed_all flush valid_matches
masked_output = refl

held_back : (feed small fresh (97 ∷ 52 ∷ [])).0 ≡ 97 ∷ []
unfolding feed valid_matches
held_back = refl

accepts_visa :
    is_card ascii
      (52 ∷ 49 ∷ 49 ∷ 49 ∷ 49 ∷ 49 ∷ 49 ∷ 49 ∷ 49 ∷ 49 ∷ 49 ∷ 49 ∷ 49 ∷ 49 ∷ 49 ∷ 49 ∷ [])
    ≡ true
unfolding is_card
accepts_visa = refl

stands-fits :
    (text : Text) (pos endpos : ℕ)
    → stands text pos endpos ≡ true
    → (pos + 2 ≤ endpos) × (endpos ≤ length text)
stands-fits text pos endpos h = (ground arith, ground arith)

find-IsWithin :
    (left : ℕ) (text : Text) (pos endpos : ℕ) (m : Match)
    → find_word left text pos endpos ≡ some m
    → IsWithin pos endpos m
find-IsWithin zero text pos endpos m found = absurd (none-ne-some m found)
find-IsWithin (suc left) text pos endpos m found = elim (Bool-cases (stands text pos endpos)) [
  | inl here ↦
      subst (IsWithin pos endpos)
        (some-injective (record { start = pos; stop = pos + 2; name = "word" }) m
          (rw here at found))
        (omega arith, omega arith, (stands-fits text pos endpos here).0)
  | inr further ↦
      let (from, spans, upto) = find-IsWithin left text (pos + 1) endpos m (rw further at found) in
      (omega (arith, from), spans, upto)
]

fullmatch-exact :
    (text : Text) (pos endpos : ℕ) (m : Match)
    → pos ≤ endpos
    → endpos ≤ length text
    → word.fullmatch text pos endpos ≡ some m
    → (m.start ≡ pos) × (m.stop ≡ endpos) × (pos < endpos)
fullmatch-exact text pos endpos m low high found =
    elim (Bool-cases (endpos == pos + 2 && stands text pos endpos)) [
      | inl here ↦
          let whole : endpos ≡ pos + 2 = ground arith in
          subst (λ m. (m.start ≡ pos) × (m.stop ≡ endpos) × (pos < endpos))
            (some-injective (record { start = pos; stop = endpos; name = "word" }) m
              (rw here at found))
            (refl, refl, omega arith)
      | inr other ↦ absurd (none-ne-some m (rw other at found))
    ]

match_at-within :
    (text : Text) (pos : ℕ) (m : Match)
    → word.match_at text pos ≡ some m
    → (m.start ≡ pos) × (pos < m.stop) × (m.stop ≤ length text)
match_at-within text pos m found = elim (Bool-cases (stands text pos (length text))) [
  | inl here ↦
      subst (λ m. (m.start ≡ pos) × (pos < m.stop) × (m.stop ≤ length text))
        (some-injective (record { start = pos; stop = pos + 2; name = "word" }) m
          (rw here at found))
        (refl, omega arith, (stands-fits text pos (length text) here).0)
  | inr other ↦ absurd (none-ne-some m (rw other at found))
]

word-IsLawful : IsLawful word
word-IsLawful = record {
  search_within = λ text pos endpos m found. find-IsWithin (endpos - pos) text pos endpos m found;
  fullmatch_exact = fullmatch-exact;
  match_at_within = match_at-within;
}

small-IsSound : IsSound small
small-IsSound = record {
  combined_lawful = word-IsLawful;
  rescue_lawful = tt;
  found_within = λ text pos. tt;
}

small-made : new_redactor small ≡ some fresh
unfolding new_redactor
small-made = refl

stream_output-shown_example :
    (raw_of (stream_pieces small fresh chunks) ≡ all_chunks chunks)
    × (stream_output small fresh chunks
        ≡ shown small.placeholder (stream_pieces small fresh chunks))
stream_output-shown_example = stream_output-shown small small-IsSound fresh chunks small-made

pending_bounded_example :
    (length (feed_all small fresh chunks).1.buffer ≤ small.max_holdback)
    × (length (feed_all small fresh chunks).1.context ≤ context_chars)
pending_bounded_example = pending_bounded small small-IsSound fresh chunks small-made

-- the word, and the first digit of another
abbrev two_words : Text
two_words = 97 ∷ 52 ∷ 50 ∷ 98 ∷ 52 ∷ []

emit_masks_or_holds_example :
    let (out, after) = emit small fresh two_words false in
    (ps : List Piece) × (raw_of ps ++ after.buffer ≡ two_words)
    × (out ≡ shown small.placeholder ps)
    × All
        (λ m. IsMaskedBy two_words ps 0 m ⊎ IsHeld two_words after.buffer m)
        (spans_of small fresh two_words)
emit_masks_or_holds_example = emit_masks_or_holds small small-IsSound fresh two_words false

scan_passes_over_nothing_example :
    IsAccounted small (97 ∷ 52 ∷ 50 ∷ []) 3 0 1 (scan small (97 ∷ 52 ∷ 50 ∷ []) 0 3)
scan_passes_over_nothing_example =
    scan_passes_over_nothing small (97 ∷ 52 ∷ 50 ∷ []) 3 word-IsLawful 0 1 (omega arith)
      (omega arith) (omega arith)

-- two matches that overlap and one that does not
abbrev overlapping : List Match
overlapping =
    record { start = 3; stop = 6; name = "b" }
    ∷ record { start = 1; stop = 4; name = "a" }
    ∷ record { start = 7; stop = 9; name = "c" }
    ∷ []

-- the number 4111111111111111 from its third digit, and what stands before
abbrev front : Text
front = 52 ∷ 49 ∷ []

abbrev rest_of : Text
rest_of = 49 ∷ 49 ∷ 49 ∷ 49 ∷ 49 ∷ 49 ∷ 49 ∷ 49 ∷ 49 ∷ 49 ∷ 49 ∷ 49 ∷ 49 ∷ []

visa_passes : luhn_ok ascii (front ++ 49 ∷ rest_of) ≡ true
unfolding luhn_ok
visa_passes = refl

luhn_ok_detects_digit_example : luhn_ok ascii (front ++ 55 ∷ rest_of) ≡ false
luhn_ok_detects_digit_example =
    luhn_ok_detects_digit ascii front rest_of 49 55 refl refl (omega arith) (omega arith)
      (omega arith) visa_passes

-- a number with the digits 0 and 9 after its front
abbrev tail_of : Text
tail_of = 49 ∷ 49 ∷ 49 ∷ 49 ∷ 49 ∷ 49 ∷ 49 ∷ 49 ∷ 49 ∷ 53 ∷ 49 ∷ 49 ∷ []

swap_before : luhn_ok ascii (front ++ 48 ∷ 57 ∷ tail_of) ≡ true
unfolding luhn_ok
swap_before = refl

swap_after : luhn_ok ascii (front ++ 57 ∷ 48 ∷ tail_of) ≡ true
unfolding luhn_ok
swap_after = refl
