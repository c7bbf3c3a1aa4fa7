-- ===== src/Guardrail/Redactor/Spans/Choice.antt =====
-- The chosen spans are in order, apart, and no match is lost: task3_streaming_guardrail/redactor.py.
use fde_assessment.Base.{
  ℕ, ◌≤◌, ◌<◌, ◌≡◌, ◌⊎◌, inl, inr, refl, sym, subst, List, [], ◌∷◌, All, All-map, All-zip, leb,
  arith, Bool-cases,
}
use native.Mathlib.Nat.{le_trans}
use fde_assessment.Guardrail.Redactor.{Match}
use fde_assessment.Guardrail.Redactor.Spans.{
  comes_first, insert_match, sort_matches, choose, resolve_overlaps,
}

-- in order, apart, and none before the cursor
abbrev pub IsSpread : ℕ → List Match → Type 0
IsSpread cursor [] = Unit
IsSpread cursor (m ∷ ms) = (cursor ≤ m.start) × (m.start ≤ m.stop) × IsSpread m.stop ms

abbrev pub Any : (Match → Type 0) → List Match → Type 0
Any P [] = ⊥
Any P (m ∷ ms) = P m ⊎ Any P ms

-- `m` itself is there, or a match that starts no later and reaches past its start
abbrev pub IsAnswered : Match → List Match → Type 0
IsAnswered m chosen = Any (λ s. (s ≡ m) ⊎ ((s.start ≤ m.start) × (m.start < s.stop))) chosen

module _ (P : Match → Type 0) where
  All-insert_match : (m : Match) (ms : List Match) → P m → All P ms → All P (insert_match m ms)
  unfolding insert_match
  All-insert_match m [] p h = (p, tt)
  All-insert_match m (n ∷ ns) p h = elim (Bool-cases (comes_first m n)) [
    | inl first ↦ rw first (p, h)
    | inr later ↦ rw later (h.0, All-insert_match m ns p h.1)
  ]

  insert_match-All : (m : Match) (ms : List Match) → All P (insert_match m ms) → P m × All P ms
  unfolding insert_match
  insert_match-All m [] h = h
  insert_match-All m (n ∷ ns) h = elim (Bool-cases (comes_first m n)) [
    | inl first ↦ rw first at h
    | inr later ↦
        let both = rw later at h in
        let (p, rest) = insert_match-All m ns both.1 in (p, (both.0, rest))
  ]

  pub All-sort_matches : (ms : List Match) → All P ms → All P (sort_matches ms)
  unfolding sort_matches
  All-sort_matches [] h = tt
  All-sort_matches (m ∷ ms) h = All-insert_match m (sort_matches ms) h.0 (All-sort_matches ms h.1)

  sort_matches-All : (ms : List Match) → All P (sort_matches ms) → All P ms
  unfolding sort_matches
  sort_matches-All [] h = tt
  sort_matches-All (m ∷ ms) h =
      let (p, rest) = insert_match-All m (sort_matches ms) h in (p, sort_matches-All ms rest)

  All-choose : (cursor : ℕ) (ms : List Match) → All P ms → All P (choose cursor ms)
  unfolding choose
  All-choose cursor [] h = tt
  All-choose cursor (m ∷ ms) h = elim (Bool-cases (leb cursor m.start)) [
    | inl free ↦ rw free (h.0, All-choose m.stop ms h.1)
    | inr taken ↦ rw taken (All-choose cursor ms h.1)
  ]

  -- what holds of every match holds of every chosen one
  pub All-resolve_overlaps : (found : List Match) → All P found → All P (resolve_overlaps found)
  unfolding resolve_overlaps
  All-resolve_overlaps found h = All-choose 0 (sort_matches found) (All-sort_matches found h)

abbrev pub IsSpan : Match → Type 0
IsSpan m = m.start ≤ m.stop

IsSpread-choose :
    (cursor : ℕ) (ms : List Match) → All IsSpan ms → IsSpread cursor (choose cursor ms)
unfolding choose
IsSpread-choose cursor [] h = tt
IsSpread-choose cursor (m ∷ ms) h = elim (Bool-cases (leb cursor m.start)) [
  | inl free ↦ rw free (ground arith, h.0, IsSpread-choose m.stop ms h.1)
  | inr taken ↦ rw taken (IsSpread-choose cursor ms h.1)
]

pub resolve_overlaps-IsSpread :
    (found : List Match) → All IsSpan found → IsSpread 0 (resolve_overlaps found)
unfolding resolve_overlaps
resolve_overlaps-IsSpread found h =
    IsSpread-choose 0 (sort_matches found) (All-sort_matches IsSpan found h)

-- every match starts no earlier than those before it
abbrev IsAscending : List Match → Type 0
IsAscending [] = Unit
IsAscending (m ∷ ms) = All (λ n. m.start ≤ n.start) ms × IsAscending ms

insert_match-IsAscending :
    (m : Match) (ms : List Match) → IsAscending ms → IsAscending (insert_match m ms)
unfolding insert_match
insert_match-IsAscending m [] h = (tt, tt)
insert_match-IsAscending m (n ∷ ns) h = elim (Bool-cases (comes_first m n)) [
  | inl first ↦
      let before : m.start ≤ n.start = ground arith in
      rw first
        ((before, All-map _ _ (λ (a : Match) (p : n.start ≤ a.start). le_trans before p) ns h.0), h)
  | inr later ↦
      let before : n.start ≤ m.start = ground arith in
      rw later (
        All-insert_match (λ a. n.start ≤ a.start) m ns before h.0,
        insert_match-IsAscending m ns h.1,
      )
]

sort_matches-IsAscending : (ms : List Match) → IsAscending (sort_matches ms)
unfolding sort_matches
sort_matches-IsAscending [] = tt
sort_matches-IsAscending (m ∷ ms) =
    insert_match-IsAscending m (sort_matches ms) (sort_matches-IsAscending ms)

choose_answers :
    (cursor : ℕ) (ms : List Match)
    → IsAscending ms
    → All (λ m. (m.start < cursor) ⊎ IsAnswered m (choose cursor ms)) ms
unfolding choose
choose_answers cursor [] h = tt
choose_answers cursor (m ∷ ms) h = elim (Bool-cases (leb cursor m.start)) [
  | inl free ↦
      let e : choose cursor (m ∷ ms) ≡ m ∷ choose m.stop ms = rw free in
      subst (λ chosen. All (λ n. (n.start < cursor) ⊎ IsAnswered n chosen) (m ∷ ms)) (sym e)
        (
          inr (inl (inl refl)),
          All-map _ _ (answer m (choose m.stop ms) cursor) ms
              (All-zip _ _ ms h.0 (choose_answers m.stop ms h.1)),
        )
  | inr taken ↦
      let e : choose cursor (m ∷ ms) ≡ choose cursor ms = rw taken in
      subst (λ chosen. All (λ n. (n.start < cursor) ⊎ IsAnswered n chosen) (m ∷ ms)) (sym e)
        (inl (ground arith), choose_answers cursor ms h.1)
]
  where
    answer :
        (m : Match) (chosen : List Match) (cursor : ℕ) (n : Match)
        → (m.start ≤ n.start) × ((n.start < m.stop) ⊎ IsAnswered n chosen)
        → (n.start < cursor) ⊎ IsAnswered n (m ∷ chosen)
    answer m chosen cursor n (before, inl inside) = inr (inl (inr (before, inside)))
    answer m chosen cursor n (before, inr a) = inr (inr a)

sort_matches-IsAnswered :
    (found : List Match)
    → All (λ m. IsAnswered m (choose 0 (sort_matches found))) (sort_matches found)
sort_matches-IsAnswered found =
    All-map _ _ (λ (m : Match) h. elim h [ inl low ↦ absurd (omega arith) | inr a ↦ a ])
      (sort_matches found) (choose_answers 0 (sort_matches found) (sort_matches-IsAscending found))

-- Resolving overlaps gives spans in order and apart, each of them one of the matches found, and loses
-- none of these without an answer: a match that is not chosen starts inside one that is.
pub resolve_overlaps_answers :
    (P : Match → Type 0) (found : List Match)
    → All IsSpan found
    → All P found
    → IsSpread 0 (resolve_overlaps found)
      × All P (resolve_overlaps found)
      × All (λ m. IsAnswered m (resolve_overlaps found)) found
unfolding resolve_overlaps
resolve_overlaps_answers P found spans h = (
  resolve_overlaps-IsSpread found spans,
  All-resolve_overlaps P found h,
  sort_matches-All (λ m. IsAnswered m (choose 0 (sort_matches found))) found
      (sort_matches-IsAnswered found),
)
