-- ===== src/Gateway/Upstream/Capped.antt =====
-- How much of a reply is kept: `_read_capped` of task2_mcp_gateway/gateway.py.
use fde_assessment.Base.{
  ℕ, ◌≤◌, ◌≡◌, refl, sym, false, List, [], ◌∷◌, ◌++◌, length, if◌then◌else◌, le→leb, ltb, leb,
  arith, Bool-cases, inl, inr, length-append,
}
use fde_assessment.Gateway.Upstream.{Bytes, Finish, finish_read, too_big, read_capped}

-- `b"".join(chunks)`
abbrev pub join : List Bytes → Bytes
join [] = []
join (c ∷ cs) = c ++ join cs

pub append-join :
    (content c : Bytes) (cs : List Bytes) → (content ++ c) ++ join cs ≡ content ++ join (c ∷ cs)
append-join [] c cs = refl
append-join (b ∷ content) c cs = rw (append-join content c cs)

pub append-nil : (content : Bytes) → content ++ [] ≡ content
append-nil [] = refl
append-nil (b ∷ content) = rw (append-nil content)

read_capped_total :
    (cap : ℕ) (content : Bytes) (chunks : List Bytes) (closing : Finish)
    → length content ≤ cap
    → read_capped cap content chunks closing ≡ (
        if leb (length (content ++ join chunks)) cap
        then finish_read (content ++ join chunks) closing
        else too_big)
unfolding read_capped
read_capped_total cap content [] closing short =
    rw (append-nil content, le→leb (length content) cap short)
read_capped_total cap content (c ∷ cs) closing short =
    let together = append-join content c cs in
    let total = length-append (content ++ c) (join cs) in
    elim (Bool-cases (ltb cap (length (content ++ c)))) [
      | inl over ↦
          let whole : leb (length ((content ++ c) ++ join cs)) cap ≡ false = ground arith in
          rw (over, sym together, whole)
      | inr under ↦
          rw (under, sym together, read_capped_total cap (content ++ c) cs closing (ground arith))
    ]

-- Reading a reply under the cap gives its whole body if the chunks come to at most the cap and
-- arrive without error, that error if they do not, and is given up exactly when their total is over
-- the cap, however it is cut into chunks.
pub read_capped_exact :
    (cap : ℕ) (chunks : List Bytes) (closing : Finish)
    → read_capped cap [] chunks closing
      ≡ (if leb (length (join chunks)) cap then finish_read (join chunks) closing else too_big)
read_capped_exact cap chunks closing = read_capped_total cap [] chunks closing (omega arith)
