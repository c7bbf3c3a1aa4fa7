-- ===== src/Router/Limiter/Evict.antt =====
-- The bounded eviction of limiter.py: what one DELETE removes.
use fde_assessment.Base.{
  ℕ, zero, suc, ◌+◌, ◌≡◌, refl, not, min, [], ◌∷◌, arith, ltb, if◌then◌else◌, keep, length,
}
use fde_assessment.Router.Limiter.{Table, evict, row_count}

pub expired_count : ℕ → Table → ℕ
expired_count cutoff [] = 0
expired_count cutoff (r ∷ rs) = (if ltb r.created_ms cutoff then 1 else 0) + expired_count cutoff rs

abbrev pub current : ℕ → Table → Table
current cutoff rows = keep (λ r. not (ltb r.created_ms cutoff)) rows

evict_counts :
    (cutoff n : ℕ) (rows : Table)
    → length (evict cutoff n rows) + min n (expired_count cutoff rows) ≡ length rows
unfolding evict expired_count
evict_counts cutoff zero [] = omega arith
evict_counts cutoff (suc n) [] = omega arith
evict_counts cutoff zero (r ∷ rs) = omega arith
evict_counts cutoff (suc n) (r ∷ rs) =
    ground (arith, evict_counts cutoff n rs, evict_counts cutoff (suc n) rs)

keep-evict :
    (cutoff n : ℕ) (rows : Table) → current cutoff (evict cutoff n rows) ≡ current cutoff rows
unfolding evict
keep-evict cutoff zero [] = refl
keep-evict cutoff (suc n) [] = refl
keep-evict cutoff zero (r ∷ rs) = refl
keep-evict cutoff (suc n) (r ∷ rs) =
    ground (arith, keep-evict cutoff n rs, keep-evict cutoff (suc n) rs)

-- One eviction deletes as many expired rows as there are, up to its batch, and no other row: the
-- rows that are not expired are the same ones in the same order.
pub evict_exact :
    (cutoff batch : ℕ) (rows : Table)
    → (row_count (evict cutoff batch rows) + min batch (expired_count cutoff rows) ≡ row_count rows)
      × (current cutoff (evict cutoff batch rows) ≡ current cutoff rows)
unfolding row_count
evict_exact cutoff batch rows = (evict_counts cutoff batch rows, keep-evict cutoff batch rows)
