-- ===== src/Router/Errors/Public.antt =====
-- What a client sees of an error of the router.
use fde_assessment.Base.{
  ℕ, ◌+◌, ◌*◌, ◌-◌, ◌/◌, ◌≤◌, ◌<◌, max, String, ◌≡◌, ◌⊎◌, inl, inr, refl, true, false, some, [],
  ◌∷◌, keep, All, arith, if◌then◌else◌, Bool-cases, ap, eq_iff,
}
use fde_assessment.Router.Errors.{
  GatewayError, Detail, Details, is_public, is_allowed, is_present, to_payload, detail,
  retry_after_header,
}

pub keep-All : (ds : Details) → All (λ d. is_public d ≡ true) (keep is_public ds)
keep-All [] = tt
keep-All (d ∷ ds) = elim (Bool-cases (is_public d)) [
  | inl shown ↦ rw shown (shown, keep-All ds)
  | inr hidden ↦ rw hidden (keep-All ds)
]

detail-keep :
    (k : String) (ds : Details)
    → is_allowed k ≡ true
    → is_present (detail k ds) ≡ true
    → detail k (keep is_public ds) ≡ detail k ds
unfolding detail
detail-keep k [] ok present = refl
detail-keep k ((j, v) ∷ ds) ok present =
    ground (arith, eq_iff j k, ap is_allowed {x = j} {y = k}, detail-keep k ds ok)

detail-keep_hidden :
    (k : String) (ds : Details)
    → is_allowed k ≡ false
    → detail k (keep is_public ds) ≡ Detail.absent
unfolding detail
detail-keep_hidden k [] hidden = refl
detail-keep_hidden k ((j, v) ∷ ds) hidden =
    ground (arith, eq_iff j k, ap is_allowed {x = j} {y = k}, detail-keep_hidden k ds hidden)

-- Of an error's details that are not None the envelope shows those under an allowed key, as they
-- are, and nothing under any other key; no detail that it holds is None or under another key.
pub to_payload_shows :
    (e : GatewayError) (k : String)
    → is_present (detail k e.details) ≡ true
    → (detail k (to_payload e).details
        ≡ (if is_allowed k then detail k e.details else Detail.absent))
      × All (λ d. is_public d ≡ true) (to_payload e).details
unfolding to_payload
to_payload_shows e k present = elim (Bool-cases (is_allowed k)) [
  | inl shown ↦ (rw shown (detail-keep k e.details shown present), keep-All e.details)
  | inr hidden ↦ (rw hidden (detail-keep_hidden k e.details hidden), keep-All e.details)
]

-- A Retry-After header is sent exactly if there is a hint, and it is the least whole number of
-- seconds, at least 1, that is not below the hint.
pub retry_after_header_rounds_up :
    (e : GatewayError) (ms : ℕ)
    → detail "retry_after_seconds" e.details ≡ Detail.seconds ms
    → (s : ℕ) × (retry_after_header e ≡ some s)
      × (1 ≤ s)
      × (ms ≤ s * 1000)
      × ((s ≡ 1) ⊎ ((s - 1) * 1000 < ms))
unfolding retry_after_header
retry_after_header_rounds_up e ms hint = (
  max 1 ((ms + 999) / 1000),
  rw (hint, retry_after_header),
  omega arith,
  omega arith,
  ground arith,
)
