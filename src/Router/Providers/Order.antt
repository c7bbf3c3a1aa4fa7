-- ===== src/Router/Providers/Order.antt =====
-- The order in which the router tries its providers.
use mathlib.Core.List.{Perm}
use mathlib.Core.List.Perm
use fde_assessment.Base.{◌≡◌, true, false, List, [], ◌∷◌, arith, All, Bool-cases, inl, inr}
use fde_assessment.Base.Int.{ℤ, leb_ℤ}
use fde_assessment.Router.Providers.{ProviderConfig, insert_by_priority, sort_by_priority}

-- `p` comes at or before every one of the list
abbrev pub IsFirst : ProviderConfig → List ProviderConfig → Type 0
IsFirst p qs = All (λ (q : ProviderConfig). leb_ℤ p.priority q.priority ≡ true) qs

abbrev pub IsAscending : List ProviderConfig → Type 0
IsAscending [] = Unit
IsAscending (p ∷ ps) = IsFirst p ps × IsAscending ps

insert-perm :
    (p : ProviderConfig) (qs : List ProviderConfig) → Perm (insert_by_priority p qs) (p ∷ qs)
unfolding insert_by_priority
insert-perm p [] = Perm.refl (p ∷ [])
insert-perm p (q ∷ qs) = elim (Bool-cases (leb_ℤ p.priority q.priority)) [
  | inl before ↦ rw before (Perm.refl (p ∷ q ∷ qs))
  | inr after ↦ rw after (Perm.trans (Perm.cons q (insert-perm p qs)) (Perm.swap p q qs))
]

leb_trans : (a b c : ℤ) → leb_ℤ a b ≡ true → leb_ℤ b c ≡ true → leb_ℤ a c ≡ true
leb_trans a b c h k = ground arith

IsFirst-trans :
    (p q : ProviderConfig) (qs : List ProviderConfig)
    → leb_ℤ p.priority q.priority ≡ true
    → IsFirst q qs
    → IsFirst p qs
IsFirst-trans p q [] h f = tt
IsFirst-trans p q (r ∷ qs) h f =
    (leb_trans p.priority q.priority r.priority h f.0, IsFirst-trans p q qs h f.1)

insert-IsFirst :
    (r p : ProviderConfig) (qs : List ProviderConfig)
    → leb_ℤ r.priority p.priority ≡ true
    → IsFirst r qs
    → IsFirst r (insert_by_priority p qs)
unfolding insert_by_priority
insert-IsFirst r p [] h f = (h, tt)
insert-IsFirst r p (q ∷ qs) h f = elim (Bool-cases (leb_ℤ p.priority q.priority)) [
  | inl before ↦ rw before (h, f)
  | inr after ↦ rw after (f.0, insert-IsFirst r p qs h f.1)
]

leb_total : (a b : ℤ) → leb_ℤ a b ≡ false → leb_ℤ b a ≡ true
leb_total a b h = ground arith

insert-IsAscending :
    (p : ProviderConfig) (qs : List ProviderConfig)
    → IsAscending qs
    → IsAscending (insert_by_priority p qs)
unfolding insert_by_priority
insert-IsAscending p [] s = (tt, tt)
insert-IsAscending p (q ∷ qs) s = elim (Bool-cases (leb_ℤ p.priority q.priority)) [
  | inl before ↦ rw before ((before, IsFirst-trans p q qs before s.0), s)
  | inr after ↦ rw after (
    insert-IsFirst q p qs (leb_total p.priority q.priority after) s.0,
    insert-IsAscending p qs s.1,
  )
]

-- The router tries each provider that it is given as often as it is given, in ascending priority.
pub sort_by_priority_sorts :
    (ps : List ProviderConfig) → Perm (sort_by_priority ps) ps × IsAscending (sort_by_priority ps)
unfolding sort_by_priority
sort_by_priority_sorts [] = (Perm.refl [], tt)
sort_by_priority_sorts (p ∷ ps) =
    let (same, ascending) = sort_by_priority_sorts ps in
    (
      Perm.trans (insert-perm p (sort_by_priority ps)) (Perm.cons p same),
      insert-IsAscending p (sort_by_priority ps) ascending,
    )
