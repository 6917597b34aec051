-- ===== src/Playbooks/Landing.antt =====
-- The version that PlaybooksScreen.tsx opens a playbook at.
use interbellum.Common.{
  List, [], ◌∷◌, Bool, true, false, ◌≡◌, refl, sym, ◌∙◌, ap, inl, inr, ◌⊎◌, arith, Option, none,
  some, All, Any, sort, by_rank, find?, get_elem?, IsBest, find?-sort-IsBest, find?-sort-none,
}
use interbellum.Text.{◌==◌}
use interbellum.Text.Equality.{==_refl}
use interbellum.Types.{PlaybookVersionSummary}
use interbellum.Playbooks.{
  has_version, is_published, version_number, newest_first, or_first, landing,
}

abbrev any_version : PlaybookVersionSummary → Bool
any_version v = true

abbrev published_version : PlaybookVersionSummary → Bool
published_version v = is_published v.status

-- The newest of the published versions, and where none is published, the newest of all.
abbrev pub IsLanding : List PlaybookVersionSummary → PlaybookVersionSummary → Type 0
IsLanding vs v =
    IsBest version_number published_version vs v
    ⊎ (All (λ w. published_version w ≡ false) vs × IsBest version_number any_version vs v)

first-find? : (vs : List PlaybookVersionSummary) → get_elem? vs 0 ≡ find? any_version vs
first-find? [] = refl
first-find? (v ∷ vs) = refl

or_first-IsLanding :
    (vs : List PlaybookVersionSummary) (found : Option PlaybookVersionSummary)
    (v : PlaybookVersionSummary)
    → find? published_version (sort (by_rank version_number) vs) ≡ found
    → or_first found (sort (by_rank version_number) vs) ≡ some v
    → IsLanding vs v
or_first-IsLanding vs (some w) v e h =
    inl (find?-sort-IsBest version_number published_version vs v (e ∙ h))
or_first-IsLanding vs none v e h = inr (
  find?-sort-none version_number published_version vs e,
  find?-sort-IsBest version_number any_version vs v (sym (first-find? _) ∙ h),
)

pub landing-IsLanding :
    (vs : List PlaybookVersionSummary) (v : PlaybookVersionSummary)
    → landing vs ≡ some v
    → IsLanding vs v
unfolding landing newest_first
landing-IsLanding vs v h = or_first-IsLanding vs _ v refl h

-- No version to land on only where there is none.
or_first-none :
    (vs : List PlaybookVersionSummary) (found : Option PlaybookVersionSummary)
    → or_first found (sort (by_rank version_number) vs) ≡ none
    → All (λ w. any_version w ≡ false) vs
or_first-none vs (some w) h = cc
or_first-none vs none h = find?-sort-none version_number any_version vs (sym (first-find? _) ∙ h)

pub landing-none : (vs : List PlaybookVersionSummary) → landing vs ≡ none → vs ≡ []
unfolding landing newest_first
landing-none [] h = refl
landing-none (v ∷ vs) h = absurd (
    let none_at_all =
      (or_first-none (v ∷ vs) (find? published_version (sort (by_rank version_number) (v ∷ vs)))
        h).0 in
    cc)

pub has_version-Any :
    (vs : List PlaybookVersionSummary) (v : PlaybookVersionSummary)
    → Any (λ w. w ≡ v) vs
    → has_version vs (some v.id) ≡ true
has_version-Any [] v h = elim h [ ]
has_version-Any (w ∷ vs) v (inl same) =
    let e = ap (λ (u : PlaybookVersionSummary). u.id == v.id) same ∙ ==_refl v.id in ground arith
has_version-Any (w ∷ vs) v (inr later) = let e = has_version-Any vs v later in ground arith

pub IsLanding-listed :
    (vs : List PlaybookVersionSummary) (v : PlaybookVersionSummary)
    → IsLanding vs v
    → Any (λ w. w ≡ v) vs
IsLanding-listed vs v (inl h) = h.listed
IsLanding-listed vs v (inr (_, h)) = h.listed
