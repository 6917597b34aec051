-- ===== src/Evidence/Keys.antt =====
-- The keys that `newEvidenceDraft` hands out.
use interbellum.Common.{ℕ, suc, ◌≤◌, List, [], ◌∷◌, ◌++◌, ◌≡◌, refl, ap, arith, Nodup, map, false}
use interbellum.Text.{Text, codes}
use interbellum.Text.Equality.{==_iff}
use interbellum.Text.Sets.{has, Distinct, Distinct→Nodup}
use interbellum.Integers.{decimal, parse_int}
use interbellum.Integers.RoundTrip.{parse_int-decimal}
use interbellum.Evidence.{EvidenceDraft, EvidenceSeed, new_evidence_draft}

-- Drafts that are made one after the other, each with the counter that the last one left.
unfoldable pub make_drafts : List EvidenceSeed → ℕ → List EvidenceDraft
make_drafts [] counter = []
make_drafts (seed ∷ seeds) counter =
    let (draft, next) = new_evidence_draft seed counter in draft ∷ make_drafts seeds next

decimal-injective : (m n : ℕ) → decimal m ≡ decimal n → m ≡ n
decimal-injective m n e = cc (parse_int-decimal m, parse_int-decimal n, ap parse_int e)

append-cancel : (p s t : Text) → p ++ s ≡ p ++ t → s ≡ t
append-cancel [] s t e = e
append-cancel (c ∷ p) s t e = append-cancel p s t (cc)

make_drafts-fresh :
    (seeds : List EvidenceSeed) (counter k : ℕ)
    → k ≤ counter
    → has (map (λ d. d.key) (make_drafts seeds counter)) (codes "ev-" ++ decimal k) ≡ false
unfolding make_drafts new_evidence_draft has
make_drafts-fresh [] counter k h = refl
make_drafts-fresh (seed ∷ seeds) counter k h = ground (
  arith,
  make_drafts-fresh seeds (suc counter) k,
  ==_iff (codes "ev-" ++ decimal (suc counter)) (codes "ev-" ++ decimal k),
  λ (e : codes "ev-" ++ decimal (suc counter) ≡ codes "ev-" ++ decimal k).
      decimal-injective (suc counter) k (append-cancel (codes "ev-") _ _ e),
)

make_drafts-Distinct :
    (seeds : List EvidenceSeed) (counter : ℕ)
    → Distinct (map (λ d. d.key) (make_drafts seeds counter))
unfolding make_drafts new_evidence_draft
make_drafts-Distinct [] counter = tt
make_drafts-Distinct (seed ∷ seeds) counter = (
  make_drafts-fresh seeds (suc counter) (suc counter) (omega arith),
  make_drafts-Distinct seeds (suc counter),
)

-- Rows made in one session never share a key.
pub make_drafts-Nodup :
    (seeds : List EvidenceSeed) (counter : ℕ) → Nodup (map (λ d. d.key) (make_drafts seeds counter))
make_drafts-Nodup seeds counter = Distinct→Nodup _ (make_drafts-Distinct seeds counter)
