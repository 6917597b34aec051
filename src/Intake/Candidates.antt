-- ===== src/Intake/Candidates.antt =====
-- Which versions CandidateVersions of StartInvestigationScreen.tsx offers to start with.
use interbellum.Common.{
  List, [], ◌∷◌, true, ◌≡◌, ◌↔◌, refl, inl, inr, Option, none, some, Any, Any-imp, Any-map, map-Any,
  append-Any, Any-append_left, Any-append_right, Any-keep, keep-Any, Any-sort, sort-Any, by_rank,
}
use interbellum.Types.{Uuid, PlaybookVersionSummary, PlaybookWithVersions}
use interbellum.Playbooks.{is_published, version_number}
use interbellum.Intake.{
  Candidate, candidate, candidates_of, candidates, CandidateRow, candidate_row, candidate_rows,
}

-- A version of the playbook is published, and has the property.
abbrev pub HasPublished : (Candidate → Type 0) → PlaybookWithVersions → Type 0
HasPublished P p =
    Any (λ (v : PlaybookVersionSummary). (is_published v.status ≡ true) × P (candidate p v))
      p.versions

module _ (P : Candidate → Type 0) where
  candidates_of_iff : (p : PlaybookWithVersions) → Any P (candidates_of p) ↔ HasPublished P p
  unfolding candidates_of
  candidates_of_iff p = (
    λ h.
        Any-keep _ _ p.versions
          (sort-Any (by_rank version_number) _ _ (map-Any P (candidate p) _ h)),
    λ h.
        Any-map P (candidate p) _
          (Any-sort (by_rank version_number) _ _ (keep-Any _ _ p.versions h)),
  )

  candidates_iff :
      (ps : List PlaybookWithVersions) → Any P (candidates ps) ↔ Any (HasPublished P) ps
  unfolding candidates
  candidates_iff [] = (λ h. h, λ h. h)
  candidates_iff (p ∷ ps) = (
    λ h. elim (append-Any P (candidates_of p) (candidates ps) h) [
      | inl now ↦ inl ((candidates_of_iff p).0 now)
      | inr later ↦ inr ((candidates_iff ps).0 later)
    ],
    λ h. elim h [
      | inl now ↦ Any-append_left P _ _ ((candidates_of_iff p).1 now)
      | inr later ↦ Any-append_right P (candidates_of p) _ ((candidates_iff ps).1 later)
    ],
  )

-- There is a row with a free button and a property exactly if no start is under way and one of the
-- playbooks has a published version with that property.
pub candidate_rows_iff :
    (P : Candidate → Type 0) (preselected starting : Option Uuid) (ps : List PlaybookWithVersions)
    → Any
        (λ (r : CandidateRow). (r.startable ≡ true) × P r.shown)
        (candidate_rows preselected starting ps)
      ↔ ((starting ≡ none) × Any (HasPublished P) ps)
unfolding candidate_rows candidate_row
candidate_rows_iff P preselected none ps = (
  λ h. (
    refl,
    (candidates_iff P ps).0 (
        Any-imp _ _ (λ c (free, k). k) (candidates ps)
          (map-Any _ (candidate_row preselected none) (candidates ps) h)),
  ),
  λ (_, h).
      Any-map _ (candidate_row preselected none) (candidates ps)
        (Any-imp _ _ (λ c k. (refl, k)) (candidates ps) ((candidates_iff P ps).1 h)),
)
candidate_rows_iff P preselected (some id) ps = (
  λ h.
      absurd
        (busy (candidates ps) (map-Any _ (candidate_row preselected (some id)) (candidates ps) h)),
  λ (e, _). cc,
)
  where
    busy :
        (cs : List Candidate)
        → ¬ Any (λ c. ((candidate_row preselected (some id) c).startable ≡ true) × P c) cs
    busy [] h = h
    busy (c ∷ cs) h = elim h [ inl (free, k) ↦ cc | inr later ↦ busy cs later ]
