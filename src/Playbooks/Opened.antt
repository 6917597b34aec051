-- ===== src/Playbooks/Opened.antt =====
-- Opening another playbook on PlaybooksScreen.tsx while the one on display is still the old one.
use interbellum.Common.{
  List, [], ◌∷◌, false, ◌≡◌, ◌≢◌, refl, sym, ◌∙◌, ap, subst, inl, inr, Option, none, some, All, Any,
}
use interbellum.Types.{Uuid, Playbook, PlaybookVersionSummary, PlaybookWithVersions}
use interbellum.Playbooks.{
  Query, select, playbook_id, version_id, Browser, truthy_id, has_version, landing, land_in,
  navigate, moved, settle, opened, loaded, select_landing,
}
use interbellum.Playbooks.Landing.{IsLanding, IsLanding-listed}
use interbellum.Playbooks.Settles.{
  playbook_id-select, version_id-select, truthy_id-named, IsNamed, versions_of, items_of,
  once-rests, navigate-at, select_landing-rests, truthy_id_idem, select_landing-none,
}

-- Where no identifier is empty, a playbook that is opened without one of its versions is shown at
-- the newest of those that are published, and where none is, at the newest of all, if it has any.
settle-IsLanding :
    (b : Browser) (id : Uuid) (p : PlaybookWithVersions)
    → IsNamed b
    → truthy_id (playbook_id b.query) ≡ some id
    → b.detail ≡ some p
    → has_version p.versions (version_id b.query) ≡ false
    → p.versions ≢ []
    → (v : PlaybookVersionSummary) × IsLanding p.versions v
      × (truthy_id (playbook_id (settle 2 b).query) ≡ some id)
      × (version_id (settle 2 b).query ≡ some v.id)
unfolding settle
settle-IsLanding b id p named at loaded away some_version = lands (navigate b) refl
  where
    moves : navigate b ≡ select_landing id (landing p.versions)
    moves = navigate-at b (some id) at ∙ ap (land_in id (version_id b.query)) loaded ∙ rw away

    ids : All (λ (w : PlaybookVersionSummary). w.id ≢ []) p.versions
    ids =
        subst (λ d. All (λ (w : PlaybookVersionSummary). w.id ≢ []) (versions_of d)) loaded
          named.versions

    lands :
        (o : Option Query)
        → navigate b ≡ o
        → (v : PlaybookVersionSummary) × IsLanding p.versions v
          × (truthy_id (playbook_id (moved (moved b o) (navigate (moved b o))).query) ≡ some id)
          × (version_id (moved (moved b o) (navigate (moved b o))).query ≡ some v.id)
    lands none e =
        absurd (
          some_version
            (select_landing-none id p.versions (landing p.versions) refl (sym moves ∙ e)))
    lands (some query) e =
        let (playbook, (v, best, at_version, rests)) =
          select_landing-rests id (truthy_id_idem _ id at) p ids (landing p.versions) query refl
            (sym moves ∙ e) in
        let rest : navigate (moved b (some query)) ≡ none =
          navigate-at (moved b (some query)) (some id) playbook
          ∙ ap (land_in id (version_id query)) loaded
          ∙ rests in
        (
          v,
          best,
          ap (λ o. truthy_id (playbook_id (moved (moved b (some query)) o).query)) rest ∙ playbook,
          ap (λ o. version_id (moved (moved b (some query)) o).query) rest ∙ at_version,
        )

moved-items : (b : Browser) (o : Option Query) → (moved b o).items ≡ b.items
moved-items b none = refl
moved-items b (some query) = refl

has_version-none : (vs : List PlaybookVersionSummary) → has_version vs none ≡ false
has_version-none [] = refl
has_version-none (v ∷ vs) = refl

All-listed :
    (P : PlaybookVersionSummary → Type 0) (vs : List PlaybookVersionSummary)
    (v : PlaybookVersionSummary)
    → All P vs
    → Any (λ w. w ≡ v) vs
    → P v
All-listed P [] v h k = elim k [ ]
All-listed P (w ∷ vs) v h (inl same) = subst P same h.0
All-listed P (w ∷ vs) v h (inr later) = All-listed P vs v h.1 later

settle-once :
    (b : Browser) (id : Uuid)
    → IsNamed b
    → truthy_id (playbook_id b.query) ≡ some id
    → settle 2 b ≡ moved b (navigate b)
unfolding settle
settle-once b id named at = ap (moved (moved b (navigate b))) (once-rests b id named at)

-- Where the effects leave the address while the old playbook is there: at the new one, and at no
-- version but one of the old playbook's.
moved-apart :
    (b : Browser) (id : Uuid) (vs : List PlaybookVersionSummary)
    → IsNamed b
    → id ≢ []
    → All
        (λ (w : PlaybookVersionSummary). has_version vs (some w.id) ≡ false)
        (versions_of b.detail)
    → (old : Option PlaybookWithVersions) → b.detail ≡ old
    → (o : Option Query) → land_in id (version_id (select (some id) none)) old ≡ o
    → (truthy_id (playbook_id (moved (opened (some id) b) o).query) ≡ some id)
      × (has_version vs (version_id (moved (opened (some id) b) o).query) ≡ false)
unfolding opened
moved-apart b id vs named real apart old same none e = (
  ap truthy_id (playbook_id-select (some id) none ∙ truthy_id-named id real)
      ∙ truthy_id-named id real,
  ap (has_version vs) (version_id-select (some id) none) ∙ has_version-none vs,
)
moved-apart b id vs named real apart none same (some query) e = cc
moved-apart b id vs named real apart (some q) same (some query) e =
    let away : has_version q.versions (version_id (select (some id) none)) ≡ false =
      ap (has_version q.versions) (version_id-select (some id) none)
      ∙ has_version-none q.versions in
    let ids =
      subst (λ d. All (λ (w : PlaybookVersionSummary). w.id ≢ []) (versions_of d)) same
        named.versions in
    let (playbook, (v, best, at_version, rests)) =
      select_landing-rests id (truthy_id-named id real) q ids (landing q.versions) query refl
        (rw away at e) in
    (
      playbook,
      ap (has_version vs) at_version
          ∙ All-listed _ q.versions v
              (subst
                (λ d.
                  All (λ (w : PlaybookVersionSummary). has_version vs (some w.id) ≡ false)
                    (versions_of d))
                same apart)
              (IsLanding-listed q.versions v best),
    )

-- Where no identifier is empty and no version of the playbook on display is one of the playbook
-- that is opened, the screen comes, whatever it was at before, to the newest published version of
-- the opened one, or to its newest where none is published, if it has any.
pub open-IsLanding :
    (b : Browser) (p : PlaybookWithVersions) (id : Uuid)
    → IsNamed b
    → id ≢ []
    → All (λ (w : PlaybookVersionSummary). w.id ≢ []) p.versions
    → p.versions ≢ []
    → All
        (λ (w : PlaybookVersionSummary). has_version p.versions (some w.id) ≡ false)
        (versions_of b.detail)
    → (v : PlaybookVersionSummary) × IsLanding p.versions v
      × (truthy_id (playbook_id (settle 2 (loaded p (settle 2 (opened (some id) b)))).query)
          ≡ some id)
      × (version_id (settle 2 (loaded p (settle 2 (opened (some id) b)))).query ≡ some v.id)
unfolding loaded opened
open-IsLanding b p id named real ids some_version apart =
    subst
      (λ c.
        (v : PlaybookVersionSummary) × IsLanding p.versions v
        × (truthy_id (playbook_id (settle 2 (loaded p c)).query) ≡ some id)
        × (version_id (settle 2 (loaded p c)).query ≡ some v.id))
      (sym settled)
      (settle-IsLanding (loaded p before) id p
        (record {
          playbooks =
              subst (λ i. All (λ (q : Playbook). q.id ≢ []) (items_of i))
                (sym (moved-items (opened (some id) b) (navigate (opened (some id) b))))
                named.playbooks;
          versions = ids;
        })
        facts.0 refl facts.1 some_version)
  where
    before : Browser
    before = moved (opened (some id) b) (navigate (opened (some id) b))

    at_id : truthy_id (playbook_id (opened (some id) b).query) ≡ some id
    at_id =
        ap truthy_id (playbook_id-select (some id) none ∙ truthy_id-named id real)
        ∙ truthy_id-named id real

    settled : settle 2 (opened (some id) b) ≡ before
    settled =
        settle-once (opened (some id) b) id
          (record { playbooks = named.playbooks; versions = named.versions }) at_id

    facts :
        (truthy_id (playbook_id before.query) ≡ some id)
        × (has_version p.versions (version_id before.query) ≡ false)
    facts =
        moved-apart b id p.versions named real apart b.detail refl (navigate (opened (some id) b))
          (sym (navigate-at (opened (some id) b) (some id) at_id))
