-- ===== src/Playbooks/Settles.antt =====
-- Where the effects of PlaybooksScreen.tsx take the screen, and that they come to rest.
use interbellum.Common.{
  List, [], ◌∷◌, true, ◌≡◌, ◌≢◌, refl, sym, ◌∙◌, ap, subst, inl, inr, ◌⊎◌, Option, none, some,
  some-inj, All, Any, Bool-cases,
}
use interbellum.Text.{codes, ◌==◌}
use interbellum.Text.Maps.{get}
use interbellum.Types.{Uuid, Playbook, PlaybookVersionSummary, PlaybookWithVersions}
use interbellum.Playbooks.Landing.{
  IsLanding, landing-IsLanding, landing-none, has_version-Any, IsLanding-listed,
}
use interbellum.Playbooks.{
  Query, select, playbook_id, version_id, Browser, truthy_id, first_item, has_version, landing,
  select_landing, land_in, navigate_from, navigate, moved, settle,
}

pub playbook_id-select : (p v : Option Uuid) → playbook_id (select p v) ≡ truthy_id p
unfolding select playbook_id get codes ◌==◌
playbook_id-select none none = refl
playbook_id-select none (some []) = refl
playbook_id-select none (some (d ∷ t)) = refl
playbook_id-select (some []) none = refl
playbook_id-select (some []) (some []) = refl
playbook_id-select (some []) (some (d ∷ t)) = refl
playbook_id-select (some (c ∷ s)) v = refl

pub version_id-select : (p v : Option Uuid) → version_id (select p v) ≡ truthy_id v
unfolding select version_id get codes ◌==◌
version_id-select none none = refl
version_id-select none (some []) = refl
version_id-select none (some (d ∷ t)) = refl
version_id-select (some []) none = refl
version_id-select (some []) (some []) = refl
version_id-select (some []) (some (d ∷ t)) = refl
version_id-select (some (c ∷ s)) none = refl
version_id-select (some (c ∷ s)) (some []) = refl
version_id-select (some (c ∷ s)) (some (d ∷ t)) = refl

pub truthy_id-named : (id : Uuid) → id ≢ [] → truthy_id (some id) ≡ some id
truthy_id-named [] h = absurd (h refl)
truthy_id-named (c ∷ s) h = refl

-- No identifier is empty.
abbrev pub versions_of : Option PlaybookWithVersions → List PlaybookVersionSummary
versions_of none = []
versions_of (some p) = p.versions

abbrev pub items_of : Option (List Playbook) → List Playbook
items_of none = []
items_of (some items) = items

pub record IsNamed (b : Browser) : Type 0 where
  pub playbooks : All (λ (p : Playbook). p.id ≢ []) (items_of b.items)
  pub versions : All (λ (v : PlaybookVersionSummary). v.id ≢ []) (versions_of b.detail)

-- What `landing` chose is one of the versions, and its identifier comes back from the address.
named-of_listed :
    (vs : List PlaybookVersionSummary) (v : PlaybookVersionSummary)
    → All (λ (w : PlaybookVersionSummary). w.id ≢ []) vs
    → Any (λ w. w ≡ v) vs
    → v.id ≢ []
named-of_listed [] v h k = elim k [ ]
named-of_listed (w ∷ vs) v h (inl same) = subst (λ (u : PlaybookVersionSummary). u.id ≢ []) same h.0
named-of_listed (w ∷ vs) v h (inr later) = named-of_listed vs v h.1 later

module _ (id : Uuid) (named : truthy_id (some id) ≡ some id) (p : PlaybookWithVersions) where
  pub select_landing-rests :
      All (λ (w : PlaybookVersionSummary). w.id ≢ []) p.versions
      → (o : Option PlaybookVersionSummary) (query : Query) → landing p.versions ≡ o
      → select_landing id o ≡ some query
      → (truthy_id (playbook_id query) ≡ some id)
        × ((v : PlaybookVersionSummary) × IsLanding p.versions v
            × (version_id query ≡ some v.id)
            × (land_in id (version_id query) (some p) ≡ none))
  select_landing-rests h none query e k = cc
  select_landing-rests h (some v) query e k =
      let best = landing-IsLanding p.versions v e in
      let listed = IsLanding-listed p.versions v best in
      let at_version : version_id query ≡ some v.id =
        ap version_id (sym (some-inj k))
        ∙ version_id-select (some id) (some v.id)
        ∙ truthy_id-named v.id (named-of_listed p.versions v h listed) in
      let there : has_version p.versions (version_id query) ≡ true =
        ap (has_version p.versions) at_version ∙ has_version-Any p.versions v listed in
      (
        ap (λ q. truthy_id (playbook_id q)) (sym (some-inj k))
            ∙ ap truthy_id (playbook_id-select (some id) (some v.id) ∙ named)
            ∙ named,
        (v, best, at_version, rw there),
      )

pub truthy_id_idem :
    (o : Option Uuid) (id : Uuid) → truthy_id o ≡ some id → truthy_id (some id) ≡ some id
truthy_id_idem none id h = cc
truthy_id_idem (some []) id h = cc
truthy_id_idem (some (c ∷ s)) id h = ap truthy_id (sym h) ∙ h

-- Where the screen may rest: with no playbook only if there is none in the list, and with one at
-- one of its versions, if it has any.
abbrev pub IsHome : Browser → Type 0
IsHome b =
    ((truthy_id (playbook_id b.query) ≡ none) × (items_of b.items ≡ []))
    ⊎ ((id : Uuid) × (truthy_id (playbook_id b.query) ≡ some id)
        × ((versions_of b.detail ≡ [])
            ⊎ (has_version (versions_of b.detail) (version_id b.query) ≡ true)))

pub select_landing-none :
    (id : Uuid) (vs : List PlaybookVersionSummary) (o : Option PlaybookVersionSummary)
    → landing vs ≡ o
    → select_landing id o ≡ none
    → vs ≡ []
select_landing-none id vs none e h = landing-none vs e
select_landing-none id vs (some v) e h = cc

land_in-none :
    (id : Uuid) (version : Option Uuid) (detail : Option PlaybookWithVersions)
    → land_in id version detail ≡ none
    → (versions_of detail ≡ []) ⊎ (has_version (versions_of detail) version ≡ true)
land_in-none id version none h = inl refl
land_in-none id version (some p) h = elim (Bool-cases (has_version p.versions version)) [
  | inl there ↦ inr there
  | inr away ↦ inl (select_landing-none id p.versions (landing p.versions) refl (rw away at h))
]

first_item-none : (items : Option (List Playbook)) → first_item items ≡ none → items_of items ≡ []
first_item-none none h = refl
first_item-none (some []) h = refl
first_item-none (some (p ∷ ps)) h = cc

pub navigate-at :
    (b : Browser) (o : Option Uuid)
    → truthy_id (playbook_id b.query) ≡ o
    → navigate b ≡ navigate_from o b
unfolding navigate
navigate-at b o h = ap (λ x. navigate_from x b) h

pub navigate-none-IsHome : (b : Browser) → navigate b ≡ none → IsHome b
navigate-none-IsHome b h = home (truthy_id (playbook_id b.query)) refl
  where
    home : (o : Option Uuid) → truthy_id (playbook_id b.query) ≡ o → IsHome b
    home none e = inl (e, first_item-none b.items (sym (navigate-at b none e) ∙ h))
    home (some id) e =
        inr (
          id,
          e,
          land_in-none id (version_id b.query) b.detail (sym (navigate-at b (some id) e) ∙ h),
        )

pub land_in-rests :
    (b : Browser) (id : Uuid)
    → IsNamed b
    → truthy_id (playbook_id b.query) ≡ some id
    → (detail : Option PlaybookWithVersions) (o : Option Query) → b.detail ≡ detail
    → land_in id (version_id b.query) detail ≡ o
    → navigate (moved b o) ≡ none
land_in-rests b id named at detail none same e =
    navigate-at b (some id) at ∙ ap (land_in id (version_id b.query)) same ∙ e
land_in-rests b id named at none (some query) same e = cc
land_in-rests b id named at (some p) (some query) same e =
    elim (Bool-cases (has_version p.versions (version_id b.query))) [
      | inl there ↦ absurd (let stays = rw there at e in cc)
      | inr away ↦
          let ids =
            subst (λ d. All (λ (w : PlaybookVersionSummary). w.id ≢ []) (versions_of d)) same
              named.versions in
          let (playbook, (v, best, at_version, rests)) =
            select_landing-rests id (truthy_id_idem _ id at) p ids (landing p.versions) query refl
              (rw away at e) in
          navigate-at (moved b (some query)) (some id) playbook
          ∙ ap (land_in id (version_id query)) same
          ∙ rests
    ]

-- With a playbook in the address, one navigation is enough.
pub once-rests :
    (b : Browser) (id : Uuid)
    → IsNamed b
    → truthy_id (playbook_id b.query) ≡ some id
    → navigate (moved b (navigate b)) ≡ none
once-rests b id named at =
    land_in-rests b id named at b.detail (navigate b) refl (sym (navigate-at b (some id) at))

twice-rests : (b : Browser) → IsNamed b → navigate (settle 2 b) ≡ none
unfolding settle
twice-rests b named = from (truthy_id (playbook_id b.query)) refl
  where
    stays : (c : Browser) → navigate c ≡ none → navigate (moved c (navigate c)) ≡ none
    stays c h = ap (λ o. navigate (moved c o)) h ∙ h

    from_items :
        (items : Option (List Playbook))
        → b.items ≡ items
        → (o : Option Query) → navigate b ≡ o
        → first_item items ≡ o
        → navigate (moved (moved b o) (navigate (moved b o))) ≡ none
    from_items items same none e h = stays b e
    from_items none same (some query) e h = cc
    from_items (some []) same (some query) e h = cc
    from_items (some (p ∷ ps)) same (some query) e h =
        let id =
          (subst (λ i. All (λ (p : Playbook). p.id ≢ []) (items_of i)) same named.playbooks).0 in
        once-rests (moved b (some query)) p.id
          (record { playbooks = named.playbooks; versions = named.versions })
          (ap (λ q. truthy_id (playbook_id q)) (sym (some-inj h))
            ∙ ap truthy_id (playbook_id-select (some p.id) none ∙ truthy_id-named p.id id)
            ∙ truthy_id-named p.id id)

    from :
        (o : Option Uuid)
        → truthy_id (playbook_id b.query) ≡ o
        → navigate (moved (moved b (navigate b)) (navigate (moved b (navigate b)))) ≡ none
    from none e = from_items b.items refl (navigate b) refl (sym (navigate-at b none e))
    from (some id) e = stays (moved b (navigate b)) (once-rests b id named e)

-- Where no identifier is empty, the effects come to rest after at most two navigations, and then
-- the screen is at a playbook, unless there is none in the list, and at one of the versions of the
-- playbook that was loaded last, unless it has none.
pub settle-IsHome : (b : Browser) → IsNamed b → (navigate (settle 2 b) ≡ none) × IsHome (settle 2 b)
settle-IsHome b named =
    let rests = twice-rests b named in (rests, navigate-none-IsHome (settle 2 b) rests)
