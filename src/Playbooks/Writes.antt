-- ===== src/Playbooks/Writes.antt =====
-- The two writes of frontend/src/app/playbooks/PlaybooksScreen.tsx: the demo playbook is installed,
-- and a version is published.
use interbellum.Common.{
  List, [], ◌∷◌, Bool, true, false, ◌≡◌, refl, ◌⊎◌, inl, inr, Option, none, some, Any,
}
use interbellum.Types.{
  Uuid, PlaybookVersionSummary, PlaybookWithVersions, PlaybookVersionDefinition,
  CreatePlaybookRequest,
}
use interbellum.Api.{Failure}
use interbellum.Api.Endpoints.{Endpoint, create_playbook, publish_playbook_version}
use interbellum.Playbooks.{Query, select}

-- What a handler catches: a failed call, or `created.versions[0]` being undefined.
pub data WriteFailure : Type 0 where
  call_failed : Failure → WriteFailure
  no_version : WriteFailure

pub data Answer (T : Type 0) : Type 0 where
  answered : T → Answer T
  failed : Failure → Answer T

-- The state of the two buttons, and the version on display.
pub record Desk : Type 0 where
  pub installing : Bool
  pub install_error : Option WriteFailure
  pub publishing : Bool
  pub publish_error : Option WriteFailure
  pub shown : Option PlaybookVersionDefinition

-- What a handler does besides: the calls it makes, what it loads again and where it goes.
pub data Deed : Type 0 where
  calls : Endpoint → Deed
  reloads_playbooks : Deed
  reloads_playbook : Deed
  goes : Query → Deed

unfoldable pub install_begins : Desk → Desk
install_begins d = record d { installing = true; install_error = none }

abbrev pub install_stops : WriteFailure → Desk → Desk
install_stops err d = record d { installing = false; install_error = some err }

abbrev pub publish_draft : Uuid → Uuid → Answer PlaybookVersionDefinition → Desk → Desk × List Deed
publish_draft playbook version (failed failure) d =
    (install_stops (call_failed failure) d, calls (publish_playbook_version version) ∷ [])
publish_draft playbook version (answered v) d = (
  record d { installing = false },
  calls (publish_playbook_version version)
      ∷ reloads_playbooks
      ∷ goes (select (some playbook) (some version))
      ∷ [],
)

-- `const draft = created.versions[0]`.
abbrev pub with_draft :
    Uuid → List PlaybookVersionSummary → Answer PlaybookVersionDefinition → Desk → Desk × List Deed
with_draft playbook [] answer d = (install_stops no_version d, [])
with_draft playbook (draft ∷ vs) answer d = publish_draft playbook draft.id answer d

abbrev pub create_answered :
    Answer PlaybookWithVersions → Answer PlaybookVersionDefinition → Desk → Desk × List Deed
create_answered (failed failure) answer d = (install_stops (call_failed failure) d, [])
create_answered (answered created) answer d =
    with_draft created.playbook.id created.versions answer d

-- The answers are those that the API gives to the two calls, where they are made.
unfoldable pub install_demo_playbook :
    CreatePlaybookRequest
    → Answer PlaybookWithVersions
    → Answer PlaybookVersionDefinition
    → Desk
    → Desk × List Deed
install_demo_playbook request created answer d =
    let (end, deeds) = create_answered created answer (install_begins d) in
    (end, calls (create_playbook request) ∷ deeds)

unfoldable pub publish_begins : Desk → Desk
publish_begins d = record d { publishing = true; publish_error = none }

-- `version.set` puts the answer on display, whichever version is selected by then.
unfoldable pub publish_ends : Answer PlaybookVersionDefinition → Desk → Desk × List Deed
publish_ends (failed failure) d =
    (record d { publishing = false; publish_error = some (call_failed failure) }, [])
publish_ends (answered v) d =
    (record d { publishing = false; shown = some v }, reloads_playbook ∷ [])

-- The demo is in place: it was created with a version, and that version was published.
abbrev pub IsInstalled :
    Answer PlaybookWithVersions → Answer PlaybookVersionDefinition → Uuid → Uuid → Type 0
IsInstalled created answer playbook version =
    (p : PlaybookWithVersions) × (v : PlaybookVersionSummary) × (rest : List PlaybookVersionSummary)
    × (w : PlaybookVersionDefinition) × (created ≡ answered p)
    × (p.versions ≡ v ∷ rest)
    × (answer ≡ answered w)
    × (p.playbook.id ≡ playbook)
    × (v.id ≡ version)

-- The screen goes somewhere.
abbrev pub Moves : List Deed → Type 0
Moves deeds = Any (λ deed. (query : Query) × (deed ≡ goes query)) deeds

-- What comes of it: the demo is in place and the screen goes to it, or an error is shown.
abbrev pub IsEnded :
    CreatePlaybookRequest
    → Answer PlaybookWithVersions
    → Answer PlaybookVersionDefinition
    → Desk × List Deed
    → Type 0
IsEnded request created answer (d, deeds) =
    (d.installing ≡ false)
    × (((playbook : Uuid) × (version : Uuid) × IsInstalled created answer playbook version
          × (d.install_error ≡ none)
          × (deeds
              ≡ calls (create_playbook request)
                ∷ calls (publish_playbook_version version)
                ∷ reloads_playbooks
                ∷ goes (select (some playbook) (some version))
                ∷ []))
        ⊎ ((err : WriteFailure) × (d.install_error ≡ some err) × ¬ Moves deeds))

with_draft-IsEnded :
    (request : CreatePlaybookRequest) (p : PlaybookWithVersions)
    (answer : Answer PlaybookVersionDefinition) (d : Desk) (vs : List PlaybookVersionSummary)
    → d.install_error ≡ none
    → p.versions ≡ vs
    → IsEnded request (answered p) answer (
      (with_draft p.playbook.id vs answer d).0,
      calls (create_playbook request) ∷ (with_draft p.playbook.id vs answer d).1,
    )
with_draft-IsEnded request p answer d [] clean e =
    (refl, inr (no_version, refl, λ m. elim m [ inl (q, h) ↦ cc | inr n ↦ elim n [ ] ]))
with_draft-IsEnded request p (failed failure) d (v ∷ vs) clean e = (
  refl,
  inr (
    call_failed failure,
    refl,
    λ m. elim m [ inl (q, h) ↦ cc | inr n ↦ elim n [ inl (q, h) ↦ cc | inr k ↦ elim k [ ] ] ],
  ),
)
with_draft-IsEnded request p (answered w) d (v ∷ vs) clean e =
    (refl, inl (p.playbook.id, v.id, (p, v, vs, w, refl, e, refl, refl, refl), clean, refl))

-- What installing the demo comes to: it is created, its first version is published, the list is
-- loaded again and the screen goes to that version, in this order and with no error; or an error is
-- shown, and the screen goes nowhere. Either way the button is free again.
pub install_demo_playbook-IsEnded :
    (request : CreatePlaybookRequest) (created : Answer PlaybookWithVersions)
    (answer : Answer PlaybookVersionDefinition) (d : Desk)
    → IsEnded request created answer (install_demo_playbook request created answer d)
unfolding install_demo_playbook install_begins
install_demo_playbook-IsEnded request (failed failure) answer d =
    (refl, inr (call_failed failure, refl, λ m. elim m [ inl (q, h) ↦ cc | inr n ↦ elim n [ ] ]))
install_demo_playbook-IsEnded request (answered p) answer d =
    with_draft-IsEnded request p answer (record d { installing = true; install_error = none })
      p.versions refl refl
