-- ===== src/Playbooks.antt =====
-- frontend/src/app/playbooks/PlaybooksScreen.tsx: the address that the screen keeps in the URL, the
-- effects that choose a playbook and a version, and the two writes.
pub mod Landing
pub mod Settles
pub mod Opened
pub mod Writes
use interbellum.Common.{
  ℕ, zero, suc, List, [], ◌∷◌, ◌++◌, Bool, true, false, ◌||◌, Option, none, some, sort, by_rank,
  find?, get_elem?, map, keep, is_empty, if◌then◌else◌,
}
use interbellum.Text.{Text, codes, ◌==◌}
use interbellum.Text.Maps.{get}
use interbellum.Types.{
  Uuid, PlaybookVersionStatus, draft, published, archived, Playbook, PlaybookVersionSummary,
  PlaybookWithVersions, PlaybookNode, PlaybookEdge, PlaybookVersionDefinition,
}

-- The entries of a `URLSearchParams`, which its text and `get` keep.
abbrev pub Query : Type 0
Query = List (Text × Text)

-- `if (value) next.set(key, value)`: an empty text is falsy.
abbrev pub when_set : Text → Option Text → Query
when_set key none = []
when_set key (some []) = []
when_set key (some (c ∷ s)) = (key, c ∷ s) ∷ []

unfoldable pub select : Option Uuid → Option Uuid → Query
select next_playbook next_version =
    when_set (codes "playbook") next_playbook ++ when_set (codes "version") next_version

-- `params.get("playbook")` and `params.get("version")`.
unfoldable pub playbook_id : Query → Option Uuid
playbook_id query = get query (codes "playbook")

unfoldable pub version_id : Query → Option Uuid
version_id query = get query (codes "version")

-- What the screen holds: the list and the playbook that were loaded last, if any.
pub record Browser : Type 0 where
  pub query : Query
  pub items : Option (List Playbook)
  pub detail : Option PlaybookWithVersions

-- Null and the empty text are falsy.
abbrev pub truthy_id : Option Uuid → Option Uuid
truthy_id none = none
truthy_id (some []) = none
truthy_id (some (c ∷ s)) = some (c ∷ s)

abbrev pub first_item : Option (List Playbook) → Option Query
first_item none = none
first_item (some []) = none
first_item (some (p ∷ ps)) = some (select (some p.id) none)

-- `versions.some((v) => v.id === versionId)`.
abbrev pub has_version : List PlaybookVersionSummary → Option Uuid → Bool
has_version [] id = false
has_version (v ∷ vs) none = false
has_version (v ∷ vs) (some id) = v.id == id || has_version vs (some id)

abbrev pub is_published : PlaybookVersionStatus → Bool
is_published published = true
is_published _ = false

abbrev pub version_number : PlaybookVersionSummary → ℕ
version_number v = v.version

-- `[...versions].sort((a, b) => b.version - a.version)`.
unfoldable pub newest_first : List PlaybookVersionSummary → List PlaybookVersionSummary
newest_first versions = sort (by_rank version_number) versions

abbrev pub or_first :
    Option PlaybookVersionSummary → List PlaybookVersionSummary → Option PlaybookVersionSummary
or_first (some v) vs = some v
or_first none vs = get_elem? vs 0

unfoldable pub landing : List PlaybookVersionSummary → Option PlaybookVersionSummary
landing versions =
    or_first (find? (λ (v : PlaybookVersionSummary). is_published v.status) (newest_first versions))
      (newest_first versions)

abbrev pub select_landing : Uuid → Option PlaybookVersionSummary → Option Query
select_landing playbook none = none
select_landing playbook (some v) = some (select (some playbook) (some v.id))

abbrev pub land_in : Uuid → Option Uuid → Option PlaybookWithVersions → Option Query
land_in playbook version none = none
land_in playbook version (some p) =
    if has_version p.versions version then none else select_landing playbook (landing p.versions)

-- Where the two effects take the screen. They exclude each other: one needs that there is no
-- playbook in the address, the other that there is one.
abbrev pub navigate_from : Option Uuid → Browser → Option Query
navigate_from none b = first_item b.items
navigate_from (some id) b = land_in id (version_id b.query) b.detail

unfoldable pub navigate : Browser → Option Query
navigate b = navigate_from (truthy_id (playbook_id b.query)) b

abbrev pub moved : Browser → Option Query → Browser
moved b none = b
moved b (some query) = record b { query = query }

-- The effects, run again after each navigation.
unfoldable pub settle : ℕ → Browser → Browser
settle zero b = b
settle (suc n) b = settle n (moved b (navigate b))

-- `onClick={() => select(item.id, null)}`: the playbook on display stays until the load is
-- answered.
unfoldable pub opened : Option Uuid → Browser → Browser
opened id b = record b { query = select id none }

unfoldable pub loaded : PlaybookWithVersions → Browser → Browser
loaded p b = record b { detail = some p }
