-- ===== src/Editor/Form/Runs.antt =====
-- Runs of the controls of the form, as runs of the edits that it offers.
use interbellum.Common.{List, [], ◌∷◌, ◌≡◌, refl, ◌∙◌, ap, Option, none, some}
use interbellum.Draft.{PlaybookDraft, empty_draft}
use interbellum.Draft.Errors.{DraftError}
use interbellum.Editor.{Edit}
use interbellum.Editor.Closed.{IsClosed, Reaches, start, edited, Reaches-IsClosed}
use interbellum.Editor.Form.Touches.{Touch, edit_on, changed_by, go_on, author}
use interbellum.Editor.Form.Offers.{Takes, edit_of-Takes}

author-of_edit :
    (touches : List (List DraftError × Touch)) (first d : PlaybookDraft) (o : Option Edit)
    → Takes d o
    → Reaches first d
    → ((d' : PlaybookDraft)
        → Reaches first d'
        → (d'' : PlaybookDraft) × (author touches d' ≡ some d'') × Reaches first d'')
    → (d'' : PlaybookDraft) × (go_on (changed_by d o) (author touches) ≡ some d'')
      × Reaches first d''
author-of_edit touches first d none takes r rest = rest d r
author-of_edit touches first d (some e) (offered, (d', done)) r rest =
    let (d'', ran, reached) = rest d' (edited e r offered done) in
    (d'', ap (λ o. go_on o (author touches)) done ∙ ran, reached)

author-of_Reaches :
    (touches : List (List DraftError × Touch)) (first d : PlaybookDraft)
    → Reaches first d
    → (d' : PlaybookDraft) × (author touches d ≡ some d') × Reaches first d'
unfolding author edit_on
author-of_Reaches [] first d r = (d, refl, r)
author-of_Reaches ((errors, touch) ∷ touches) first d r =
    author-of_edit touches first d _ (edit_of-Takes d errors touch) r
      (author-of_Reaches touches first)

-- Whatever controls of the form are touched from a draft on, none throws, and the draft that comes
-- of it is reached from the first by edits that the form may offer.
pub author-Reaches :
    (touches : List (List DraftError × Touch)) (d : PlaybookDraft)
    → (d' : PlaybookDraft) × (author touches d ≡ some d') × Reaches d d'
author-Reaches touches d = author-of_Reaches touches d d start

-- Whatever controls of the form are touched from the empty draft on, there is a draft in the end,
-- and it refers to nothing but nodes that it has.
pub author-total :
    (touches : List (List DraftError × Touch))
    → (d : PlaybookDraft) × (author touches empty_draft ≡ some d) × IsClosed d
author-total touches =
    let (d, ran, reached) = author-Reaches touches empty_draft in
    (d, ran, Reaches-IsClosed (record { root = refl; edges = tt }) reached)
