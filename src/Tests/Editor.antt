-- ===== src/Tests/Editor.antt =====
-- Authoring a playbook of one node in the editor, and saving the sample playbook.
use interbellum.Common.{[], ◌∷◌, refl, none, some, true}
use interbellum.Text.{◌==◌}
use interbellum.Text.Sets.{has}
use interbellum.Types.{Uuid, decision}
use interbellum.Draft.{PlaybookDraft, empty_draft, new_node_draft, new_edge_draft}
use interbellum.Editor.{
  added_node, added_edge, removed_node, apply, add_node, add_edge, remove_node, without_node,
}
use interbellum.Editor.Closed.{IsClosed, Reaches, start, edited, IsClosed-of_Reaches}
use interbellum.Editor.Screen.{
  EditorProps, EditorState, SaveCall, replace_graph, initial, mutate, save,
}
use interbellum.Editor.Screen.Errors.{
  Step, Reachable, opens, goes_on, IsCurrent, IsCurrent-of_Reachable,
}
use interbellum.Tests.Samples.{small_engine, sample_draft, sample_graph}

abbrev first_id : Uuid
first_id = 97 ∷ []

abbrev one_node : PlaybookDraft
unfolding new_node_draft
one_node = add_node first_id decision empty_draft

abbrev one_edge : PlaybookDraft
one_edge = add_edge (98 ∷ []) first_id one_node

-- The node is added, an edge leaves it, and it is removed again.
authored : Reaches empty_draft (
    without_node 0
      (new_node_draft
        (record {
          kind = some decision;
          title = none;
          description = none;
          terminal_resolution = none;
          metadata = none;
        })
        first_id)
      one_edge)
unfolding apply add_node add_edge remove_node new_node_draft new_edge_draft has ◌==◌
authored =
    edited (removed_node 0)
      (edited (added_edge (98 ∷ []) first_id) (edited (added_node first_id decision) start tt refl)
        refl refl)
      tt refl

IsClosed-of_Reaches_example : IsClosed (
    without_node 0
      (new_node_draft
        (record {
          kind = some decision;
          title = none;
          description = none;
          terminal_resolution = none;
          metadata = none;
        })
        first_id)
      one_edge)
IsClosed-of_Reaches_example = IsClosed-of_Reaches _ authored

abbrev sample_props : EditorProps
sample_props = record { playbook_id = some (112 ∷ []); version_id = some (118 ∷ []) }

abbrev one_node_state : EditorState
one_node_state = record initial { current = one_node; dirty = true }

saved_untitled :
    Reachable small_engine sample_props (save small_engine sample_props one_node_state).0
unfolding mutate apply add_node one_node
saved_untitled =
    goes_on (goes_on opens (Step.edited (added_node first_id decision) refl)) Step.saved

IsCurrent-of_Reachable_example :
    IsCurrent small_engine (save small_engine sample_props one_node_state).0
IsCurrent-of_Reachable_example =
    IsCurrent-of_Reachable small_engine sample_props
      (save small_engine sample_props one_node_state).0 saved_untitled

abbrev sample_state : EditorState
sample_state = record initial { current = sample_draft }

abbrev sample_call : SaveCall
sample_call = replace_graph (118 ∷ []) sample_graph
