-- ===== src/Draft/Load/RoundTrip.antt =====
-- A stored graph that is loaded into the form is saved as it was.
use interbellum.Common.{
  List, [], ◌∷◌, ◌≡◌, ◌≢◌, refl, Option, none, some, All, All-map, map-map, Mem, map, inl, inr, ◌⊎◌,
  sym, ap, ◌∙◌, if◌then◌else◌,
}
use interbellum.Text.{Text, trim}
use interbellum.Text.Trim.{trim-nil}
use interbellum.Integers.{ℤ, to_text}
use interbellum.Integers.RoundTrip.{parse_int-to_text}
use interbellum.Types.{
  Uuid, JsonObject, obj, PlaybookNodeKind, decision, terminal, PlaybookNode, PlaybookEdge,
  PlaybookGraphInput,
}
use interbellum.Json.{JsonEngine}
use interbellum.Draft.{PlaybookDraft, is_terminal, or_else}
use interbellum.Draft.Errors.{ok}
use interbellum.Draft.Serialize.{serialize_playbook_draft}
use interbellum.Draft.Serialize.Nodes.{
  write_node, parse_metadata, metadata_of_text, parsed_metadata,
}
use interbellum.Draft.Serialize.Edges.{write_edge, unless_empty, parse_sort_order}
use interbellum.Draft.Rules.{
  node_ids, edge_ids, IsMetadata, IsWritableNode, IsWritableEdge, IsWritable, IsApart, AllApart,
}
use interbellum.Draft.Rules.Accepts.{written, serialize-ok_iff}
use interbellum.Draft.Load.{
  metadata_text, node_from_definition, edge_from_definition, draft_from_definition,
}
use interbellum.Draft.Load.Contract.{
  IsResolution, IsLineOrNone, IsCoherentNode, IsCoherentEdge, AllEdgesApart, IsEdgeApart, IsRoot,
  IsCoherent,
}
use interbellum.Draft.Load.Output.{serialize-IsCoherent}

parse_sort_order-to_text : (z : ℤ) → parse_sort_order (to_text z) ≡ z
unfolding parse_sort_order
parse_sort_order-to_text z = rw (parse_int-to_text z)

-- A description that is absent stands as an empty text in the form.
unless_empty-or_else : (o : Option Text) → IsLineOrNone o → unless_empty (trim (or_else o [])) ≡ o
unless_empty-or_else none h = rw trim-nil
unless_empty-or_else (some []) h = absurd (h.0 refl)
unless_empty-or_else (some (c ∷ s)) h = rw h.1

root-or_else : (ids : List Uuid) (o : Option Uuid) → IsRoot ids o → unless_empty (or_else o []) ≡ o
root-or_else ids none h = refl
root-or_else ids (some []) h = absurd (h.0 refl)
root-or_else ids (some (c ∷ s)) h = refl

resolution-or_else :
    (kind : PlaybookNodeKind) (o : Option Text)
    → IsResolution kind o
    → (if is_terminal kind then some (trim (or_else o [])) else none) ≡ o
resolution-or_else decision none h = refl
resolution-or_else decision (some r) h = elim h [ ]
resolution-or_else terminal none h = elim h [ ]
resolution-or_else terminal (some r) h = ap some h.1

module _ (json : JsonEngine) where
  -- What `JSON.stringify` prints for the object is no white space, and `JSON.parse` reads it back.
  abbrev pub IsReadable : Option JsonObject → Type 0
  IsReadable none = Unit {0}
  IsReadable (some o) =
      (trim (json.stringify (obj o)) ≢ [])
      × (json.parse (trim (json.stringify (obj o))) ≡ some (obj o))

  abbrev pub AllReadable : PlaybookGraphInput → Type 0
  AllReadable g = All (λ n. IsReadable n.metadata) g.nodes

  metadata_of_text-value :
      (s : Text) (o : JsonObject)
      → s ≢ []
      → json.parse s ≡ some (obj o)
      → (metadata_of_text json s).value ≡ some o
  unfolding metadata_of_text parsed_metadata
  metadata_of_text-value [] o h k = absurd (h refl)
  metadata_of_text-value (c ∷ s) o h k = rw k

  parse_metadata-metadata_text :
      (o : Option JsonObject)
      → IsReadable o
      → (parse_metadata json (metadata_text json o)).value ≡ o
  unfolding parse_metadata metadata_of_text
  parse_metadata-metadata_text none h = rw trim-nil
  parse_metadata-metadata_text (some o) h = metadata_of_text-value _ o h.0 h.1

  metadata_text-IsMetadata :
      (o : Option JsonObject) → IsReadable o → IsMetadata json (metadata_text json o)
  metadata_text-IsMetadata none h = inl trim-nil
  metadata_text-IsMetadata (some o) h = inr (o, h.1)

  write_node-node_from_definition :
      (n : PlaybookNode)
      → IsCoherentNode n
      → IsReadable n.metadata
      → write_node json (node_from_definition json n) ≡ n
  unfolding write_node node_from_definition
  write_node-node_from_definition n w h = λ i. record n {
    title = w.title.1 i;
    description = w.description i;
    terminal_resolution = resolution-or_else n.kind n.terminal_resolution w.resolution i;
    metadata = parse_metadata-metadata_text n.metadata h i;
  }

  write_edge-edge_from_definition :
      (ids : List Uuid) (e : PlaybookEdge)
      → IsCoherentEdge ids e
      → write_edge (edge_from_definition json e) ≡ e
  unfolding write_edge edge_from_definition
  write_edge-edge_from_definition ids e w = λ i. record e {
    label = w.label.1 i;
    description = unless_empty-or_else e.description w.description i;
    sort_order = parse_sort_order-to_text e.sort_order i;
  }

  nodes-eq :
      (ns : List PlaybookNode)
      → All IsCoherentNode ns
      → All (λ n. IsReadable n.metadata) ns
      → map (write_node json) (map (node_from_definition json) ns) ≡ ns
  nodes-eq [] h k = refl
  nodes-eq (n ∷ ns) h k = cc (write_node-node_from_definition n h.0 k.0, nodes-eq ns h.1 k.1)

  edges-eq :
      (ids : List Uuid) (es : List PlaybookEdge)
      → All (IsCoherentEdge ids) es
      → map write_edge (map (edge_from_definition json) es) ≡ es
  edges-eq ids [] h = refl
  edges-eq ids (e ∷ es) h = cc (write_edge-edge_from_definition ids e h.0, edges-eq ids es h.1)

  loaded-ids :
      (ns : List PlaybookNode) → node_ids (map (node_from_definition json) ns) ≡ map (λ n. n.id) ns
  unfolding node_from_definition
  loaded-ids ns = map-map (λ n. n.id) (node_from_definition json) ns

  loaded-edge_ids :
      (es : List PlaybookEdge) → edge_ids (map (edge_from_definition json) es) ≡ map (λ e. e.id) es
  unfolding edge_from_definition
  loaded-edge_ids es = map-map (λ e. e.id) (edge_from_definition json) es

  loaded_resolution :
      (kind : PlaybookNodeKind) (o : Option Text)
      → IsResolution kind o
      → kind ≡ terminal
      → trim (or_else o []) ≢ []
  loaded_resolution decision o h k = cc
  loaded_resolution terminal none h k = elim h [ ]
  loaded_resolution terminal (some r) h k = λ e. h.0 (sym h.1 ∙ e)

  loaded-IsWritableNode :
      (ns : List PlaybookNode)
      → All IsCoherentNode ns
      → All (λ n. IsReadable n.metadata) ns
      → All (IsWritableNode json) (map (node_from_definition json) ns)
  unfolding node_from_definition
  loaded-IsWritableNode [] h k = tt
  loaded-IsWritableNode (n ∷ ns) (w, h) (m, k) = (
    record {
      title = λ e. w.title.0 (sym w.title.1 ∙ e);
      resolution = loaded_resolution n.kind n.terminal_resolution w.resolution;
      metadata = metadata_text-IsMetadata n.metadata m;
    },
    loaded-IsWritableNode ns h k,
  )

  loaded-IsWritableEdge :
      (ids : List Uuid) (e : PlaybookEdge)
      → IsCoherentEdge ids e
      → IsWritableEdge ids (edge_from_definition json e)
  unfolding edge_from_definition
  loaded-IsWritableEdge ids e w = record {
    label = λ q. w.label.0 (sym w.label.1 ∙ q);
    from_picked = w.from_picked;
    from_known = w.from_known;
    to_picked = w.to_picked;
    to_known = w.to_known;
  }

  loaded-IsApart :
      (ids : List Uuid) (e : PlaybookEdge) (es : List PlaybookEdge)
      → IsCoherentEdge ids e
      → All (IsCoherentEdge ids) es
      → All (IsEdgeApart e) es
      → All (IsApart (edge_from_definition json e)) (map (edge_from_definition json) es)
  unfolding edge_from_definition
  loaded-IsApart ids e [] w h k = tt
  loaded-IsApart ids e (f ∷ es) w h k = (
    λ same repeats. k.0 same (sym w.label.1 ∙ repeats ∙ h.0.label.1),
    loaded-IsApart ids e es w h.1 k.1,
  )

  loaded-AllApart :
      (ids : List Uuid) (es : List PlaybookEdge)
      → All (IsCoherentEdge ids) es
      → AllEdgesApart es
      → AllApart (map (edge_from_definition json) es)
  loaded-AllApart ids [] h k = tt
  loaded-AllApart ids (e ∷ es) h k =
      (loaded-IsApart ids e es h.0 h.1 k.0, loaded-AllApart ids es h.1 k.1)

  loaded_root :
      (ids : List Uuid) (o : Option Uuid)
      → IsRoot ids o
      → (or_else o [] ≡ []) ⊎ Mem (or_else o []) ids
  loaded_root ids none h = inl refl
  loaded_root ids (some r) h = inr h.1

  loaded-IsWritable :
      (g : PlaybookGraphInput)
      → IsCoherent g
      → AllReadable g
      → IsWritable json (draft_from_definition json g)
  unfolding draft_from_definition
  loaded-IsWritable g w h = record {
    nodes_distinct = rw (loaded-ids g.nodes) w.nodes_distinct;
    nodes_writable = loaded-IsWritableNode g.nodes w.nodes h;
    edges_distinct = rw (loaded-edge_ids g.edges) w.edges_distinct;
    edges_writable = rw (loaded-ids g.nodes) (
        All-map (IsWritableEdge _) (edge_from_definition json) (loaded-IsWritableEdge _) g.edges
          w.edges);
    labels_apart = loaded-AllApart _ g.edges w.edges w.labels_apart;
    root_known = rw (loaded-ids g.nodes) (loaded_root _ g.root_node_id w.root_known);
  }

  written-draft_from_definition :
      (g : PlaybookGraphInput)
      → IsCoherent g
      → AllReadable g
      → written json (draft_from_definition json g) ≡ g
  unfolding written draft_from_definition
  written-draft_from_definition g w h = λ i. record {
    root_node_id = root-or_else _ g.root_node_id w.root_known i;
    nodes = nodes-eq g.nodes w.nodes h i;
    edges = edges-eq _ g.edges w.edges i;
  }

  -- A graph whose parts fit together, loaded into the form and saved again, is sent as it was,
  -- where JSON.parse reads back what JSON.stringify prints for its metadata.
  pub serialize-draft_from_definition :
      (g : PlaybookGraphInput)
      → IsCoherent g
      → AllReadable g
      → serialize_playbook_draft json (draft_from_definition json g) ≡ ok g
  serialize-draft_from_definition g w h =
      (serialize-ok_iff json (draft_from_definition json g) g).1
        (loaded-IsWritable g w h, written-draft_from_definition g w h)

  -- What a draft was saved as is saved again unchanged after it is loaded back into the form.
  pub serialize_reload :
      (d : PlaybookDraft) (g : PlaybookGraphInput)
      → serialize_playbook_draft json d ≡ ok g
      → AllReadable g
      → serialize_playbook_draft json (draft_from_definition json g) ≡ ok g
  serialize_reload d g saved h =
      serialize-draft_from_definition g (serialize-IsCoherent json d g saved) h
