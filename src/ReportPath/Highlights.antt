-- ===== src/ReportPath/Highlights.antt =====
-- What an overlay highlights, on every branch of `buildPathOverlay` and `buildOverlayFromSteps`.
use interbellum.Common.{
  List, [], ◌∷◌, Bool, true, false, ◌||◌, ◌≡◌, refl, sym, ap, ◌∙◌, arith, Option, none, some, map,
  Mem, Nodup, ◌⊎◌, inl, inr, Bool-cases, get_last?, ◌↔◌,
}
use interbellum.Text.{◌==◌}
use interbellum.Text.Equality.{==_iff}
use interbellum.Text.Sets.{has, has_iff, has-add, Distinct→Nodup}
use interbellum.Types.{Uuid, PathStep, PlaybookEdge, InvestigationStep}
use interbellum.ReportPath.{
  PathOverlay, empty_overlay, take_steps, arrive_by, last_edge, overlay_at_root, overlay_of_steps,
  ordered, build_path_overlay, path_step, stand_at, build_overlay_from_steps,
}
use interbellum.ReportPath.Order.{ordered-has}
use interbellum.ReportPath.Visited.{
  IsConsistent, node_of, selected_of, take_steps-IsConsistent, take_steps-visited,
  take_steps-selected, take_steps-final, arrive-IsConsistent, arrive-final, arrive-visited,
  arrive-selected,
}

abbrev pub is_node : Option Uuid → Uuid → Bool
is_node none y = false
is_node (some x) y = x == y

pub is_node_iff : (o : Option Uuid) (y : Uuid) → (is_node o y ≡ true) ↔ (o ≡ some y)
is_node_iff none y = (λ h. cc, λ h. cc)
is_node_iff (some x) y = (λ h. ap some ((==_iff x y).0 h), λ h. (==_iff x y).1 (cc))

empty-IsConsistent : IsConsistent empty_overlay
empty-IsConsistent = record { same = λ x. refl; distinct = tt }

arrive_by-IsConsistent :
    (o : PathOverlay) (e : Option PlaybookEdge) → IsConsistent o → IsConsistent (arrive_by o e)
arrive_by-IsConsistent o none v = v
arrive_by-IsConsistent o (some e) v = arrive-IsConsistent o e.to_node_id v

overlay_at_root-IsConsistent : (root : Option Uuid) → IsConsistent (overlay_at_root root)
unfolding has
overlay_at_root-IsConsistent none = empty-IsConsistent
overlay_at_root-IsConsistent (some []) = empty-IsConsistent
overlay_at_root-IsConsistent (some (c ∷ s)) = record {
  same = λ x. ground (arith, has-add [] (c ∷ s) x);
  distinct = (refl, tt);
}

pub build-IsConsistent :
    (path : List PathStep) (edges : List PlaybookEdge) (root : Option Uuid)
    → IsConsistent (build_path_overlay path edges root)
unfolding build_path_overlay overlay_of_steps
build-IsConsistent [] edges root = overlay_at_root-IsConsistent root
build-IsConsistent (s ∷ ss) edges root =
    arrive_by-IsConsistent _ _
      (take_steps-IsConsistent empty_overlay (ordered (s ∷ ss)) empty-IsConsistent)

stand_at-IsConsistent :
    (o : PathOverlay) (c : Option Uuid) → IsConsistent o → IsConsistent (stand_at o c)
stand_at-IsConsistent o none v = v
stand_at-IsConsistent o (some []) v = v
stand_at-IsConsistent o (some (c ∷ s)) v = arrive-IsConsistent o (c ∷ s) v

-- `visited` is the set of `visitedNodeIds`, which lists no node twice.
abbrev pub IsListed : PathOverlay → Type 0
IsListed o = Nodup o.visited_node_ids × ((x : Uuid) → Mem x o.visited ↔ Mem x o.visited_node_ids)

IsListed-of_IsConsistent : (o : PathOverlay) → IsConsistent o → IsListed o
IsListed-of_IsConsistent o v = (
  Distinct→Nodup _ v.distinct,
  λ x. (
    λ m. (has_iff _ x).0 (sym (v.same x) ∙ (has_iff _ x).1 m),
    λ m. (has_iff _ x).0 (v.same x ∙ (has_iff _ x).1 m),
  ),
)

-- In every overlay of a report the set `visited` holds what `visitedNodeIds` lists, and no node is
-- listed twice.
pub build_path_overlay-IsListed :
    (path : List PathStep) (edges : List PlaybookEdge) (root : Option Uuid)
    → IsListed (build_path_overlay path edges root)
build_path_overlay-IsListed path edges root =
    IsListed-of_IsConsistent _ (build-IsConsistent path edges root)

-- So it is in every overlay of a running investigation.
pub build_overlay_from_steps-IsListed :
    (steps : List InvestigationStep) (edges : List PlaybookEdge) (current : Option Uuid)
    → IsListed (build_overlay_from_steps steps edges current)
unfolding build_overlay_from_steps
build_overlay_from_steps-IsListed steps edges current =
    IsListed-of_IsConsistent _
      (stand_at-IsConsistent _ current (build-IsConsistent (map path_step steps) edges none))

arrive_by-visited :
    (o : PathOverlay) (e : Option PlaybookEdge) (y : Uuid)
    → o.final_node_id ≡ none
    → has (arrive_by o e).visited y ≡ (has o.visited y || is_node (arrive_by o e).final_node_id y)
arrive_by-visited o none y h = rw h (ground arith)
arrive_by-visited o (some e) y h =
    rw (arrive-final o e.to_node_id) (arrive-visited o e.to_node_id y)

pub build-visited :
    (path : List PathStep) (edges : List PlaybookEdge) (root : Option Uuid) (y : Uuid)
    → has (build_path_overlay path edges root).visited y
      ≡ (has (map node_of path) y || is_node (build_path_overlay path edges root).final_node_id y)
unfolding build_path_overlay overlay_of_steps has
build-visited [] edges none y = refl
build-visited [] edges (some []) y = refl
build-visited [] edges (some (c ∷ s)) y = ground (arith, has-add [] (c ∷ s) y)
build-visited (s ∷ ss) edges root y =
    let o = take_steps empty_overlay (ordered (s ∷ ss)) in
    let final = take_steps-final empty_overlay (ordered (s ∷ ss)) in
    ground (
      arith,
      arrive_by-visited o (last_edge edges (get_last? (ordered (s ∷ ss)))) y final,
      take_steps-visited empty_overlay (ordered (s ∷ ss)) y,
      ordered-has node_of (s ∷ ss) y,
    )

-- Exactly the nodes that a step of the path was taken from are visited, and the final node.
pub visited_iff :
    (path : List PathStep) (edges : List PlaybookEdge) (root : Option Uuid) (y : Uuid)
    → Mem y (build_path_overlay path edges root).visited_node_ids
      ↔ (Mem y (map node_of path) ⊎ ((build_path_overlay path edges root).final_node_id ≡ some y))
visited_iff path edges root y = (to, from)
  where
    o : PathOverlay
    o = build_path_overlay path edges root

    listed : has o.visited_node_ids y ≡ (has (map node_of path) y || is_node o.final_node_id y)
    listed = sym ((build-IsConsistent path edges root).same y) ∙ build-visited path edges root y

    to : Mem y o.visited_node_ids → Mem y (map node_of path) ⊎ (o.final_node_id ≡ some y)
    to m = elim (Bool-cases (has (map node_of path) y)) [
      | inl on_path ↦ inl ((has_iff _ y).0 on_path)
      | inr off_path ↦
          let seen = (has_iff _ y).1 m in
          inr ((is_node_iff o.final_node_id y).0 (ground (arith, listed)))
    ]

    from : Mem y (map node_of path) ⊎ (o.final_node_id ≡ some y) → Mem y o.visited_node_ids
    from (inl m) = let seen = (has_iff _ y).1 m in (has_iff _ y).0 (ground (arith, listed))
    from (inr e) =
        let final = (is_node_iff o.final_node_id y).1 e in (has_iff _ y).0 (ground (arith, listed))

arrive_by-selected :
    (o : PathOverlay) (e : Option PlaybookEdge)
    → (arrive_by o e).selected_edge_ids ≡ o.selected_edge_ids
arrive_by-selected o none = refl
arrive_by-selected o (some e) = arrive-selected o e.to_node_id

pub build-selected :
    (path : List PathStep) (edges : List PlaybookEdge) (root : Option Uuid) (y : Uuid)
    → has (build_path_overlay path edges root).selected_edge_ids y ≡ has (map selected_of path) y
unfolding build_path_overlay overlay_of_steps has
build-selected [] edges none y = refl
build-selected [] edges (some []) y = refl
build-selected [] edges (some (c ∷ s)) y = refl
build-selected (s ∷ ss) edges root y =
    rw (arrive_by-selected _ (last_edge edges (get_last? (ordered (s ∷ ss)))))
      (take_steps-selected empty_overlay (ordered (s ∷ ss)) y ∙ ordered-has selected_of (s ∷ ss) y)

-- Exactly the edges that the path selected are selected.
pub selected_iff :
    (path : List PathStep) (edges : List PlaybookEdge) (root : Option Uuid) (y : Uuid)
    → Mem y (build_path_overlay path edges root).selected_edge_ids ↔ Mem y (map selected_of path)
selected_iff path edges root y = (
  λ m. (has_iff _ y).0 (sym (build-selected path edges root y) ∙ (has_iff _ y).1 m),
  λ m. (has_iff _ y).0 (build-selected path edges root y ∙ (has_iff _ y).1 m),
)
