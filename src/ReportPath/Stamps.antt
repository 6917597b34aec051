-- ===== src/ReportPath/Stamps.antt =====
-- The step numbers that an overlay stamps on nodes and edges.
use native.Mathlib.Nat.{le_trans}
use interbellum.Common.{
  ◌⊎◌, ℕ, List, [], ◌∷◌, Bool, true, false, ◌≡◌, refl, sym, subst, ◌∙◌, ap, ◌≢◌, ◌≤◌, arith, Option,
  none, some, inl, inr, Bool-cases, All, Any, IsSorted, sort-IsSorted, sort-All, sort-Any,
  if◌then◌else◌,
}
use interbellum.Text.{◌==◌}
use interbellum.Text.Equality.{==_iff}
use interbellum.Text.Maps.{get, get-put, has_key}
use interbellum.Types.{Uuid, PathStep, PlaybookEdge}
use interbellum.ReportPath.{
  PathOverlay, empty_overlay, visit, stamp_node, select_edge, take_step, take_steps, arrive,
  arrive_by, precedes, overlay_of_steps, ordered, build_path_overlay,
}

abbrev number_of : PathStep → ℕ
number_of s = s.step_number

-- The number of the first step of the list at the node, unless one is stamped already.
first_at : Option ℕ → List PathStep → Uuid → Option ℕ
first_at (some k) ss x = some k
first_at none [] x = none
first_at none (s ∷ ss) x = first_at (if s.node_id == x then some s.step_number else none) ss x

-- The number of the last step of the list that selects the edge, or the one that is stamped.
last_at : Option ℕ → List PathStep → Uuid → Option ℕ
last_at k [] x = k
last_at k (s ∷ ss) x = last_at (if s.selected_edge_id == x then some s.step_number else k) ss x

take_step-node :
    (o : PathOverlay) (s : PathStep) (x : Uuid)
    → get (take_step o s).step_at_node x ≡ elim (get o.step_at_node x) [
      | some k ↦ some k
      | none ↦ if s.node_id == x then some s.step_number else none
    ]
unfolding take_step stamp_node select_edge visit has_key
take_step-node o s x = ground (arith, get-put o.step_at_node s.node_id x s.step_number, same)
  where
    same : s.node_id == x ≡ true → get o.step_at_node s.node_id ≡ get o.step_at_node x
    same e = rw ((==_iff s.node_id x).0 e)

take_step-edge :
    (o : PathOverlay) (s : PathStep) (x : Uuid)
    → get (take_step o s).step_at_edge x
      ≡ (if s.selected_edge_id == x then some s.step_number else get o.step_at_edge x)
unfolding take_step stamp_node select_edge visit
take_step-edge o s x = ground (arith, get-put o.step_at_edge s.selected_edge_id x s.step_number)

take_steps-node :
    (o : PathOverlay) (ss : List PathStep) (x : Uuid)
    → get (take_steps o ss).step_at_node x ≡ first_at (get o.step_at_node x) ss x
unfolding take_steps first_at
take_steps-node o [] x = ground arith
take_steps-node o (s ∷ ss) x =
    take_steps-node (take_step o s) ss x
    ∙ ap (λ k. first_at k ss x) (take_step-node o s x)
    ∙ by_cases (get o.step_at_node x)
  where
    by_cases :
        (k : Option ℕ)
        → first_at
            (elim k [
              | some n ↦ some n
              | none ↦ if s.node_id == x then some s.step_number else none
            ])
            ss
            x
          ≡ first_at k (s ∷ ss) x
    by_cases none = refl
    by_cases (some n) = refl

take_steps-edge :
    (o : PathOverlay) (ss : List PathStep) (x : Uuid)
    → get (take_steps o ss).step_at_edge x ≡ last_at (get o.step_at_edge x) ss x
unfolding take_steps last_at
take_steps-edge o [] x = refl
take_steps-edge o (s ∷ ss) x =
    take_steps-edge (take_step o s) ss x ∙ ap (λ k. last_at k ss x) (take_step-edge o s x)

-- `k` is the least number of a step taken from the node; there is none if there is no such step.
abbrev pub IsFirstStep : List PathStep → Uuid → Option ℕ → Type 0
IsFirstStep path x none = All (λ s. s.node_id ≢ x) path
IsFirstStep path x (some k) =
    Any (λ s. (s.node_id ≡ x) × (s.step_number ≡ k)) path
    × All (λ s. s.node_id ≡ x → k ≤ s.step_number) path

-- `k` is the greatest number of a step that selected the edge; there is none if there is no such
-- step.
abbrev pub IsLastStep : List PathStep → Uuid → Option ℕ → Type 0
IsLastStep path x none = All (λ s. s.selected_edge_id ≢ x) path
IsLastStep path x (some k) =
    Any (λ s. (s.selected_edge_id ≡ x) × (s.step_number ≡ k)) path
    × All (λ s. s.selected_edge_id ≡ x → s.step_number ≤ k) path

not_same : (s x : Uuid) → s == x ≡ false → s ≢ x
not_same s x h e = ground (arith, ==_iff s x)

All-weaken :
    (P Q : PathStep → Type 0) (ss : List PathStep)
    → ((s : PathStep) → P s → Q s)
    → All P ss
    → All Q ss
All-weaken P Q [] f h = tt
All-weaken P Q (s ∷ ss) f h = (f s h.0, All-weaken P Q ss f h.1)

IsFirstStep-cons :
    (s : PathStep) (ss : List PathStep) (x : Uuid) (k : Option ℕ)
    → s.node_id ≢ x
    → IsFirstStep ss x k
    → IsFirstStep (s ∷ ss) x k
IsFirstStep-cons s ss x none h k = (h, k)
IsFirstStep-cons s ss x (some n) h k = (inr k.0, ((λ e. absurd (h e)), k.1))

first_at-IsFirstStep :
    (ss : List PathStep) (x : Uuid) → IsSorted number_of ss → IsFirstStep ss x (first_at none ss x)
unfolding first_at
first_at-IsFirstStep [] x h = tt
first_at-IsFirstStep (s ∷ ss) x h = elim (Bool-cases (s.node_id == x)) [
  | inl same ↦ at_head same (
    inl ((==_iff s.node_id x).0 same, refl),
    ((λ _. omega arith), All-weaken _ _ ss (λ t le _. le) h.0),
  )
  | inr other ↦ at_head other (
      IsFirstStep-cons s ss x (first_at none ss x) (not_same s.node_id x other)
        (first_at-IsFirstStep ss x h.1))
]
  where
    at_head :
        {b : Bool}
        → s.node_id == x ≡ b
        → IsFirstStep (s ∷ ss) x (first_at (if b then some s.step_number else none) ss x)
        → IsFirstStep (s ∷ ss) x (first_at none (s ∷ ss) x)
    at_head e =
        subst (λ c. IsFirstStep (s ∷ ss) x (first_at (if c then some s.step_number else none) ss x))
          (sym e)

-- After a stamp whose number is not above those to come.
last_at-some :
    (k : ℕ) (ss : List PathStep) (x : Uuid)
    → IsSorted number_of ss
    → All (λ s. k ≤ s.step_number) ss
    → (m : ℕ) × (last_at (some k) ss x ≡ some m)
      × (k ≤ m)
      × ((m ≡ k) ⊎ Any (λ s. (s.selected_edge_id ≡ x) × (s.step_number ≡ m)) ss)
      × All (λ s. s.selected_edge_id ≡ x → s.step_number ≤ m) ss
unfolding last_at
last_at-some k [] x h b = (k, refl, omega arith, inl refl, tt)
last_at-some k (s ∷ ss) x h b = elim (Bool-cases (s.selected_edge_id == x)) [
  | inl same ↦
      let (m, e, le, where_from, top) = last_at-some s.step_number ss x h.1 h.0 in
      (
        m,
        rw same e,
        le_trans b.0 le,
        elim where_from [
          | inl q ↦ inr (inl ((==_iff s.selected_edge_id x).0 same, sym q))
          | inr q ↦ inr (inr q)
        ],
        ((λ _. le), top),
      )
  | inr other ↦
      let (m, e, le, where_from, top) = last_at-some k ss x h.1 b.1 in
      (
        m,
        rw other e,
        le,
        elim where_from [ inl q ↦ inl q | inr q ↦ inr (inr q) ],
        ((λ q. absurd (not_same s.selected_edge_id x other q)), top),
      )
]

IsLastStep-cons :
    (s : PathStep) (ss : List PathStep) (x : Uuid) (k : Option ℕ)
    → s.selected_edge_id ≢ x
    → IsLastStep ss x k
    → IsLastStep (s ∷ ss) x k
IsLastStep-cons s ss x none h k = (h, k)
IsLastStep-cons s ss x (some n) h k = (inr k.0, ((λ e. absurd (h e)), k.1))

last_at-IsLastStep :
    (ss : List PathStep) (x : Uuid) → IsSorted number_of ss → IsLastStep ss x (last_at none ss x)
unfolding last_at
last_at-IsLastStep [] x h = tt
last_at-IsLastStep (s ∷ ss) x h = elim (Bool-cases (s.selected_edge_id == x)) [
  | inl same ↦
      let (m, e, le, where_from, top) = last_at-some s.step_number ss x h.1 h.0 in
      let is_x = (==_iff s.selected_edge_id x).0 same in
      rw (same, e) (elim where_from [ inl q ↦ inl (is_x, sym q) | inr q ↦ inr q ], ((λ _. le), top))
  | inr other ↦ rw other (
      IsLastStep-cons s ss x (last_at none ss x) (not_same s.selected_edge_id x other)
        (last_at-IsLastStep ss x h.1))
]

IsFirstStep-of_ordered :
    (path : List PathStep) (x : Uuid) (k : Option ℕ)
    → IsFirstStep (ordered path) x k
    → IsFirstStep path x k
unfolding ordered
IsFirstStep-of_ordered path x none h = sort-All precedes _ path h
IsFirstStep-of_ordered path x (some k) h =
    (sort-Any precedes _ path h.0, sort-All precedes _ path h.1)

IsLastStep-of_ordered :
    (path : List PathStep) (x : Uuid) (k : Option ℕ)
    → IsLastStep (ordered path) x k
    → IsLastStep path x k
unfolding ordered
IsLastStep-of_ordered path x none h = sort-All precedes _ path h
IsLastStep-of_ordered path x (some k) h =
    (sort-Any precedes _ path h.0, sort-All precedes _ path h.1)

arrive_by-stamps :
    (o : PathOverlay) (e : Option PlaybookEdge)
    → ((arrive_by o e).step_at_node ≡ o.step_at_node)
      × ((arrive_by o e).step_at_edge ≡ o.step_at_edge)
unfolding arrive visit
arrive_by-stamps o none = (refl, refl)
arrive_by-stamps o (some e) = (ground arith, ground arith)

ordered-IsSorted : (path : List PathStep) → IsSorted number_of (ordered path)
unfolding ordered
ordered-IsSorted path = sort-IsSorted number_of path

-- A node is stamped exactly if a step was taken from it, and then with the least of their numbers,
-- whatever the order in which the steps are listed.
pub step_at_node-IsFirstStep :
    (path : List PathStep) (edges : List PlaybookEdge) (root : Option Uuid) (x : Uuid)
    → IsFirstStep path x (get (build_path_overlay path edges root).step_at_node x)
unfolding build_path_overlay overlay_of_steps get
step_at_node-IsFirstStep [] edges none x = tt
step_at_node-IsFirstStep [] edges (some []) x = tt
step_at_node-IsFirstStep [] edges (some (c ∷ s)) x = tt
step_at_node-IsFirstStep (s ∷ ss) edges root x = IsFirstStep-of_ordered (s ∷ ss) x _ (
    rw ((arrive_by-stamps _ _).0, take_steps-node empty_overlay (ordered (s ∷ ss)) x)
      (first_at-IsFirstStep (ordered (s ∷ ss)) x (ordered-IsSorted (s ∷ ss))))

-- An edge is stamped exactly if a step selected it, and then with the greatest of their numbers.
pub step_at_edge-IsLastStep :
    (path : List PathStep) (edges : List PlaybookEdge) (root : Option Uuid) (x : Uuid)
    → IsLastStep path x (get (build_path_overlay path edges root).step_at_edge x)
unfolding build_path_overlay overlay_of_steps get
step_at_edge-IsLastStep [] edges none x = tt
step_at_edge-IsLastStep [] edges (some []) x = tt
step_at_edge-IsLastStep [] edges (some (c ∷ s)) x = tt
step_at_edge-IsLastStep (s ∷ ss) edges root x = IsLastStep-of_ordered (s ∷ ss) x _ (
    rw ((arrive_by-stamps _ _).1, take_steps-edge empty_overlay (ordered (s ∷ ss)) x)
      (last_at-IsLastStep (ordered (s ∷ ss)) x (ordered-IsSorted (s ∷ ss))))
