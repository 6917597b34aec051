-- ===== src/Resource/Stale.antt =====
-- Answers to loads that frontend/src/lib/use-resource.ts has given up do nothing.
use interbellum.Common.{
  ℕ, List, [], ◌∷◌, Bool, true, false, not, ◌≡◌, ◌≢◌, refl, ◌∙◌, ap, arith, none, some, eqb, keep,
  if-ind,
}
use interbellum.Resource.{
  Resource, ResourceEvent, runs_effect, leaves, resolves, rejects, reloads, sets, is_live, mounted,
  run_effect, resolve, reject, reload, set, happens, run,
}

module _ {T E : Type 0} where
  -- An answer to another load than this one.
  abbrev pub is_stale : ℕ → ResourceEvent T E → Bool
  is_stale load (resolves other value) = not (eqb load other)
  is_stale load (rejects other err) = not (eqb load other)
  is_stale load _ = false

  -- Neither the effect nor its cleanup runs.
  abbrev pub is_quiet : ResourceEvent T E → Bool
  is_quiet (runs_effect enabled) = false
  is_quiet leaves = false
  is_quiet _ = true

  abbrev pub AllQuiet : List (ResourceEvent T E) → Type 0
  AllQuiet [] = Unit
  AllQuiet (e ∷ es) = (is_quiet e ≡ true) × AllQuiet es

  happens-live :
      (e : ResourceEvent T E) (r : Resource T E) → is_quiet e ≡ true → (happens e r).live ≡ r.live
  unfolding happens resolve reject reload set
  happens-live (runs_effect enabled) r h = cc
  happens-live leaves r h = cc
  happens-live (resolves load value) r h =
      if-ind (λ (r' : Resource T E). r'.live ≡ r.live) (is_live r.live load) _ _ (λ t. refl)
        (λ f. refl)
  happens-live (rejects load err) r h =
      if-ind (λ (r' : Resource T E). r'.live ≡ r.live) (is_live r.live load) _ _ (λ t. refl)
        (λ f. refl)
  happens-live reloads r h = refl
  happens-live (sets value) r h = refl

  happens-stale :
      (load : ℕ) (e : ResourceEvent T E) (r : Resource T E)
      → r.live ≡ some load
      → is_stale load e ≡ true
      → happens e r ≡ r
  unfolding happens resolve reject
  happens-stale load (resolves other value) r l h =
      let dead : is_live r.live other ≡ false = rw l (ground arith) in rw dead
  happens-stale load (rejects other err) r l h =
      let dead : is_live r.live other ≡ false = rw l (ground arith) in rw dead
  happens-stale load (runs_effect enabled) r l h = cc
  happens-stale load leaves r l h = cc
  happens-stale load reloads r l h = cc
  happens-stale load (sets value) r l h = cc

  -- While a load is live, what the resource holds does not depend on the answers to other loads:
  -- they may come in any order and number, or not at all.
  pub run-keep :
      (load : ℕ) (es : List (ResourceEvent T E)) (r : Resource T E)
      → r.live ≡ some load
      → AllQuiet es
      → run es r ≡ run (keep (λ e. not (is_stale load e)) es) r
  unfolding run
  run-keep load [] r l q = refl
  run-keep load (e ∷ es) r l (q, qs) =
      let later = run-keep load es (happens e r) (happens-live e r q ∙ l) qs in
      if-ind (λ (kept : List (ResourceEvent T E)). run es (happens e r) ≡ run kept r)
        (not (is_stale load e)) _ _ (λ t. later)
        (λ f.
          later
          ∙ ap (λ r'. run (keep (λ e. not (is_stale load e)) es) r')
              (happens-stale load e r l (ground arith)))

  abbrev pub IsRested : Resource T E → Type 0
  IsRested r = r.error ≢ none → r.loading ≡ false

  happens-IsRested :
      (e : ResourceEvent T E) (r : Resource T E) → IsRested r → IsRested (happens e r)
  unfolding happens run_effect resolve reject reload set
  happens-IsRested (runs_effect true) r h = λ k. absurd (k refl)
  happens-IsRested (runs_effect false) r h = λ k. refl
  happens-IsRested leaves r h = h
  happens-IsRested (resolves load value) r h =
      if-ind IsRested (is_live r.live load) _ _ (λ t k. refl) (λ f. h)
  happens-IsRested (rejects load err) r h =
      if-ind IsRested (is_live r.live load) _ _ (λ t k. refl) (λ f. h)
  happens-IsRested reloads r h = h
  happens-IsRested (sets value) r h = λ k. absurd (k refl)

  run-IsRested :
      (es : List (ResourceEvent T E)) (r : Resource T E) → IsRested r → IsRested (run es r)
  unfolding run
  run-IsRested [] r h = h
  run-IsRested (e ∷ es) r h = run-IsRested es (happens e r) (happens-IsRested e r h)

  -- Whatever happens to a resource from its first render on, it is not loading while it shows an
  -- error.
  pub run-mounted-IsRested :
      (es : List (ResourceEvent T E)) (enabled : Bool) → IsRested (run es (mounted enabled))
  unfolding mounted
  run-mounted-IsRested es enabled = run-IsRested es (mounted enabled) (λ k. absurd (k refl))
