-- ===== src/Resource.antt =====
-- frontend/src/lib/use-resource.ts: one resource of a screen, with its loads told apart by number.
pub mod Stale
use interbellum.Common.{
  ℕ, suc, List, [], ◌∷◌, Bool, true, false, Option, none, some, eqb, if◌then◌else◌,
}

-- `live` is the load whose controller is not aborted, `started` how many there were.
pub record Resource (T E : Type 0) : Type 0 where
  pub found : Option T
  pub error : Option E
  pub loading : Bool
  pub nonce : ℕ
  pub live : Option ℕ
  pub started : ℕ

-- The dependencies or `enabled` changed, or the screen was left; a load was answered; and what
-- the screen calls.
pub data ResourceEvent (T E : Type 0) : Type 0 where
  runs_effect : Bool → ResourceEvent T E
  leaves : ResourceEvent T E
  resolves : ℕ → T → ResourceEvent T E
  rejects : ℕ → E → ResourceEvent T E
  reloads : ResourceEvent T E
  sets : T → ResourceEvent T E

abbrev pub is_live : Option ℕ → ℕ → Bool
is_live none load = false
is_live (some current) load = eqb current load

module _ {T E : Type 0} where
  unfoldable pub mounted : Bool → Resource T E
  mounted enabled = record {
    found = none;
    error = none;
    loading = enabled;
    nonce = 0;
    live = none;
    started = 0;
  }

  -- The cleanup of the effect before it aborts the load that was live.
  unfoldable pub run_effect : Bool → Resource T E → Resource T E
  run_effect false r = record r { loading = false; live = none }
  run_effect true r = record r {
    loading = true;
    error = none;
    live = some r.started;
    started = suc r.started;
  }

  unfoldable pub resolve : ℕ → T → Resource T E → Resource T E
  resolve load value r =
      if is_live r.live load then record r { found = some value; loading = false } else r

  unfoldable pub reject : ℕ → E → Resource T E → Resource T E
  reject load err r =
      if is_live r.live load then record r { error = some err; loading = false } else r

  unfoldable pub reload : Resource T E → Resource T E
  reload r = record r { nonce = suc r.nonce }

  unfoldable pub set : T → Resource T E → Resource T E
  set value r = record r { found = some value; error = none }

  unfoldable pub happens : ResourceEvent T E → Resource T E → Resource T E
  unfolding run_effect resolve reject reload set
  happens (runs_effect enabled) r = run_effect enabled r
  happens leaves r = record r { live = none }
  happens (resolves load value) r = resolve load value r
  happens (rejects load err) r = reject load err r
  happens reloads r = reload r
  happens (sets value) r = set value r

  unfoldable pub run : List (ResourceEvent T E) → Resource T E → Resource T E
  run [] r = r
  run (e ∷ es) r = run es (happens e r)
