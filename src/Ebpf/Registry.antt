-- ===== src/Ebpf/Registry.antt =====
-- internal/ebpf/registry.go; the clock is an argument.
pub mod Memory
use apm2go.Base.{
  ℕ, List, [], ◌∷◌, Bool, true, false, not, ◌&&◌, ◌||◌, if◌then◌else◌, ltb, leb, length, map,
  is_empty, Option, none, some,
}
use apm2go.Base.Eq.{Bytes, text_eq}
use apm2go.Base.Dict.{Dict, lookup, insert}
use apm2go.Base.Sorting.{bytes_lt, sort_by}
use apm2go.Ebpf.Targets.{Target, Runtime}

abbrev pub max_remembered : ℕ
max_remembered = 4096

pub record RuntimeRegistry : Type 0 where
  pub runtimes : Dict Bytes Runtime
  pub current : List Target
  pub since : Dict Bytes ℕ

abbrev pub new_runtime_registry : RuntimeRegistry
new_runtime_registry = record { runtimes = []; current = []; since = [] }

abbrev pub is_noted {ℓ} : {V : Type ℓ} → Option V → Bool
is_noted none = false
is_noted (some v) = true

abbrev pub note_since : Bytes → ℕ → Dict Bytes ℕ → Dict Bytes ℕ
note_since name now since =
    if not (is_empty name)
      && not (is_noted (lookup name since))
      && ltb (length since) max_remembered
    then insert name now since
    else since

abbrev pub note_runtime : Bytes → Runtime → Dict Bytes Runtime → Dict Bytes Runtime
note_runtime name runtime runtimes =
    if is_empty name || is_empty runtime
    then runtimes
    else if not (is_noted (lookup name runtimes)) && leb max_remembered (length runtimes)
    then runtimes
    else insert name runtime runtimes

-- The loop over the targets.
unfoldable pub note_targets : ℕ → List Target → RuntimeRegistry → RuntimeRegistry
note_targets now [] r = r
note_targets now (t ∷ ts) r = note_targets now ts (record r {
  since = note_since t.name now r.since;
  runtimes = note_runtime t.name t.runtime r.runtimes;
})

unfoldable pub set_targets : ℕ → List Target → RuntimeRegistry → RuntimeRegistry
unfolding note_targets
set_targets now targets r = note_targets now targets (record r { current = targets })

abbrev pub or_zero_time : Option ℕ → ℕ
or_zero_time none = 0
or_zero_time (some t) = t

pub record Watched : Type 0 where
  pub target : Target
  pub first_seen : ℕ

-- The order of equal names, which Go leaves open, is that of the targets.
unfoldable pub snapshot : RuntimeRegistry → List Watched
snapshot r =
    sort_by (λ (a : Watched) (b : Watched). bytes_lt a.target.name b.target.name)
      (map (λ t. record { target = t; first_seen = or_zero_time (lookup t.name r.since) })
        r.current)

abbrev pub or_no_runtime : Option Runtime → Runtime
or_no_runtime none = []
or_no_runtime (some runtime) = runtime

unfoldable pub runtime_for : RuntimeRegistry → Bytes → Runtime
runtime_for r service = or_no_runtime (lookup service r.runtimes)
