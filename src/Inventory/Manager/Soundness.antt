-- ===== src/Inventory/Manager/Soundness.antt =====
-- The invariant of the entries, one operation on one entry at a time.
use apm2go.Base.{ℕ, ◌≤◌, ◌<◌, Bool, Option, none, some, ◌≡◌, ◌≢◌, refl, ◌⊎◌, arith}
use apm2go.Base.Eq.{Bytes}
use apm2go.Inventory.Types.{Jvm, Entry, failed, attaching, InjectResult, apply_result}
use apm2go.Inventory.Lifecycle.{Config, classify, new_entry, refresh}
use apm2go.Inventory.Manager.{clear_budget, apply_manual, begin_attach, fail_attach}
use apm2go.Inventory.Manager.Reaping.{after_pass}

-- A retry is scheduled only for a failed process, or for one whose retry is under way, and never
-- for a failed one that has used up its attempts.
pub record IsSound (cfg : Config) (e : Entry) : Type 0 where
  pub scheduled : e.next_attempt ≢ 0 → (e.state ≡ failed) ⊎ (e.state ≡ attaching)
  pub budget : e.state ≡ failed → e.next_attempt ≢ 0 → e.attempts < cfg.max_retries

classify_keeps :
    (cfg : Config) (now : ℕ) (e : Entry)
    → ((classify cfg now e).next_attempt ≡ e.next_attempt)
      × ((classify cfg now e).attempts ≡ e.attempts)
unfolding classify
classify_keeps cfg now e = ground arith

pub new_entry-IsSound :
    (cfg : Config) (j : Jvm) (now seen : ℕ)
    → IsSound cfg (record (classify cfg now (new_entry j now)) { last_seen = seen })
unfolding new_entry
new_entry-IsSound cfg j now seen = ground (arith, classify_keeps cfg now (new_entry j now))

pub attempts-new_entry :
    (cfg : Config) (j : Jvm) (now : ℕ) → (classify cfg now (new_entry j now)).attempts ≡ 0
unfolding new_entry
attempts-new_entry cfg j now = ground (arith, classify_keeps cfg now (new_entry j now))

pub refresh-IsSound :
    (cfg : Config) (j : Jvm) (now seen : ℕ) (e : Entry)
    → IsSound cfg e
    → IsSound cfg (record (refresh cfg j now e) { last_seen = seen })
unfolding refresh
refresh-IsSound cfg j now seen e s = ground (arith, classify_keeps cfg now (record e { jvm = j }))

pub attempts-refresh :
    (cfg : Config) (j : Jvm) (now : ℕ) (e : Entry) → (refresh cfg j now e).attempts ≡ e.attempts
unfolding refresh
attempts-refresh cfg j now e = ground (arith, classify_keeps cfg now (record e { jvm = j }))

pub clear_budget-IsSound : (cfg : Config) (e : Entry) → IsSound cfg e → IsSound cfg (clear_budget e)
unfolding clear_budget
clear_budget-IsSound cfg e s = ground arith

pub apply_manual-IsSound :
    (cfg : Config) (b : Bool) (e : Entry) → IsSound cfg e → IsSound cfg (apply_manual b e)
unfolding apply_manual
apply_manual-IsSound cfg b e s = ground arith

pub attempts-apply_manual : (b : Bool) (e : Entry) → (apply_manual b e).attempts ≡ e.attempts
unfolding apply_manual
attempts-apply_manual b e = ground arith

pub begin_attach-IsSound : (cfg : Config) (e : Entry) → IsSound cfg (begin_attach e)
unfolding begin_attach
begin_attach-IsSound cfg e = ground arith

pub fail_attach-IsSound :
    (cfg : Config) (now attempt : ℕ) (why : Bytes) (e : Entry)
    → e.attempts ≤ attempt
    → IsSound cfg (fail_attach cfg now attempt why e)
unfolding fail_attach
fail_attach-IsSound cfg now attempt why e h = ground arith

pub apply_result-IsSound :
    (cfg : Config) (r : InjectResult) (now : ℕ) (e : Entry) → IsSound cfg (apply_result r now e)
unfolding apply_result
apply_result-IsSound cfg r now e = ground arith

pub after_pass-IsSound :
    (cfg : Config) (seen : Bool) (now : ℕ) (o : Option Entry) (e : Entry)
    → ((d : Entry) → o ≡ some d → IsSound cfg d)
    → after_pass seen now o ≡ some e
    → IsSound cfg e
after_pass-IsSound cfg seen now none e s h = cc
after_pass-IsSound cfg seen now (some d) e s h = ground (arith, s d refl)
