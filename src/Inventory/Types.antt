-- ===== src/Inventory/Types.antt =====
-- internal/inventory/state.go and the fields of internal/discovery/jvm.go that the inventory reads.
-- A time is its nanoseconds since Go's zero time, so `time.Time{}` is 0 and `IsZero` is `== 0`.
-- A reason is symbolic: one constructor for each message that the code writes.
use apm2go.Base.{
  ℕ, true, ◌==◌, ◌≡◌, ◌↔◌, arith, List, [], ◌∷◌, ◌++◌, Bool, if◌then◌else◌, ltb, ◌&&◌, is_empty,
}
use apm2go.Base.Eq.{Eq, Bytes, codes}

pub data State : Type 0 where
  discovered pending attaching attached failed skipped exited : State

pub data Reason : Type 0 where
  no_reason excluded_by_filters instrumented_at_startup already_ours disabled_by_operator : Reason
  unsupported_java : ℕ → Reason
  settling : ℕ → Reason
  failure : Bytes → Reason

pub record Jvm : Type 0 where
  pub pid : ℕ
  pub start_time : ℕ
  pub service_name : Bytes
  pub cmdline : List Bytes
  pub systemd_unit : Bytes
  pub container_id : Bytes
  pub gateway : Bytes
  pub java_major : ℕ
  pub already_instrumented : Bool
  pub instrumented_by_us : Bool

-- `Key` formats the two numbers as "%d-%d"; the model keeps the pair.
abbrev pub Key : Type 0
Key = ℕ × ℕ

unfoldable pub key_beq : Key → Key → Bool
key_beq (a, s) (b, t) = a == b && s == t

pub key_beq_iff : (a b : Key) → (key_beq a b ≡ true) ↔ (a ≡ b)
unfolding key_beq
key_beq_iff (a, s) (b, t) = (λ h. ground arith, λ h. ground arith)

instance abbrev pub key_eq : Eq Key
key_eq = record { beq = key_beq; beq_iff = key_beq_iff }

unfoldable pub key : Jvm → Key
key j = (j.pid, j.start_time)

-- `Attachable`: `none` is (true, ""), and `some r` is (false, r).
pub data Verdict : Type 0 where
  may_attach : Verdict
  may_not : Reason → Verdict

unfoldable pub attachable : Jvm → Verdict
attachable j =
    if ltb 0 j.java_major && ltb j.java_major 8
    then may_not (unsupported_java j.java_major)
    else if j.instrumented_by_us
    then may_not already_ours
    else may_attach

pub record Entry : Type 0 where
  pub jvm : Jvm
  pub state : State
  pub reason : Reason
  pub warnings : List Bytes
  pub first_seen : ℕ
  pub last_seen : ℕ
  pub attempts : ℕ
  pub next_attempt : ℕ
  pub attached_at : ℕ
  pub exited_at : ℕ
  pub endpoint : Bytes
  pub manual_only : Bool

-- injector.Result, the fields that `applyResult` reads.
pub record InjectResult : Type 0 where
  pub already_instrumented : Bool
  pub endpoint : Bytes
  pub warnings : List Bytes

abbrev pub already_warning : Bytes
already_warning = codes "this JVM was already instrumented by apm2go, so nothing was injected"

unfoldable pub non_empty : List Bytes → List Bytes
non_empty [] = []
non_empty (w ∷ ws) = let rest = non_empty ws in if is_empty w then rest else w ∷ rest

unfoldable pub apply_result : InjectResult → ℕ → Entry → Entry
unfolding non_empty
apply_result res now e =
    let kept = non_empty res.warnings in
    record e {
      state = attached;
      attached_at = now;
      reason = no_reason;
      next_attempt = 0;
      endpoint = res.endpoint;
      warnings = if res.already_instrumented then kept ++ already_warning ∷ [] else kept;
    }

-- internal/inventory/events.go: a notification and its copy of the entry.
pub data EventType : Type 0 where
  ev_discovered ev_state_changed ev_attached ev_attach_failed ev_exited : EventType

pub record Event : Type 0 where
  pub type : EventType
  pub entry : Entry
