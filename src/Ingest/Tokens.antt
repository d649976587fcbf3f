-- ===== src/Ingest/Tokens.antt =====
-- internal/ingesttoken/token.go and the check of internal/receiver/auth.go. A file that JSON decodes
-- to a map is that map. The stages of `saveLocked` are steps, at each of which the system call may
-- fail or the process may die.
pub mod Saving
pub mod Durability
pub mod Revocation
pub mod Starts
use apm2go.Base.{
  ℕ, ◌+◌, List, [], ◌∷◌, Bool, true, false, not, ◌||◌, if◌then◌else◌, length, is_empty, Option,
  none, some,
}
use apm2go.Base.Eq.{Bytes, ◌=?◌, text_eq}
use apm2go.Base.Dict.{Dict, insert, erase}

pub data File : Type 0 where
  missing unreadable empty corrupt : File
  holds : Dict Bytes Bytes → File

-- The file at `path` and the temporary file beside it.
pub record Disk : Type 0 where
  pub file : File
  pub temp : Option File

pub record Registry : Type 0 where
  pub valid : Dict Bytes Bytes
  -- path != ""
  pub persistent : Bool

unfoldable pub new_registry : Registry
new_registry = record { valid = []; persistent = false }

-- NewPersistentRegistry; `none` is its error.
unfoldable pub new_persistent_registry : File → Option Registry
new_persistent_registry missing = some (record { valid = []; persistent = true })
new_persistent_registry unreadable = none
new_persistent_registry empty = some (record { valid = []; persistent = true })
new_persistent_registry corrupt = none
new_persistent_registry (holds m) = some (record { valid = m; persistent = true })

pub data Stage : Type 0 where
  encode_stage create_stage write_stage close_stage chmod_stage rename_stage : Stage

pub data Fate : Type 0 where
  goes fails crashes : Fate

pub data End : Type 0 where
  saved refused dead : End

abbrev pub rename_temp : Option File → Disk → Disk
rename_temp none d = d
rename_temp (some f) d = record { file = f; temp = none }

unfoldable pub effect : Stage → Dict Bytes Bytes → Disk → Disk
effect create_stage m d = record d { temp = some empty }
effect write_stage m d = record d { temp = some (holds m) }
effect rename_stage m d = rename_temp d.temp d
effect _ m d = d

-- What a stage leaves that does not complete: a write may have put down a part.
unfoldable pub partial_effect : Stage → Disk → Disk
partial_effect write_stage d = record d { temp = some corrupt }
partial_effect _ d = d

-- A failure runs the deferred `os.Remove`, a crash does not.
unfoldable pub save_stages : (Stage → Fate) → Dict Bytes Bytes → List Stage → Disk → Disk × End
unfolding effect partial_effect
save_stages fate m [] d = (d, saved)
save_stages fate m (s ∷ ss) d = elim (fate s) [
  | goes ↦ save_stages fate m ss (effect s m d)
  | fails ↦ (record (partial_effect s d) { temp = none }, refused)
  | crashes ↦ (partial_effect s d, dead)
]

abbrev pub stages : List Stage
stages = encode_stage ∷ create_stage ∷ write_stage ∷ close_stage ∷ chmod_stage ∷ rename_stage ∷ []

unfoldable pub save_locked : (Stage → Fate) → Registry → Disk → Disk × End
save_locked fate r d = if r.persistent then save_stages fate r.valid stages d else (d, saved)

-- The loop of `Accepts`.
unfoldable pub recognises : Bytes → Dict Bytes Bytes → Bool
recognises token [] = false
recognises token ((candidate, service) ∷ m) = candidate =? token || recognises token m

unfoldable pub accepts : Bytes → Registry → Bool
accepts token r = if is_empty token then false else recognises token r.valid

unfoldable pub has_token_for : Bytes → Dict Bytes Bytes → Bool
has_token_for service [] = false
has_token_for service ((token, issued) ∷ m) = issued =? service || has_token_for service m

unfoldable pub count : Registry → ℕ
count r = length r.valid

pub record World : Type 0 where
  pub registry : Registry
  pub disk : Disk
  -- A start was refused.
  pub refused_start : Bool

-- The process starts again and finds what the disk holds.
unfoldable pub restart : World → World
restart w = elim (new_persistent_registry w.disk.file) [
  | none ↦ record w { refused_start = true }
  | some r ↦ record w { registry = r }
]

abbrev pub is_dead : End → Bool
is_dead dead = true
is_dead _ = false

abbrev pub is_saved : End → Bool
is_saved saved = true
is_saved _ = false

-- `Issue` of the token that the random bytes encode to; `none` where there were none to read. What it
-- returns is the token, or `none` for an error.
unfoldable pub issue : (Stage → Fate) → Option Bytes → Bytes → World → World × Option Bytes × End
unfolding save_locked
issue fate none service w = (w, none, refused)
issue fate (some token) service w =
    let r = record w.registry { valid = insert token service w.registry.valid } in
    let (d, end') = save_locked fate r w.disk in
    (record w { registry = r; disk = d }, if is_saved end' then some token else none, end')

unfoldable pub revoke : (Stage → Fate) → Bytes → World → World × End
unfolding save_locked
revoke fate token w =
    if is_empty token
    then (w, saved)
    else (let r = record w.registry { valid = erase token w.registry.valid } in
        let (d, end') = save_locked fate r w.disk in (record w { registry = r; disk = d }, end'))

pub data Action : Type 0 where
  act_issue : (Stage → Fate) → Option Bytes → Bytes → Action
  act_revoke : (Stage → Fate) → Bytes → Action
  act_restart : Action

-- A process that died starts again.
unfoldable pub act : Action → World → World
act (act_issue fate token service) w =
    let (w', answer, end') = issue fate token service w in if is_dead end' then restart w' else w'
act (act_revoke fate token) w =
    let (w', end') = revoke fate token w in if is_dead end' then restart w' else w'
act act_restart w = restart w

unfoldable pub run : List Action → World → World
run [] w = w
run (a ∷ as') w = run as' (act a w)

-- receiver/auth.go: the registry may be nil.
pub record Authenticator : Type 0 where
  pub tokens : Option Registry
  pub required : Bool
  pub rejected : ℕ

unfoldable pub permits : Bytes → Authenticator → Authenticator × Bool
permits token a = if not a.required then (a, true) else elim a.tokens [
  | none ↦ (a, true)
  | some r ↦ if accepts token r then (a, true) else (record a { rejected = a.rejected + 1 }, false)
]
