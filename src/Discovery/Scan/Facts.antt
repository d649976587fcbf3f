-- ===== src/Discovery/Scan/Facts.antt =====
-- About Scan, Inspect and lookupUser (internal/discovery/scanner.go): what every result satisfies.
use apm2go.Base.{
  ℕ, List, true, false, ◌||◌, ◌==◌, is_empty, some_injective, Option, none, some, ◌≡◌, refl, subst,
  arith,
}
use apm2go.Base.Eq.{Bytes, text_eq}
use apm2go.Base.Int.{ℤ, ℤ_eq}
use apm2go.Base.Dict.{lookup, insert, lookup-insert}
use apm2go.Discovery.PerfData.{PerfData}
use apm2go.Discovery.Launch.{Launch, parse_launch, apply_perf_data}
use apm2go.Discovery.Launch.Entries.{parse_entry_point-IsSound}
use apm2go.Discovery.Scan.{
  ProcDir, Surroundings, Scanner, Discovered, PerfRead, perf_found, perf_missing, perf_crashed,
  is_jvm, name_or_empty, cached_or, lookup_user, overlay_perf,
}
use apm2go.Discovery.Scan.Inspect.{user_and_boot, ids_of}

-- Every cached name is the one that the user database answers.
abbrev pub IsCurrent : Surroundings → Scanner → Type 0
IsCurrent h s =
    (uid : ℤ) (name : Bytes)
    → lookup uid s.user_cache ≡ some name
    → name ≡ name_or_empty (h.user_named uid)

-- One entry point at most.
abbrev pub HasOneEntry : Launch → Type 0
HasOneEntry j = (is_empty j.main_class || is_empty j.jar_path) ≡ true

pub HasOneEntry-parse_launch :
    (exe : Bytes) (cmdline : List Bytes) → HasOneEntry (parse_launch exe cmdline)
unfolding parse_launch
HasOneEntry-parse_launch exe cmdline = (parse_entry_point-IsSound cmdline).0

HasOneEntry-apply_perf_data :
    (pd : PerfData) (j : Launch) → HasOneEntry j → HasOneEntry (apply_perf_data pd j)
unfolding apply_perf_data
HasOneEntry-apply_perf_data pd j h = ground arith

-- What holds of every description that a scan returns, whatever the files of the process hold.
pub record IsReported (h : Surroundings) (self : ℕ) (dirs : ℕ → ProcDir) (j : Discovered)
    : Type 0 where
  pub not_us : (j.pid == self) ≡ false
  pub has_name : is_empty j.service_name ≡ false
  pub one_entry : HasOneEntry j.launch
  pub user_answered : j.user ≡ name_or_empty (h.user_named j.ids.uid)
  pub seen_as_jvm : is_jvm (dirs j.pid) j.cmdline ≡ true

IsCurrent-cached_or :
    (h : Surroundings) (uid : ℤ) (s : Scanner) (o : Option Bytes)
    → lookup uid s.user_cache ≡ o
    → IsCurrent h s
    → ((cached_or h.user_named uid s o).0 ≡ name_or_empty (h.user_named uid))
      × IsCurrent h (cached_or h.user_named uid s o).1
IsCurrent-cached_or h uid s (some name) e c = (c uid name e, c)
IsCurrent-cached_or h uid s none e c = (refl, kept)
  where
    kept :
        (k : ℤ) (name : Bytes)
        → lookup k (insert uid (name_or_empty (h.user_named uid)) s.user_cache) ≡ some name
        → name ≡ name_or_empty (h.user_named k)
    kept k name f = ground (
      arith,
      lookup-insert uid k (name_or_empty (h.user_named uid)) s.user_cache,
      ℤ_eq.beq_iff uid k,
      c k name,
      f,
    )

IsCurrent-lookup_user :
    (h : Surroundings) (uid : ℤ) (s : Scanner)
    → IsCurrent h s
    → ((lookup_user h.user_named uid s).0 ≡ name_or_empty (h.user_named uid))
      × IsCurrent h (lookup_user h.user_named uid s).1
unfolding lookup_user
IsCurrent-lookup_user h uid s c = IsCurrent-cached_or h uid s (lookup uid s.user_cache) refl c

pub IsCurrent-user_and_boot :
    (h : Surroundings) (pid : ℕ) (d : ProcDir) (s : Scanner)
    → IsCurrent h s
    → ((user_and_boot h pid d s).0 ≡ name_or_empty (h.user_named (ids_of pid d).uid))
      × IsCurrent h (user_and_boot h pid d s).1
unfolding user_and_boot
IsCurrent-user_and_boot h pid d s c = IsCurrent-lookup_user h (ids_of pid d).uid s c

pub HasOneEntry-overlay_perf :
    (r : PerfRead) (j launch : Launch)
    → overlay_perf r j ≡ some launch
    → HasOneEntry j
    → HasOneEntry launch
HasOneEntry-overlay_perf (perf_found pd) j launch e h =
    subst HasOneEntry (some_injective _ launch e) (HasOneEntry-apply_perf_data pd j h)
HasOneEntry-overlay_perf perf_missing j launch e h = subst HasOneEntry (some_injective j launch e) h
HasOneEntry-overlay_perf perf_crashed j launch e h = cc
