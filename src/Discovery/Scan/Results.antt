-- ===== src/Discovery/Scan/Results.antt =====
-- About Scan and Inspect (internal/discovery/scanner.go): the results of a scan.
use apm2go.Base.{
  ℕ, List, [], ◌∷◌, Bool, true, false, not, if◌then◌else◌, ◌==◌, All, some_injective, Option, none,
  some, ◌≡◌, refl, subst, arith,
}
use apm2go.Base.Eq.{text_eq}
use apm2go.Base.Int.{ℤ_eq}
use apm2go.Discovery.Naming.Choice.{derive_names}
use apm2go.Discovery.Launch.{read_cmdline, Launch}
use apm2go.Discovery.Scan.{ProcDir, Surroundings, Scanner, Discovered, is_jvm, overlay_perf}
use apm2go.Discovery.Scan.Inspect.{
  Inspected, gone, not_jvm, inspected, crashed, finished, process_of, user_and_boot, describe,
  inspect, candidate, DirEntry, ScanFound, prepend, behind_inspection, scan_candidate, scan_entries,
  scan, perf_of,
}
use apm2go.Discovery.Scan.Facts.{
  IsCurrent, IsReported, IsCurrent-user_and_boot, HasOneEntry-parse_launch,
  HasOneEntry-overlay_perf,
}

-- What holds behind an inspection.
abbrev IsSoundResult :
    (h : Surroundings) (self : ℕ) (dirs : ℕ → ProcDir) → Inspected × Scanner → Type 0
IsSoundResult h self dirs (gone, s) = IsCurrent h s
IsSoundResult h self dirs (not_jvm, s) = IsCurrent h s
IsSoundResult h self dirs (inspected j, s) = IsReported h self dirs j × IsCurrent h s
IsSoundResult h self dirs (crashed, s) = Unit

module _ (h : Surroundings) (self : ℕ) (dirs : ℕ → ProcDir) where
  IsReported-finished :
      (pid : ℕ) (s : Scanner)
      → (pid == self) ≡ false
      → IsCurrent h s
      → is_jvm (dirs pid) (read_cmdline (dirs pid).cmdline_file) ≡ true
      → IsSoundResult h self dirs (
        (let j =
              describe h pid
                (dirs pid)
                (user_and_boot h pid (dirs pid) s).0
                (user_and_boot h pid (dirs pid) s).1.boot_time in
            finished j (overlay_perf (perf_of (dirs pid) j) j.launch)),
        (user_and_boot h pid (dirs pid) s).1,
      )
  unfolding describe
  IsReported-finished pid s other c jvm = go (overlay_perf (perf_of (dirs pid) j) j.launch) refl
    where
      j : Discovered
      j =
          describe h pid (dirs pid) (user_and_boot h pid (dirs pid) s).0
            (user_and_boot h pid (dirs pid) s).1.boot_time

      go :
          (o : Option Launch)
          → overlay_perf (perf_of (dirs pid) j) j.launch ≡ o
          → IsSoundResult h self dirs (finished j o, (user_and_boot h pid (dirs pid) s).1)
      go none e = tt
      go (some launch) e = (
        record {
          not_us = other;
          has_name = derive_names (process_of (record j { launch = launch }));
          one_entry =
              HasOneEntry-overlay_perf (perf_of (dirs pid) j) j.launch launch e (
                HasOneEntry-parse_launch (dirs pid).exe_link
                  (read_cmdline (dirs pid).cmdline_file));
          user_answered = (IsCurrent-user_and_boot h pid (dirs pid) s c).0;
          seen_as_jvm = jvm;
        },
        (IsCurrent-user_and_boot h pid (dirs pid) s c).1,
      )

  inspect-IsSoundResult :
      (pid : ℕ) (s : Scanner)
      → (pid == self) ≡ false
      → IsCurrent h s
      → IsSoundResult h self dirs (inspect h pid (dirs pid) s)
  unfolding inspect
  inspect-IsSoundResult pid s other c =
      pick (dirs pid).present (is_jvm (dirs pid) (read_cmdline (dirs pid).cmdline_file)) _
        (IsReported-finished pid s other c)
    where
      pick :
          (there jvm : Bool) (r : Inspected × Scanner)
          → (jvm ≡ true → IsSoundResult h self dirs r)
          → IsSoundResult h self dirs
              (if not there then (gone, s) else if not jvm then (not_jvm, s) else r)
      pick false jvm r k = c
      pick true false r k = c
      pick true true r k = k refl

  abbrev IsSoundFound : ScanFound → Type 0
  IsSoundFound (none, s) = Unit
  IsSoundFound (some js, s) = All (IsReported h self dirs) js × IsCurrent h s

  IsSoundFound-prepend :
      (j : Discovered) (f : ScanFound)
      → IsReported h self dirs j
      → IsSoundFound f
      → IsSoundFound (prepend j f)
  IsSoundFound-prepend j (none, s) r h = tt
  IsSoundFound-prepend j (some js, s) r h = ((r, h.0), h.1)

  IsSoundFound-behind :
      (r : Inspected × Scanner) (rest : Scanner → ScanFound)
      → IsSoundResult h self dirs r
      → ((s : Scanner) → IsCurrent h s → IsSoundFound (rest s))
      → IsSoundFound (behind_inspection r rest)
  IsSoundFound-behind (gone, s) rest h k = k s h
  IsSoundFound-behind (not_jvm, s) rest h k = k s h
  IsSoundFound-behind (inspected j, s) rest h k = IsSoundFound-prepend j (rest s) h.0 (k s h.1)
  IsSoundFound-behind (crashed, s) rest h k = tt

  candidate-other : (e : DirEntry) (pid : ℕ) → candidate self e ≡ some pid → (pid == self) ≡ false
  candidate-other (is_dir, name) pid e = ground arith

  IsSoundFound-candidate :
      (o : Option ℕ) (s : Scanner) (rest : Scanner → ScanFound)
      → ((pid : ℕ) → o ≡ some pid → (pid == self) ≡ false)
      → IsCurrent h s
      → ((t : Scanner) → IsCurrent h t → IsSoundFound (rest t))
      → IsSoundFound (scan_candidate h self dirs o s rest)
  IsSoundFound-candidate none s rest other c k = k s c
  IsSoundFound-candidate (some pid) s rest other c k =
      IsSoundFound-behind (inspect h pid (dirs pid) s) rest
        (inspect-IsSoundResult pid s (other pid refl) c) k

  scan_entries-IsSoundFound :
      (es : List DirEntry) (s : Scanner)
      → IsCurrent h s
      → IsSoundFound (scan_entries h self dirs es s)
  unfolding scan_entries
  scan_entries-IsSoundFound [] s c = (tt, c)
  scan_entries-IsSoundFound (e ∷ es) s c =
      IsSoundFound-candidate (candidate self e) s (scan_entries h self dirs es) (candidate-other e)
        c (scan_entries-IsSoundFound es)

  -- Whatever the files of the processes hold, a scan that does not crash leaves the cache of user names
  -- in agreement with the user database, and each description in its result is of another process than
  -- apm2go, of one that the code takes for a JVM, has a name, has not both a main class and a jar, and
  -- carries the name that the user database gives its owner. The cache is assumed to agree at first.
  pub scan-IsReported :
      (entries : List DirEntry) (s t : Scanner) (js : List Discovered)
      → IsCurrent h s
      → scan h self dirs (some entries) s ≡ some (some js, t)
      → All (IsReported h self dirs) js × IsCurrent h t
  unfolding scan
  scan-IsReported entries s t js c e =
      subst IsSoundFound (some_injective (scan_entries h self dirs entries s) (some js, t) e)
        (scan_entries-IsSoundFound entries s c)
