-- ===== src/Attach/Handshake/Cleanup.antt =====
-- About connect and createTriggerFiles (internal/attach/attach_linux.go): the files that are left.
use apm2go.Base.{
  List, [], ◌∷◌, Bool, true, false, not, ◌&&◌, ◌||◌, any, if◌then◌else◌, is_empty, Option, none,
  some, ◌≡◌, refl, arith, subst, some_injective, sym, ◌∙◌, Bool-cases, inl, inr,
}
use apm2go.Base.Eq.{Bytes, bytes_eq, bytes_eq_iff, text_eq}
use apm2go.Base.Dict.{contains, contains-remove}
use apm2go.Attach.Handshake.{
  AttachTarget, trigger_file_paths, Kernel, Created, with_created, os_remove, create_files, cleanup,
  connected, no_trigger_file, not_signalled, never_opened, Connecting, signal_and_wait, connect,
}

-- Whether a path is among those created.
abbrev listed : Bytes → List (Option Bytes) → Bool
listed p [] = false
listed p (none ∷ cs) = listed p cs
listed p (some q ∷ cs) = bytes_eq q p || listed p cs

contains-os_remove :
    (k : Kernel) (q p : Bytes) (fs : List Bytes)
    → contains p (os_remove k q fs) ≡ (contains p fs && not (bytes_eq q p && k.can_remove p))
unfolding os_remove
contains-os_remove k q p fs = elim (Bool-cases (bytes_eq q p)) [
  | inl same ↦
      subst
        (λ r.
          contains p (os_remove k r fs) ≡ (contains p fs && not (bytes_eq q p && k.can_remove p)))
        (sym ((bytes_eq_iff q p).0 same))
        (ground (arith, same, contains-remove p p fs, bytes_eq_iff p p))
  | inr other ↦ ground (arith, other, contains-remove q p fs)
]

contains-cleanup :
    (k : Kernel) (p : Bytes) (cs : List (Option Bytes)) (fs : List Bytes)
    → contains p (cleanup k cs fs) ≡ (contains p fs && not (listed p cs && k.can_remove p))
unfolding cleanup
contains-cleanup k p [] fs = ground arith
contains-cleanup k p (none ∷ cs) fs = contains-cleanup k p cs fs
contains-cleanup k p (some q ∷ cs) fs =
    ground (arith, contains-cleanup k p cs (os_remove k q fs), contains-os_remove k q p fs)

-- Creating and cleaning up removes no file that was there, and leaves none that can be removed.
abbrev Restores : Kernel → List Bytes → Created → Type 0
Restores k fs r =
    (p : Bytes)
    → ((k.can_remove p ≡ true) → contains p (cleanup k r.1 r.0) ≡ contains p fs)
      × ((contains p fs ≡ true) → contains p (cleanup k r.1 r.0) ≡ true)

Restores-existing :
    (k : Kernel) (fs : List Bytes) (r : Created)
    → Restores k fs r
    → Restores k fs (with_created none r)
unfolding cleanup
Restores-existing k fs (files, created) h p = h p

Restores-new :
    (k : Kernel) (path : Bytes) (fs : List Bytes) (r : Created)
    → contains path fs ≡ false
    → Restores k (path ∷ fs) r
    → Restores k fs (with_created (some path) r)
unfolding cleanup contains
Restores-new k path fs (files, created) n h p =
    let there : bytes_eq path p ≡ true → contains p fs ≡ false =
      λ e. subst (λ q. contains q fs ≡ false) ((bytes_eq_iff path p).0 e) n in
    let all = contains-cleanup k p created (os_remove k path files) in
    let later = contains-cleanup k p created files in
    let gone = contains-os_remove k path p files in
    (
      λ can. ground (arith, can, h p, all, later, gone, there),
      λ was. ground (arith, was, h p, all, later, gone, there),
    )

Restores-unclosed :
    (k : Kernel) (path : Bytes) (fs : List Bytes) (r : Created)
    → contains path fs ≡ false
    → Restores k (os_remove k path (path ∷ fs)) r
    → Restores k fs r
unfolding contains
Restores-unclosed k path fs r n h p =
    let there : bytes_eq path p ≡ true → contains p fs ≡ false =
      λ e. subst (λ q. contains q fs ≡ false) ((bytes_eq_iff path p).0 e) n in
    let gone = contains-os_remove k path p (path ∷ fs) in
    (
      λ can. (h p).0 can ∙ ground (arith, can, gone, there),
      λ was. (h p).1 (ground (arith, was, gone, there)),
    )

Restores-create_files :
    (k : Kernel) (paths fs : List Bytes) → Restores k fs (create_files k paths fs)
unfolding create_files
Restores-create_files k [] fs = λ p. unfold cleanup in (λ can. refl, λ was. was)
Restores-create_files k (path ∷ paths) fs =
    go (contains path fs) refl (k.can_create path) (k.can_close path)
      (Restores-create_files k paths fs)
      (Restores-create_files k paths (os_remove k path (path ∷ fs)))
      (Restores-create_files k paths (path ∷ fs))
  where
    go :
        (there : Bool)
        → contains path fs ≡ there
        → (created closed : Bool) → Restores k fs (create_files k paths fs)
        → Restores k
            (os_remove k path (path ∷ fs))
            (create_files k paths (os_remove k path (path ∷ fs)))
        → Restores k (path ∷ fs) (create_files k paths (path ∷ fs))
        → Restores k fs (
            if there
            then with_created none (create_files k paths fs)
            else if not created
            then create_files k paths fs
            else if not closed
            then create_files k paths (os_remove k path (path ∷ fs))
            else with_created (some path) (create_files k paths (path ∷ fs)))
    go true e created closed h u g = Restores-existing k fs (create_files k paths fs) h
    go false e false closed h u g = h
    go false e true false h u g =
        Restores-unclosed k path fs (create_files k paths (os_remove k path (path ∷ fs))) e u
    go false e true true h u g = Restores-new k path fs (create_files k paths (path ∷ fs)) e g

-- Creating removes nothing.
abbrev Keeps : List Bytes → Created → Type 0
Keeps fs r = (p : Bytes) → contains p fs ≡ true → contains p r.0 ≡ true

unclosed_keeps :
    (k : Kernel) (path : Bytes) (fs : List Bytes) (p : Bytes)
    → contains path fs ≡ false
    → contains p fs ≡ true
    → contains p (os_remove k path (path ∷ fs)) ≡ true
unfolding contains
unclosed_keeps k path fs p n h =
    let there : bytes_eq path p ≡ true → contains p fs ≡ false =
      λ e. subst (λ q. contains q fs ≡ false) ((bytes_eq_iff path p).0 e) n in
    ground (arith, h, contains-os_remove k path p (path ∷ fs), there)

Keeps-create_files : (k : Kernel) (paths fs : List Bytes) → Keeps fs (create_files k paths fs)
unfolding create_files contains
Keeps-create_files k [] fs p h = h
Keeps-create_files k (path ∷ paths) fs p h =
    go (contains path fs) refl (k.can_create path) (k.can_close path)
      (Keeps-create_files k paths fs p h)
      (λ n.
        Keeps-create_files k paths (os_remove k path (path ∷ fs)) p
          (unclosed_keeps k path fs p n h))
      (Keeps-create_files k paths (path ∷ fs) p (ground (arith, h)))
  where
    go :
        (there : Bool)
        → contains path fs ≡ there
        → (created closed : Bool) → contains p (create_files k paths fs).0 ≡ true
        → (contains path fs ≡ false
            → contains p (create_files k paths (os_remove k path (path ∷ fs))).0 ≡ true)
        → contains p (create_files k paths (path ∷ fs)).0 ≡ true
        → contains p
            (if there
              then with_created none (create_files k paths fs)
              else if not created
              then create_files k paths fs
              else if not closed
              then create_files k paths (os_remove k path (path ∷ fs))
              else with_created (some path) (create_files k paths (path ∷ fs))).0
          ≡ true
    go true e created closed x u y = x
    go false e false closed x u y = x
    go false e true false x u y = u e
    go false e true true x u y = y

-- What is created, or was there, is there.
abbrev HasTrigger : List Bytes → Created → Type 0
HasTrigger paths r = (is_empty r.1 ≡ false) → any (λ p. contains p r.0) paths ≡ true

HasTrigger-create_files :
    (k : Kernel) (paths fs : List Bytes) → HasTrigger paths (create_files k paths fs)
unfolding create_files contains
HasTrigger-create_files k [] fs = λ h. cc
HasTrigger-create_files k (path ∷ paths) fs =
    go (contains path fs) refl (k.can_create path) (k.can_close path)
      (HasTrigger-create_files k paths fs)
      (HasTrigger-create_files k paths (os_remove k path (path ∷ fs)))
      (Keeps-create_files k paths fs path)
      (Keeps-create_files k paths (path ∷ fs) path (ground (arith, bytes_eq_iff path path)))
  where
    go :
        (there : Bool)
        → contains path fs ≡ there
        → (created closed : Bool) → HasTrigger paths (create_files k paths fs)
        → HasTrigger paths (create_files k paths (os_remove k path (path ∷ fs)))
        → (contains path fs ≡ true → contains path (create_files k paths fs).0 ≡ true)
        → contains path (create_files k paths (path ∷ fs)).0 ≡ true
        → HasTrigger (path ∷ paths) (
            if there
            then with_created none (create_files k paths fs)
            else if not created
            then create_files k paths fs
            else if not closed
            then create_files k paths (os_remove k path (path ∷ fs))
            else with_created (some path) (create_files k paths (path ∷ fs)))
    go true e created closed h u x y = λ n. ground (arith, x e)
    go false e false closed h u x y = λ n. ground (arith, h n)
    go false e true false h u x y = λ n. ground (arith, u n)
    go false e true true h u x y = λ n. ground (arith, y)

-- What connecting does to the files.
pub record IsClean (k : Kernel) (o : AttachTarget) (files : List Bytes) (c : Connecting)
    : Type 0 where
  pub nothing_left :
      (p : Bytes) → k.can_remove p ≡ true → contains p c.files_left ≡ contains p files
  pub nothing_lost : (p : Bytes) → contains p files ≡ true → contains p c.files_left ≡ true
  pub triggered :
      (at : List Bytes)
      → c.files_at_signal ≡ some at
      → any (λ p. contains p at) (trigger_file_paths o) ≡ true

IsClean-signal_and_wait :
    (k : Kernel) (o : AttachTarget) (files : List Bytes) (r : Created)
    → Restores k files r
    → HasTrigger (trigger_file_paths o) r
    → IsClean k o files (signal_and_wait k r)
IsClean-signal_and_wait k o files (fs, created) h t = go (is_empty created) refl k.can_signal
  where
    go :
        (none_created : Bool)
        → is_empty created ≡ none_created
        → (can : Bool)
        → IsClean k o files (
            if none_created
            then record {
              end = no_trigger_file;
              files_left = cleanup k created fs;
              files_at_signal = none;
            }
            else if not can
            then record {
              end = not_signalled;
              files_left = cleanup k created fs;
              files_at_signal = none;
            }
            else record {
              end = if k.starts_listening then connected else never_opened;
              files_left = cleanup k created fs;
              files_at_signal = some fs;
            })
    go true e can = record {
      nothing_left = λ p. (h p).0;
      nothing_lost = λ p. (h p).1;
      triggered = λ at f. cc;
    }
    go false e false = record {
      nothing_left = λ p. (h p).0;
      nothing_lost = λ p. (h p).1;
      triggered = λ at f. cc;
    }
    go false e true = record {
      nothing_left = λ p. (h p).0;
      nothing_lost = λ p. (h p).1;
      triggered = λ at f.
          subst (λ l. any (λ p. contains p l) (trigger_file_paths o) ≡ true)
            (some_injective fs at f) (t e);
    }

-- However the creation, the signal, the wait and the removals end, a connection removes no file that
-- was there, a trigger file of another attacher included, and leaves none that was not there, except at a
-- path whose removal fails; and the JVM is signalled only while one of the two trigger files is there.
pub connect-IsClean :
    (k : Kernel) (o : AttachTarget) (files : List Bytes) → IsClean k o files (connect k o files)
unfolding connect
connect-IsClean k o files = go k.already_listens
  where
    go :
        (b : Bool)
        → IsClean k o files (
            if b
            then record { end = connected; files_left = files; files_at_signal = none }
            else signal_and_wait k (create_files k (trigger_file_paths o) files))
    go true = record {
      nothing_left = λ p can. refl;
      nothing_lost = λ p was. was;
      triggered = λ at f. cc;
    }
    go false =
        IsClean-signal_and_wait k o files (create_files k (trigger_file_paths o) files)
          (Restores-create_files k (trigger_file_paths o) files)
          (HasTrigger-create_files k (trigger_file_paths o) files)
