-- ===== src/Diag/Pileup/Groups.antt =====
-- About findPileups (internal/jvmdiag/threaddump.go): its groups of threads.
use apm2go.Base.{
  ℕ, suc, ◌+◌, List, [], ◌∷◌, Bool, true, false, if◌then◌else◌, is_empty, All, Option, none, some,
  ◌≡◌, refl, ap, sym, ◌∙◌, inl, inr, arith, Bool-cases,
}
use apm2go.Base.Eq.{Bytes, text_eq, bytes_eq, bytes_eq_iff, bytes_eq_refl}
use apm2go.Base.Dict.{Dict, lookup, insert, lookup-insert, Unique, Unique-insert}
use apm2go.Diag.Deadlock.{Thread}
use apm2go.Diag.Pileup.{Group, group_or_new, grown, signature_frame, group_thread, group_threads}

-- How many threads have a frame for their signature.
abbrev pub threads_at : Bytes → List Thread → ℕ
threads_at frame [] = 0
threads_at frame (t ∷ ts) =
    let rest = threads_at frame ts in
    if bytes_eq (signature_frame t.frames) frame then suc rest else rest

abbrev size_in : Bytes → Dict Bytes Group → ℕ
size_in frame groups = (group_or_new (lookup frame groups)).size

size_in-group_thread :
    (frame : Bytes) (t : Thread) (groups : Dict Bytes Group)
    → is_empty frame ≡ false
    → size_in frame (group_thread t groups) ≡ (
        if bytes_eq (signature_frame t.frames) frame
        then suc (size_in frame groups)
        else size_in frame groups)
unfolding group_thread
size_in-group_thread frame t groups h = go (signature_frame t.frames)
  where
    put : Bytes → Dict Bytes Group
    put f = insert f (grown t.state (group_or_new (lookup f groups))) groups

    go :
        (f : Bytes)
        → size_in frame (if is_empty f then groups else put f)
          ≡ (if bytes_eq f frame then suc (size_in frame groups) else size_in frame groups)
    go f = elim (Bool-cases (bytes_eq f frame)) [
      | inl same ↦
          let e : f ≡ frame = (bytes_eq_iff f frame).0 same in
          ap (λ b. size_in frame (if b then groups else put f)) (ap is_empty e ∙ h)
          ∙ ap (λ (o : Option Group). (group_or_new o).size) (lookup-insert f frame _ groups)
          ∙ ap
              (λ b.
                (group_or_new (
                  if b
                  then some (grown t.state (group_or_new (lookup f groups)))
                  else lookup frame groups)).size)
              same
          ∙ one_more (size_in f groups) (size_in frame groups) (ap (λ k. size_in k groups) e)
          ∙ ap (λ b. if b then suc (size_in frame groups) else size_in frame groups) (sym same)
      | inr other ↦
          elsewhere (is_empty f) other
          ∙ ap (λ b. if b then suc (size_in frame groups) else size_in frame groups) (sym other)
    ]
      where
        one_more : (a b : ℕ) → a ≡ b → a + 1 ≡ suc b
        one_more a b e = omega arith

        elsewhere :
            (b : Bool)
            → bytes_eq f frame ≡ false
            → size_in frame (if b then groups else put f) ≡ size_in frame groups
        elsewhere true other = refl
        elsewhere false other =
            ap (λ (o : Option Group). (group_or_new o).size) (lookup-insert f frame _ groups)
            ∙ ap
                (λ b.
                  (group_or_new (
                    if b
                    then some (grown t.state (group_or_new (lookup f groups)))
                    else lookup frame groups)).size)
                other

pub Unique-group_threads :
    (ts : List Thread) (groups : Dict Bytes Group)
    → Unique groups
    → Unique (group_threads ts groups)
unfolding group_threads group_thread
Unique-group_threads [] groups u = u
Unique-group_threads (t ∷ ts) groups u = elim (Bool-cases (is_empty (signature_frame t.frames))) [
  | inl e ↦ rw e (Unique-group_threads ts groups u)
  | inr e ↦ rw e (Unique-group_threads ts _ (Unique-insert _ _ groups u))
]

pub size_in-group_threads :
    (frame : Bytes) (ts : List Thread) (groups : Dict Bytes Group)
    → is_empty frame ≡ false
    → size_in frame (group_threads ts groups) ≡ size_in frame groups + threads_at frame ts
unfolding group_threads
size_in-group_threads frame [] groups h = omega arith
size_in-group_threads frame (t ∷ ts) groups h =
    size_in-group_threads frame ts (group_thread t groups) h
    ∙ ground (arith, size_in-group_thread frame t groups h)

-- Each pair of a dictionary without double keys is found under its key.
abbrev pub Found : Dict Bytes Group → Bytes × Group → Type 0
Found groups (frame, g) = lookup frame groups ≡ some g

All-Found_behind :
    (frame : Bytes) (g : Group) (whole groups : Dict Bytes Group)
    → lookup frame whole ≡ none
    → All (Found whole) groups
    → All (Found ((frame, g) ∷ whole)) groups
unfolding lookup
All-Found_behind frame g whole [] fresh h = tt
All-Found_behind frame g whole ((f, k) ∷ groups) fresh h =
    (here, All-Found_behind frame g whole groups fresh h.1)
  where
    here : Found ((frame, g) ∷ whole) (f, k)
    here = ground (arith, h.0, fresh, bytes_eq_iff frame f)

pub All-Found : (groups : Dict Bytes Group) → Unique groups → All (Found groups) groups
unfolding lookup
All-Found [] u = tt
All-Found ((frame, g) ∷ groups) u = (
  rw (bytes_eq_refl frame) refl,
  All-Found_behind frame g groups groups u.0 (All-Found groups u.1),
)
