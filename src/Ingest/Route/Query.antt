-- ===== src/Ingest/Route/Query.antt =====
-- No query or fragment survives the normalization of a route.
use apm2go.Base.{
  ℕ, zero, suc, List, [], ◌∷◌, ◌++◌, Bool, true, false, ◌||◌, ltb, ◌==◌, length, is_empty, take,
  All, All-append, ◌≡◌, refl, arith, inl, inr, Bool-cases,
}
use apm2go.Base.Eq.{Bytes, codes, bytes_eq}
use apm2go.Base.Text.{join, split, push_first, trim_left, trim_right, has_byte}
use apm2go.Ingest.Route.{
  is_identifier_segment, is_slash, without_query, path_of, segments_of, capped, template,
  normalize_route,
}

-- `?` or `#`
abbrev pub is_mark : ℕ → Bool
is_mark c = c == 63 || c == 35

module _ (c : ℕ) (mark : is_mark c ≡ true) where
  abbrev Lacks : Bytes → Type 0
  Lacks s = has_byte c s ≡ false

  Lacks-without_query : (s : Bytes) → Lacks (without_query s)
  unfolding has_byte without_query
  Lacks-without_query [] = refl
  Lacks-without_query (a ∷ s) = ground (arith, Lacks-without_query s, mark)

  Lacks-trim_left : (p : ℕ → Bool) (s : Bytes) → Lacks s → Lacks (trim_left p s)
  unfolding has_byte trim_left
  Lacks-trim_left p [] h = refl
  Lacks-trim_left p (a ∷ s) h = ground (arith, Lacks-trim_left p s, h)

  Lacks-trim_right : (p : ℕ → Bool) (s : Bytes) → Lacks s → Lacks (trim_right p s)
  unfolding has_byte trim_right
  Lacks-trim_right p [] h = refl
  Lacks-trim_right p (a ∷ s) h = ground (arith, Lacks-trim_right p s, h)

  Lacks-append : (s t : Bytes) → Lacks s → Lacks t → Lacks (s ++ t)
  unfolding has_byte
  Lacks-append [] t h k = k
  Lacks-append (a ∷ s) t h k = ground (arith, Lacks-append s t, h, k)

  All-push_first :
      (a : ℕ) (ps : List Bytes) → (a == c) ≡ false → All Lacks ps → All Lacks (push_first a ps)
  unfolding has_byte
  All-push_first a [] e h = (ground (arith, e), tt)
  All-push_first a (p ∷ ps) e h = (ground (arith, e, h.0), h.1)

  All-split : (sep : ℕ) (s : Bytes) → Lacks s → All Lacks (split sep s)
  unfolding has_byte split
  All-split sep [] h = (refl, tt)
  All-split sep (a ∷ s) h = elim (Bool-cases (a == sep)) [
    | inl here ↦ rw here (refl, All-split sep s (ground (arith, h)))
    | inr there ↦
        rw there
          (All-push_first a (split sep s) (ground (arith, h)) (All-split sep s (ground (arith, h))))
  ]

  All-take : (n : ℕ) (ps : List Bytes) → All Lacks ps → All Lacks (take n ps)
  All-take zero ps h = tt
  All-take (suc n) [] h = tt
  All-take (suc n) (p ∷ ps) h = (h.0, All-take n ps h.1)

  All-capped : (ps : List Bytes) → All Lacks ps → All Lacks (capped ps)
  unfolding capped has_byte
  All-capped ps h = elim (Bool-cases (ltb 8 (length ps))) [
    | inl deep ↦
        rw deep (
          All-append Lacks (take 8 ps) (codes "*" ∷ []) (All-take 8 ps h)
            (ground (arith, mark), tt))
    | inr flat ↦ rw flat h
  ]

  All-template : (ps : List Bytes) → All Lacks ps → All Lacks (template ps)
  unfolding template has_byte
  All-template [] h = tt
  All-template (p ∷ ps) h = (
    elim (Bool-cases (is_identifier_segment p)) [
      | inl here ↦ rw here (ground (arith, mark))
      | inr there ↦ rw there h.0
    ],
    All-template ps h.1,
  )

  Lacks-slash : Lacks (codes "/")
  unfolding has_byte
  Lacks-slash = ground (arith, mark)

  Lacks-join : (ps : List Bytes) → All Lacks ps → Lacks (join (codes "/") ps)
  unfolding join
  Lacks-join [] h = unfold has_byte in refl
  Lacks-join (p ∷ []) h = h.0
  Lacks-join (p ∷ q ∷ ps) h =
      Lacks-append p _ h.0 (Lacks-append (codes "/") _ Lacks-slash (Lacks-join (q ∷ ps) h.1))

  Lacks-segments : (s : Bytes) → Lacks s → All Lacks (segments_of s)
  unfolding segments_of
  Lacks-segments s h = All-split 47 _ (Lacks-trim_right is_slash _ (Lacks-trim_left is_slash s h))

-- A normalized route holds neither '?' nor '#'.
pub normalize_route_query :
    (raw : Bytes) (c : ℕ) → is_mark c ≡ true → has_byte c (normalize_route raw) ≡ false
unfolding normalize_route
normalize_route_query [] c mark = unfold has_byte in refl
normalize_route_query (a ∷ s) c mark =
    let path = without_query (path_of (a ∷ s)) in
    elim (Bool-cases (is_empty path || bytes_eq path (codes "/"))) [
      | inl root ↦ rw (root, normalize_route) (Lacks-slash c mark)
      | inr deep ↦
          rw (deep, normalize_route)
            (Lacks-append c mark (codes "/") _ (Lacks-slash c mark) (
              Lacks-join c mark _ (
                All-template c mark _ (
                  All-capped c mark _
                    (Lacks-segments c mark path (Lacks-without_query c mark (path_of (a ∷ s))))))))
    ]
