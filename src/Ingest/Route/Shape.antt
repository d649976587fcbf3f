-- ===== src/Ingest/Route/Shape.antt =====
-- What a normalized route looks like.
use apm2go.Base.{
  ℕ, ◌≤◌, List, [], ◌∷◌, ◌++◌, true, false, ◌||◌, ltb, length, is_empty, take, All, ◌≡◌, refl, sym,
  zero, suc, ap, ◌∙◌, arith, inl, inr, ◌⊎◌, Bool-cases, length-append, length-take,
}
use apm2go.Base.Eq.{Bytes, codes, bytes_eq}
use apm2go.Base.Text.{join}
use apm2go.Ingest.Route.{
  is_all_digits, is_uuid, is_long_hex, digit_run_from, has_long_digit_run, is_identifier_segment,
  without_query, path_of, segments_of, capped, id_label, template, normalize_route, after_scheme,
}

id_label_kept : is_identifier_segment id_label ≡ false
unfolding is_identifier_segment is_all_digits is_uuid is_long_hex has_long_digit_run digit_run_from
id_label_kept = refl

template-All : (segs : List Bytes) → All (λ seg. is_identifier_segment seg ≡ false) (template segs)
unfolding template
template-All [] = tt
template-All (seg ∷ segs) = (
  elim (Bool-cases (is_identifier_segment seg)) [
    | inl here ↦ rw here id_label_kept
    | inr there ↦ rw there there
  ],
  template-All segs,
)

length-template : (segs : List Bytes) → length (template segs) ≡ length segs
unfolding template
length-template [] = refl
length-template (seg ∷ segs) = omega (arith, length-template segs)

length-capped : (segs : List Bytes) → length (capped segs) ≤ 9
unfolding capped
length-capped segs =
    ground (arith, length-take 8 segs, length-append (take 8 segs) (codes "*" ∷ []))

-- Segment by segment, two paths have the same name or have identifiers both.
pub data SameShape : List Bytes → List Bytes → Type 0 where
  both_end : SameShape [] []
  same_segment :
      (a b : Bytes) (s t : List Bytes) → a ≡ b → SameShape s t → SameShape (a ∷ s) (b ∷ t)
  both_identify :
      (a b : Bytes) (s t : List Bytes)
      → is_identifier_segment a ≡ true
      → is_identifier_segment b ≡ true
      → SameShape s t
      → SameShape (a ∷ s) (b ∷ t)

pub template-SameShape : (s t : List Bytes) → SameShape s t → template s ≡ template t
unfolding template
template-SameShape _ _ both_end = refl
template-SameShape _ _ (same_segment a b s t e h) = rw (e, template-SameShape s t h) refl
template-SameShape _ _ (both_identify a b s t ha hb h) =
    rw (ha, hb) (ap (λ r. id_label ∷ r) (template-SameShape s t h))

length-SameShape : (s t : List Bytes) → SameShape s t → length s ≡ length t
length-SameShape _ _ both_end = refl
length-SameShape _ _ (same_segment a b s t e h) = ap suc (length-SameShape s t h)
length-SameShape _ _ (both_identify a b s t ha hb h) = ap suc (length-SameShape s t h)

SameShape-star :
    (s t : List Bytes) → SameShape s t → SameShape (s ++ codes "*" ∷ []) (t ++ codes "*" ∷ [])
SameShape-star _ _ both_end = same_segment (codes "*") (codes "*") [] [] refl both_end
SameShape-star _ _ (same_segment a b s t e h) = same_segment a b _ _ e (SameShape-star s t h)
SameShape-star _ _ (both_identify a b s t ha hb h) =
    both_identify a b _ _ ha hb (SameShape-star s t h)

SameShape-take : (n : ℕ) (s t : List Bytes) → SameShape s t → SameShape (take n s) (take n t)
SameShape-take zero _ _ h = both_end
SameShape-take (suc n) _ _ both_end = both_end
SameShape-take (suc n) _ _ (same_segment a b s t e h) =
    same_segment a b _ _ e (SameShape-take n s t h)
SameShape-take (suc n) _ _ (both_identify a b s t ha hb h) =
    both_identify a b _ _ ha hb (SameShape-take n s t h)

pub capped-SameShape : (s t : List Bytes) → SameShape s t → SameShape (capped s) (capped t)
unfolding capped
capped-SameShape s t h = elim (Bool-cases (ltb 8 (length s))) [
  | inl deep ↦
      rw (deep, ap (ltb 8) (sym (length-SameShape s t h)) ∙ deep)
        (SameShape-star _ _ (SameShape-take 8 s t h))
  | inr flat ↦ rw (flat, ap (ltb 8) (sym (length-SameShape s t h)) ∙ flat) h
]

abbrev pub path_in : Bytes → Bytes
path_in raw = without_query (path_of raw)

-- The path of a request is more than the root.
abbrev pub HasSegments : Bytes → Type 0
HasSegments raw = (is_empty (path_in raw) || bytes_eq (path_in raw) (codes "/")) ≡ false

pub normalize_deep :
    (raw : Bytes)
    → HasSegments raw
    → normalize_route raw
      ≡ codes "/" ++ join (codes "/") (template (capped (segments_of (path_in raw))))
unfolding normalize_route
normalize_deep [] h = unfold path_of after_scheme without_query in cc
normalize_deep (c ∷ s) h = rw (h, normalize_route) refl

-- A normalized route is empty, is the root, or has at most nine segments, none of which is still an
-- identifier.
pub normalize_route_shape :
    (raw : Bytes)
    → (normalize_route raw ≡ [])
      ⊎ (normalize_route raw ≡ codes "/")
      ⊎ ((segs : List Bytes) × (normalize_route raw ≡ codes "/" ++ join (codes "/") segs)
          × (length segs ≤ 9)
          × All (λ seg. is_identifier_segment seg ≡ false) segs)
normalize_route_shape [] = inl (unfold normalize_route in refl)
normalize_route_shape (c ∷ s) =
    elim (Bool-cases (is_empty (path_in (c ∷ s)) || bytes_eq (path_in (c ∷ s)) (codes "/"))) [
      | inl root ↦ inr (inl (unfold normalize_route in rw (root, normalize_route) refl))
      | inr deep ↦
          let segs = capped (segments_of (path_in (c ∷ s))) in
          inr (
            inr (
              template segs,
              normalize_deep (c ∷ s) deep,
              omega (arith, length-template segs, length-capped (segments_of (path_in (c ∷ s)))),
              template-All segs,
            ))
    ]
