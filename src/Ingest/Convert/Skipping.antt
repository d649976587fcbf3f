-- ===== src/Ingest/Convert/Skipping.antt =====
-- About Convert (internal/receiver/convert.go): the spans of a request.
use apm2go.Base.{
  ℕ, suc, ◌+◌, List, [], ◌∷◌, ◌++◌, false, if◌then◌else◌, is_empty, Option, All, All-append,
  append-nil, append_assoc, map, map-append, ap, ◌∙◌, ◌≡◌, refl, sym, subst, arith,
}
use apm2go.Base.Eq.{Bytes}
use apm2go.Base.Int.{ℤ}
use apm2go.Base.Dict.{Dict}
use apm2go.Ingest.Values.{attributes_to_map}
use apm2go.Ingest.Semconv.{first_non_empty, attribute}
use apm2go.Ingest.Convert.{
  OtlpSpan, ResourceSpans, ModelSpan, keep_span, convert_scope, convert_scopes, convert_within,
  convert_from, convert, unknown_service,
}
use apm2go.Ingest.Convert.Spans.{
  is_malformed, IsStorable, identity, sent_identity, Conversion, stored, skipped,
  convert_span-cases,
}

-- How many spans of a list are malformed.
abbrev pub malformed_in : List OtlpSpan → ℕ
malformed_in [] = 0
malformed_in (s ∷ ss) = let rest = malformed_in ss in if is_malformed s then suc rest else rest

abbrev pub spans_of : List (List OtlpSpan) → List OtlpSpan
spans_of [] = []
spans_of (ss ∷ scopes) = ss ++ spans_of scopes

abbrev pub all_spans : List ResourceSpans → List OtlpSpan
all_spans [] = []
all_spans (rs ∷ resources) = spans_of rs.scope_spans ++ all_spans resources

-- The others, in order.
abbrev pub identities_in : List OtlpSpan → List (Bytes × Bytes × ℤ)
identities_in [] = []
identities_in (s ∷ ss) =
    let rest = identities_in ss in if is_malformed s then rest else sent_identity s ∷ rest

identities_in-append :
    (xs ys : List OtlpSpan) → identities_in (xs ++ ys) ≡ identities_in xs ++ identities_in ys
identities_in-append [] ys = refl
identities_in-append (x ∷ xs) ys = ground (arith, identities_in-append xs ys)

malformed_in-append :
    (xs ys : List OtlpSpan) → malformed_in (xs ++ ys) ≡ malformed_in xs + malformed_in ys
malformed_in-append [] ys = omega arith
malformed_in-append (x ∷ xs) ys = ground (arith, malformed_in-append xs ys)

-- What converting a list of spans adds to the result so far.
abbrev pub Adds : List OtlpSpan → List ModelSpan × ℕ → List ModelSpan × ℕ → Type 0
Adds ss acc r =
    (All IsStorable acc.0 → All IsStorable r.0)
    × (r.1 ≡ acc.1 + malformed_in ss)
    × (map identity r.0 ≡ map identity acc.0 ++ identities_in ss)

Adds-append :
    (xs ys : List OtlpSpan) (a b c : List ModelSpan × ℕ)
    → Adds xs a b
    → Adds ys b c
    → Adds (xs ++ ys) a c
Adds-append xs ys a b c (k, m, n) (k', m', n') = (
  λ h. k' (k h),
  omega (arith, m, m', malformed_in-append xs ys),
  n'
      ∙ ap (λ r. r ++ identities_in ys) n
      ∙ append_assoc (map identity a.0) (identities_in xs) (identities_in ys)
      ∙ ap (λ r. map identity a.0 ++ r) (sym (identities_in-append xs ys)),
)

Adds-keep_span :
    (s : OtlpSpan) (o : Option ModelSpan) (acc : List ModelSpan × ℕ)
    → Conversion s o
    → Adds (s ∷ []) acc (keep_span o acc)
Adds-keep_span s o acc (skipped e m) =
    subst (λ p. Adds (s ∷ []) acc (keep_span p acc)) (sym e)
      (rw m (λ h. h, refl, sym (append-nil (map identity acc.0))))
Adds-keep_span s o acc (stored span e i m n) =
    subst (λ p. Adds (s ∷ []) acc (keep_span p acc)) (sym e)
      (rw m (
        λ h. All-append IsStorable acc.0 (span ∷ []) h (i, tt),
        omega arith,
        map-append identity acc.0 (span ∷ []) ∙ ap (λ x. map identity acc.0 ++ x ∷ []) n,
      ))

pub first_non_empty_of : (v : Bytes) → is_empty (first_non_empty (v ∷ unknown_service ∷ [])) ≡ false
unfolding first_non_empty
first_non_empty_of [] = refl
first_non_empty_of (c ∷ v) = refl

module _ (resource : Dict Bytes Bytes) where
  within-cases : (s : OtlpSpan) → Conversion s (convert_within resource s)
  unfolding convert_within
  within-cases s = convert_span-cases s _ _ _ resource (first_non_empty_of (attribute _ resource))

  Adds-convert_scope :
      (ss : List OtlpSpan) (acc : List ModelSpan × ℕ)
      → Adds ss acc (convert_scope (convert_within resource) ss acc)
  unfolding convert_scope
  Adds-convert_scope [] acc = (λ h. h, omega arith, sym (append-nil (map identity acc.0)))
  Adds-convert_scope (s ∷ ss) acc =
      let next = keep_span (convert_within resource s) acc in
      Adds-append (s ∷ []) ss acc next _ (Adds-keep_span s _ acc (within-cases s))
        (Adds-convert_scope ss next)

  Adds-convert_scopes :
      (scopes : List (List OtlpSpan)) (acc : List ModelSpan × ℕ)
      → Adds (spans_of scopes) acc (convert_scopes (convert_within resource) scopes acc)
  unfolding convert_scopes
  Adds-convert_scopes [] acc = (λ h. h, omega arith, sym (append-nil (map identity acc.0)))
  Adds-convert_scopes (ss ∷ scopes) acc =
      let next = convert_scope (convert_within resource) ss acc in
      Adds-append ss (spans_of scopes) acc next _ (Adds-convert_scope ss acc)
        (Adds-convert_scopes scopes next)

Adds-convert_from :
    (resources : List ResourceSpans) (acc : List ModelSpan × ℕ)
    → Adds (all_spans resources) acc (convert_from resources acc)
unfolding convert_from
Adds-convert_from [] acc = (λ h. h, omega arith, sym (append-nil (map identity acc.0)))
Adds-convert_from (rs ∷ resources) acc =
    let next =
      convert_scopes (convert_within (attributes_to_map rs.attributes)) rs.scope_spans acc in
    Adds-append (spans_of rs.scope_spans) (all_spans resources) acc next _
      (Adds-convert_scopes (attributes_to_map rs.attributes) rs.scope_spans acc)
      (Adds-convert_from resources next)

-- Exactly the malformed spans of a request are skipped and counted. The results are the other spans, in
-- their order, each once, with the ids and the start that were sent, and each can be stored: a bad span
-- costs none of the others.
pub convert-IsStorable :
    (resources : List ResourceSpans)
    → All IsStorable (convert resources).0
      × ((convert resources).1 ≡ malformed_in (all_spans resources))
      × (map identity (convert resources).0 ≡ identities_in (all_spans resources))
unfolding convert
convert-IsStorable resources =
    let (k, m, n) = Adds-convert_from resources ([], 0) in (k tt, omega (arith, m), n)
