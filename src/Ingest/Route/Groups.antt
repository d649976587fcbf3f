-- ===== src/Ingest/Route/Groups.antt =====
-- About NormalizeRoute (internal/receiver/route.go): which requests share a route.
use apm2go.Base.{
  ℕ, suc, [], ◌∷◌, ◌++◌, false, ◌||◌, is_empty, drop, Option, none, some, ◌≡◌, ◌⊎◌, refl, sym,
  subst, ap, ◌∙◌, arith,
}
use apm2go.Base.Eq.{Bytes, codes, bytes_eq}
use apm2go.Base.Text.{join, has_byte, has_prefix, has_substring, index_byte}
use apm2go.Ingest.Route.{
  after_scheme, from_slash, path_of, without_query, segments_of, capped, template, normalize_route,
}
use apm2go.Ingest.Route.Shape.{
  SameShape, template-SameShape, capped-SameShape, path_in, normalize_deep,
}

-- Nothing, or a query or a fragment.
abbrev pub IsTail : Bytes → Type 0
IsTail [] = Unit
IsTail (c ∷ s) = (c ≡ 63) ⊎ (c ≡ 35)

-- A path that is more than the root.
pub record IsPath (path : Bytes) : Type 0 where
  pub no_query : has_byte 63 path ≡ false
  pub no_fragment : has_byte 35 path ≡ false
  pub not_empty : is_empty path ≡ false
  pub not_root : bytes_eq path (codes "/") ≡ false

-- How a request names its path: by itself, with "://" nowhere in the request, or behind a scheme and a
-- host.
pub data IsRequest (raw path : Bytes) : Type 0 where
  relative :
      (tail : Bytes)
      → raw ≡ path ++ tail
      → IsTail tail
      → has_substring raw (codes "://") ≡ false
      → IsRequest raw path
  absolute :
      (scheme host below tail : Bytes)
      → raw ≡ scheme ++ (codes "://" ++ (host ++ (path ++ tail)))
      → path ≡ 47 ∷ below
      → IsTail tail
      → has_byte 58 scheme ≡ false
      → has_byte 47 host ≡ false
      → IsRequest raw path

after_scheme-none :
    (raw : Bytes) → has_substring raw (codes "://") ≡ false → after_scheme raw ≡ none
unfolding after_scheme has_substring
after_scheme-none [] h = refl
after_scheme-none (c ∷ s) h = ground (arith, h, after_scheme-none s)

after_scheme-some :
    (scheme rest : Bytes)
    → has_byte 58 scheme ≡ false
    → after_scheme (scheme ++ (codes "://" ++ rest)) ≡ some rest
unfolding after_scheme has_byte has_prefix
after_scheme-some [] rest h = refl
after_scheme-some (c ∷ s) rest h = ground (arith, h, after_scheme-some s rest)

index-host :
    (host rest : Bytes)
    → has_byte 47 host ≡ false
    → (j : ℕ) × (index_byte (host ++ (47 ∷ rest)) 47 ≡ some j)
      × (drop j (host ++ (47 ∷ rest)) ≡ 47 ∷ rest)
unfolding index_byte has_byte
index-host [] rest h = (0, refl, refl)
index-host (c ∷ s) rest h =
    let (j, e, d) = index-host s rest (ground (arith, h)) in (suc j, ground (arith, h, e), d)

from_slash-host :
    (host rest : Bytes) → has_byte 47 host ≡ false → from_slash (host ++ (47 ∷ rest)) ≡ 47 ∷ rest
unfolding from_slash
from_slash-host host rest h = let (j, e, d) = index-host host rest h in rw (e, from_slash) d

without_query-tail :
    (path tail : Bytes)
    → has_byte 63 path ≡ false
    → has_byte 35 path ≡ false
    → IsTail tail
    → without_query (path ++ tail) ≡ path
unfolding without_query has_byte
without_query-tail [] [] q f t = refl
without_query-tail [] (c ∷ s) q f t = ground (arith, t)
without_query-tail (c ∷ p) tail q f t = ground (arith, q, f, without_query-tail p tail)

path_of-IsRequest :
    (raw path : Bytes)
    → IsRequest raw path
    → (tail : Bytes) × (path_of raw ≡ path ++ tail) × IsTail tail
unfolding path_of
path_of-IsRequest raw path (relative tail e t n) =
    (tail, rw (after_scheme-none raw n, path_of) e, t)
path_of-IsRequest raw path (absolute scheme host below tail e b t s h) =
    let e' : raw ≡ scheme ++ (codes "://" ++ (host ++ (47 ∷ (below ++ tail)))) =
      e ∙ ap (λ p. scheme ++ (codes "://" ++ (host ++ (p ++ tail)))) b in
    (
      tail,
      ap path_of e'
          ∙ ap
              (λ (o : Option Bytes). elim o [
                | none ↦ scheme ++ (codes "://" ++ (host ++ (47 ∷ (below ++ tail))))
                | some rest ↦ from_slash rest
              ])
              (after_scheme-some scheme (host ++ (47 ∷ (below ++ tail))) s)
          ∙ from_slash-host host (below ++ tail) h
          ∙ ap (λ p. p ++ tail) (sym b),
      t,
    )

path_in-IsRequest : (raw path : Bytes) → IsRequest raw path → IsPath path → path_in raw ≡ path
path_in-IsRequest raw path r p =
    let (tail, e, t) = path_of-IsRequest raw path r in
    ap without_query e ∙ without_query-tail path tail p.no_query p.no_fragment t

normalize-IsRequest :
    (raw path : Bytes)
    → IsRequest raw path
    → IsPath path
    → normalize_route raw ≡ codes "/" ++ join (codes "/") (template (capped (segments_of path)))
normalize-IsRequest raw path r p =
    let e = path_in-IsRequest raw path r p in
    normalize_deep raw (
      subst (λ q. (is_empty q || bytes_eq q (codes "/")) ≡ false) (sym e)
        (ground (arith, p.not_empty, p.not_root)))
    ∙ ap (λ q. codes "/" ++ join (codes "/") (template (capped (segments_of q)))) e

-- Two requests whose paths are more than the root and have the same shape, segment by segment the same
-- name or identifiers both, are normalized to the same route, whatever schemes, hosts, queries and
-- fragments stand around the paths. The condition is that a request without a scheme and a host has "://"
-- nowhere, also not in its query.
pub normalize_route_groups :
    (raw path raw' path' : Bytes)
    → IsRequest raw path
    → IsPath path
    → IsRequest raw' path'
    → IsPath path'
    → SameShape (segments_of path) (segments_of path')
    → normalize_route raw ≡ normalize_route raw'
normalize_route_groups raw path raw' path' r p r' p' s =
    normalize-IsRequest raw path r p
    ∙ ap (λ segs. codes "/" ++ join (codes "/") segs)
        (template-SameShape _ _ (capped-SameShape _ _ s))
    ∙ sym (normalize-IsRequest raw' path' r' p')

-- A path whose query names another address is taken for that address's path.
pub query_taken_for_path : path_of (codes "/login?next=https://a.com/b") ≡ codes "/b"
unfolding path_of after_scheme from_slash has_prefix index_byte
query_taken_for_path = refl
