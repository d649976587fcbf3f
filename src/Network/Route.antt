-- ===== src/Network/Route.antt =====
-- internal/netns/route.go: Gateway, on the lines of the routing table, and parseHexAddress. An address
-- is its four octets; the one that Go calls not valid is `none`.
pub mod Rows
use apm2go.Base.{
  ℕ, ◌/◌, ◌%◌, List, [], ◌∷◌, true, false, not, ◌||◌, ◌&&◌, if◌then◌else◌, drop, any, All, Option,
  none, some, ◌≡◌, refl, ap, sym, ◌∙◌, ◌⊎◌, inl, inr, arith, Bool-cases, subst, Bool, ◌++◌,
  some_injective,
}
use apm2go.Base.Eq.{Bytes, codes, bytes_eq, bytes_eq_refl, bytes_eq_iff}
use apm2go.Base.Int.{ℤ, pos, negsuc, ltb_ℤ}
use apm2go.Base.Parse.{parse_uint, atoi, fields}

abbrev pub zero_address : Bytes
zero_address = codes "00000000"

abbrev little_endian_octets : Option ℕ → Option Bytes
little_endian_octets none = none
little_endian_octets (some n) =
    some (n % 256 ∷ n / 256 % 256 ∷ n / 65536 % 256 ∷ n / 16777216 % 256 ∷ [])

unfoldable pub parse_hex_address : Bytes → Option Bytes
parse_hex_address hex = little_endian_octets (parse_uint hex 16 32)

abbrev pub metric_or_zero : Option ℤ → ℤ
metric_or_zero none = pos 0
metric_or_zero (some n) = n

abbrev with_metric : ℤ → Option Bytes → Option (Bytes × ℤ)
with_metric metric none = none
with_metric metric (some addr) = some (addr, metric)

-- The gateway and the metric of a row that is a default route with a gateway.
unfoldable pub default_route : List Bytes → Option (Bytes × ℤ)
default_route (_ ∷ destination ∷ gateway ∷ _ ∷ _ ∷ _ ∷ metric ∷ mask ∷ _) =
    if not (bytes_eq destination zero_address) || not (bytes_eq mask zero_address)
    then none
    else if bytes_eq gateway zero_address
    then none
    else with_metric (metric_or_zero (atoi metric)) (parse_hex_address gateway)
default_route _ = none

-- The best route so far and its metric, which is -1 before the first one.
abbrev pub Best : Type 0
Best = Option Bytes × ℤ

abbrev pub take_better : Option (Bytes × ℤ) → Best → Best
take_better none best = best
take_better (some (addr, metric)) best =
    if ltb_ℤ best.1 (pos 0) || ltb_ℤ metric best.1 then (some addr, metric) else best

-- The loop over the rows behind the header.
unfoldable pub best_of : List Bytes → Best → Best
best_of [] best = best
best_of (line ∷ lines) best = best_of lines (take_better (default_route (fields line)) best)

unfoldable pub gateway : List Bytes → Option Bytes
gateway lines = (best_of (drop 1 lines) (none, negsuc 0)).0

-- The default routes of the rows.
abbrev pub default_routes : List Bytes → List (Bytes × ℤ)
default_routes [] = []
default_routes (line ∷ lines) = elim (default_route (fields line)) [
  | none ↦ default_routes lines
  | some route ↦ route ∷ default_routes lines
]

-- The kernel's metrics are not negative.
abbrev pub IsNatural : Bytes × ℤ → Type 0
IsNatural r = ltb_ℤ r.1 (pos 0) ≡ false

-- A route with the address and at most the metric, which that of every route is at least.
abbrev pub IsLeast : List (Bytes × ℤ) → Bytes → ℤ → Type 0
IsLeast routes addr metric =
    (any (λ r. bytes_eq r.0 addr && not (ltb_ℤ metric r.1)) routes ≡ true)
    × All (λ r. ltb_ℤ r.1 metric ≡ false) routes

-- The loop on the default routes alone.
abbrev best_among : List (Bytes × ℤ) → Best → Best
best_among [] best = best
best_among (r ∷ routes) best = best_among routes (take_better (some r) best)

best_of-eq :
    (lines : List Bytes) (best : Best) → best_of lines best ≡ best_among (default_routes lines) best
unfolding best_of
best_of-eq [] best = refl
best_of-eq (line ∷ lines) best = go (default_route (fields line)) (best_of-eq lines)
  where
    go :
        (o : Option (Bytes × ℤ))
        → ((b : Best) → best_of lines b ≡ best_among (default_routes lines) b)
        → best_of lines (take_better o best)
          ≡ best_among
              (elim o [ none ↦ default_routes lines | some route ↦ route ∷ default_routes lines ])
              best
    go none h = h best
    go (some r) h = h (take_better (some r) best)

-- What the loop makes of the routes that are left, from the best so far.
data Outcome (routes : List (Bytes × ℤ)) (best result : Best) : Type 0 where
  kept : result ≡ best → All (λ r. ltb_ℤ r.1 best.1 ≡ false) routes → Outcome routes best result
  better :
      (addr : Bytes)
      → result.0 ≡ some addr
      → IsLeast routes addr result.1
      → ltb_ℤ result.1 best.1 ≡ true
      → Outcome routes best result

ltb_ℤ-behind : (a b c : ℤ) → ltb_ℤ a b ≡ false → ltb_ℤ c b ≡ true → ltb_ℤ a c ≡ false
ltb_ℤ-behind a b c h k = ground arith

ltb_ℤ-ahead : (a b c : ℤ) → ltb_ℤ a b ≡ true → ltb_ℤ a c ≡ false → ltb_ℤ c b ≡ true
ltb_ℤ-ahead a b c h k = ground arith

ltb_ℤ_asym : (a b : ℤ) → ltb_ℤ a b ≡ true → ltb_ℤ b a ≡ false
ltb_ℤ_asym a b h = ground arith

ltb_ℤ_irrefl : (a : ℤ) → ltb_ℤ a a ≡ false
ltb_ℤ_irrefl a = ground arith

-- The loop's result after a route that was taken.
abbrev Taken : Bytes → ℤ → List (Bytes × ℤ) → Best → Type 0
Taken addr m routes result =
    (a : Bytes) × (result.0 ≡ some a)
    × IsLeast ((addr, m) ∷ routes) a result.1
    × (ltb_ℤ m result.1 ≡ false)

Outcome→Taken :
    (addr : Bytes) (m : ℤ) (routes : List (Bytes × ℤ)) (result : Best)
    → Outcome routes (some addr, m) result
    → Taken addr m routes result
Outcome→Taken addr m routes result (kept e h) = subst (Taken addr m routes) (sym e) (
  addr,
  refl,
  (ground (arith, bytes_eq_refl addr, ltb_ℤ_irrefl m), (ltb_ℤ_irrefl m, h)),
  ltb_ℤ_irrefl m,
)
Outcome→Taken addr m routes result (better a e (any_route, all_routes) lt) =
    let above = ltb_ℤ_asym result.1 m lt in
    (a, e, (ground (arith, any_route), (above, all_routes)), above)

best_among-Outcome :
    (routes : List (Bytes × ℤ)) (best : Best)
    → ltb_ℤ best.1 (pos 0) ≡ false
    → All IsNatural routes
    → Outcome routes best (best_among routes best)
best_among-Outcome [] best s n = kept refl tt
best_among-Outcome ((addr, m) ∷ routes) best s n = elim (Bool-cases (ltb_ℤ m best.1)) [
  | inl less ↦
      subst (λ b. Outcome ((addr, m) ∷ routes) best (best_among routes b)) (sym (taken less))
        (improved less
          (Outcome→Taken addr m routes _ (best_among-Outcome routes (some addr, m) n.0 n.1)))
  | inr not_less ↦
      subst (λ b. Outcome ((addr, m) ∷ routes) best (best_among routes b)) (sym (passed not_less))
        (extended not_less (best_among-Outcome routes best s n.1))
]
  where
    taken : ltb_ℤ m best.1 ≡ true → take_better (some (addr, m)) best ≡ (some addr, m)
    taken h =
        ap (λ b. if b || ltb_ℤ m best.1 then (some addr, m) else best) s
        ∙ ap (λ c. if c then (some addr, m) else best) h

    passed : ltb_ℤ m best.1 ≡ false → take_better (some (addr, m)) best ≡ best
    passed h =
        ap (λ b. if b || ltb_ℤ m best.1 then (some addr, m) else best) s
        ∙ ap (λ c. if c then (some addr, m) else best) h

    improved :
        {r : Best}
        → ltb_ℤ m best.1 ≡ true
        → Taken addr m routes r
        → Outcome ((addr, m) ∷ routes) best r
    improved {r} h (a, e, l, above) = better a e l (ltb_ℤ-ahead m best.1 r.1 h above)

    extended :
        {r : Best}
        → ltb_ℤ m best.1 ≡ false
        → Outcome routes best r
        → Outcome ((addr, m) ∷ routes) best r
    extended h (kept e k) = kept e (h, k)
    extended {r} h (better a e (any_route, all_routes) lt) =
        better a e (ground (arith, any_route), (ltb_ℤ-behind m best.1 r.1 h lt, all_routes)) lt

-- The loop's answer, on the default routes that the code finds.
pub gateway-routes :
    (lines : List Bytes)
    → All IsNatural (default_routes (drop 1 lines))
    → ((gateway lines ≡ none) × (default_routes (drop 1 lines) ≡ []))
      ⊎ ((addr : Bytes) × (metric : ℤ) × (gateway lines ≡ some addr)
          × IsLeast (default_routes (drop 1 lines)) addr metric)
unfolding gateway
gateway-routes lines n =
    go (default_routes (drop 1 lines)) n
      (ap (λ (b : Best). b.0) (best_of-eq (drop 1 lines) (none, negsuc 0)))
  where
    go :
        (routes : List (Bytes × ℤ))
        → All IsNatural routes
        → gateway lines ≡ (best_among routes (none, negsuc 0)).0
        → ((gateway lines ≡ none) × (routes ≡ []))
          ⊎ ((addr : Bytes) × (metric : ℤ) × (gateway lines ≡ some addr)
              × IsLeast routes addr metric)
    go [] h e = inl (e, refl)
    go ((addr, m) ∷ routes) h e =
        let (a, f, l, _) =
          Outcome→Taken addr m routes _ (best_among-Outcome routes (some addr, m) h.0 h.1) in
        inr (a, (best_among routes (some addr, m)).1, e ∙ f, l)
