-- ===== src/Network/Route/Rows.antt =====
-- About Gateway (internal/netns/route.go): what it answers, by the rows of the routing table.
use apm2go.Base.{
  List, [], ◌∷◌, ◌++◌, Bool, true, false, not, ◌&&◌, drop, any, All, Option, none, some,
  some_injective, ◌≡◌, refl, ap, sym, ◌∙◌, ◌⊎◌, inl, inr, arith, Bool-cases, subst,
}
use apm2go.Base.Eq.{Bytes, bytes_eq, bytes_eq_refl, bytes_eq_iff}
use apm2go.Base.Int.{ℤ, pos, ltb_ℤ}
use apm2go.Base.Parse.{atoi, fields}
use apm2go.Network.Route.{
  zero_address, parse_hex_address, metric_or_zero, default_route, gateway, default_routes,
  IsNatural, gateway-routes,
}

-- A row of the table that is a default route with a gateway: its destination and its mask are zero and
-- its gateway is not; the metric is 0 where it is no number.
pub record IsDefaultRow (line addr : Bytes) (metric : ℤ) : Type 0 where
  pub interface : Bytes
  pub gateway_field : Bytes
  pub flags : Bytes
  pub references : Bytes
  pub uses : Bytes
  pub metric_field : Bytes
  pub others : List Bytes
  pub row :
      fields line
      ≡ interface ∷ zero_address ∷ gateway_field ∷ flags ∷ references ∷ uses ∷ metric_field
        ∷ zero_address ∷ others
  pub has_gateway : bytes_eq gateway_field zero_address ≡ false
  pub address : parse_hex_address gateway_field ≡ some addr
  pub metric_value :
      (atoi metric_field ≡ some metric) ⊎ ((atoi metric_field ≡ none) × (metric ≡ pos 0))

metric_or_zero-value :
    (o : Option ℤ) (m : ℤ) → (o ≡ some m) ⊎ ((o ≡ none) × (m ≡ pos 0)) → metric_or_zero o ≡ m
metric_or_zero-value o m (inl e) = ap metric_or_zero e
metric_or_zero-value o m (inr (e, z)) = ap metric_or_zero e ∙ sym z

default_route-row :
    (line addr : Bytes) (m : ℤ)
    → IsDefaultRow line addr m
    → default_route (fields line) ≡ some (addr, m)
unfolding default_route
default_route-row line addr m d =
    ap default_route d.row
    ∙ rw
        (
          bytes_eq_refl zero_address,
          d.has_gateway,
          d.address,
          metric_or_zero-value _ m d.metric_value,
        )
        refl

value-metric_or_zero :
    (o : Option ℤ) → (o ≡ some (metric_or_zero o)) ⊎ ((o ≡ none) × (metric_or_zero o ≡ pos 0))
value-metric_or_zero none = inr (refl, refl)
value-metric_or_zero (some m) = inl refl

row_parts :
    (i d g fl re us mt ma : Bytes) (others : List Bytes) (r : Bytes × ℤ)
    → default_route (i ∷ d ∷ g ∷ fl ∷ re ∷ us ∷ mt ∷ ma ∷ others) ≡ some r
    → (bytes_eq d zero_address ≡ true)
      × (bytes_eq ma zero_address ≡ true)
      × (bytes_eq g zero_address ≡ false)
      × (parse_hex_address g ≡ some r.0)
      × (metric_or_zero (atoi mt) ≡ r.1)
unfolding default_route
row_parts i d g fl re us mt ma others r h = ground (arith, h)

-- What the code finds in a row's fields, as a row.
row-default_route :
    (line : Bytes) (fs : List Bytes) (r : Bytes × ℤ)
    → fields line ≡ fs
    → default_route fs ≡ some r
    → IsDefaultRow line r.0 r.1
unfolding default_route
row-default_route line (i ∷ d ∷ g ∷ fl ∷ re ∷ us ∷ mt ∷ ma ∷ others) r e h =
    let (zd, zm, ng, pa, mv) = row_parts i d g fl re us mt ma others r h in
    record {
      interface = i;
      gateway_field = g;
      flags = fl;
      references = re;
      uses = us;
      metric_field = mt;
      others = others;
      row =
          e
          ∙ ap (λ x. i ∷ x ∷ g ∷ fl ∷ re ∷ us ∷ mt ∷ ma ∷ others)
              ((bytes_eq_iff d zero_address).0 zd)
          ∙ ap (λ x. i ∷ zero_address ∷ g ∷ fl ∷ re ∷ us ∷ mt ∷ x ∷ others)
              ((bytes_eq_iff ma zero_address).0 zm);
      has_gateway = ng;
      address = pa;
      metric_value =
          subst (λ m. (atoi mt ≡ some m) ⊎ ((atoi mt ≡ none) × (m ≡ pos 0))) mv
            (value-metric_or_zero (atoi mt));
    }
row-default_route line [] r e h = cc
row-default_route line (_ ∷ []) r e h = cc
row-default_route line (_ ∷ _ ∷ []) r e h = cc
row-default_route line (_ ∷ _ ∷ _ ∷ []) r e h = cc
row-default_route line (_ ∷ _ ∷ _ ∷ _ ∷ []) r e h = cc
row-default_route line (_ ∷ _ ∷ _ ∷ _ ∷ _ ∷ []) r e h = cc
row-default_route line (_ ∷ _ ∷ _ ∷ _ ∷ _ ∷ _ ∷ []) r e h = cc
row-default_route line (_ ∷ _ ∷ _ ∷ _ ∷ _ ∷ _ ∷ _ ∷ []) r e h = cc

-- What every default route of a table satisfies.
abbrev pub EachRow : (Bytes × ℤ → Type 0) → List Bytes → Type 0
EachRow P lines =
    All (λ line. (addr : Bytes) (m : ℤ) → IsDefaultRow line addr m → P (addr, m)) lines

pub EachRow-routes :
    (P : Bytes × ℤ → Type 0) (lines : List Bytes) → All P (default_routes lines) → EachRow P lines
EachRow-routes P [] h = tt
EachRow-routes P (line ∷ lines) h =
    go (default_route (fields line)) (default_route-row line) (EachRow-routes P lines) h
  where
    go :
        (o : Option (Bytes × ℤ))
        → ((addr : Bytes) (m : ℤ) → IsDefaultRow line addr m → o ≡ some (addr, m))
        → (All P (default_routes lines) → EachRow P lines)
        → All P (elim o [ none ↦ default_routes lines | some r ↦ r ∷ default_routes lines ])
        → EachRow P (line ∷ lines)
    go none found later k = (λ addr m d. cc (found addr m d), later k)
    go (some r) found later k =
        (λ addr m d. subst P (some_injective r (addr, m) (found addr m d)) k.0, later k.1)

routes-EachRow :
    (P : Bytes × ℤ → Type 0) (lines : List Bytes) → EachRow P lines → All P (default_routes lines)
routes-EachRow P [] h = tt
routes-EachRow P (line ∷ lines) h =
    go (default_route (fields line)) (λ r. row-default_route line (fields line) r refl)
      (routes-EachRow P lines h.1)
  where
    go :
        (o : Option (Bytes × ℤ))
        → ((r : Bytes × ℤ) → o ≡ some r → IsDefaultRow line r.0 r.1)
        → All P (default_routes lines)
        → All P (elim o [ none ↦ default_routes lines | some r ↦ r ∷ default_routes lines ])
    go none found later = later
    go (some r) found later = (h.0 r.0 r.1 (found r refl), later)

All-map :
    {P Q : Bytes × ℤ → Type 0}
    → ((r : Bytes × ℤ) → P r → Q r)
    → (routes : List (Bytes × ℤ)) → All P routes
    → All Q routes
All-map f [] h = tt
All-map f (r ∷ routes) h = (f r h.0, All-map f routes h.1)

-- A default row among the rows.
abbrev pub HasRow : List Bytes → Bytes → ℤ → Type 0
HasRow lines addr m =
    (before after : List Bytes) × (line : Bytes) × (lines ≡ before ++ line ∷ after)
    × IsDefaultRow line addr m

HasRow-later :
    (x : Bytes) (lines : List Bytes) (addr : Bytes) (m : ℤ)
    → HasRow lines addr m
    → HasRow (x ∷ lines) addr m
HasRow-later x lines addr m (before, after, line, e, d) =
    (x ∷ before, after, line, ap (λ l. x ∷ l) e, d)

HasRow-routes :
    (p : Bytes × ℤ → Bool) (lines : List Bytes)
    → any p (default_routes lines) ≡ true
    → (r : Bytes × ℤ) × HasRow lines r.0 r.1 × (p r ≡ true)
HasRow-routes p [] h = cc
HasRow-routes p (line ∷ lines) h =
    go (default_route (fields line)) (λ r. row-default_route line (fields line) r refl)
      (λ k. passed (HasRow-routes p lines k)) h
  where
    passed :
        ((r : Bytes × ℤ) × HasRow lines r.0 r.1 × (p r ≡ true))
        → (r : Bytes × ℤ) × HasRow (line ∷ lines) r.0 r.1 × (p r ≡ true)
    passed (r, d, k) = (r, HasRow-later line lines r.0 r.1 d, k)

    go :
        (o : Option (Bytes × ℤ))
        → ((r : Bytes × ℤ) → o ≡ some r → IsDefaultRow line r.0 r.1)
        → (any p (default_routes lines) ≡ true
            → (r : Bytes × ℤ) × HasRow (line ∷ lines) r.0 r.1 × (p r ≡ true))
        → any p (elim o [ none ↦ default_routes lines | some r ↦ r ∷ default_routes lines ]) ≡ true
        → (r : Bytes × ℤ) × HasRow (line ∷ lines) r.0 r.1 × (p r ≡ true)
    go none found later k = later k
    go (some r) found later k = elim (Bool-cases (p r)) [
      | inl here ↦ (r, ([], lines, line, refl, found r refl), here)
      | inr there ↦ later (ground (arith, k, there))
    ]

abbrev pub gateway_rows : List Bytes → List Bytes
gateway_rows lines = drop 1 lines

least_of : (a b c : ℤ) → ltb_ℤ a b ≡ false → ltb_ℤ b c ≡ false → ltb_ℤ a c ≡ false
least_of a b c h k = ground arith

-- The gateway is that of a row behind the header whose destination and mask are zero and whose gateway
-- is not, and whose metric is not above that of any other such row; there is none only if there is no such
-- row. A default route without a gateway is no such row, however low its metric is. The condition is that
-- no such row's metric is negative.
pub gateway-IsLeast :
    (lines : List Bytes)
    → EachRow IsNatural (gateway_rows lines)
    → ((gateway lines ≡ none) × EachRow (λ r. ⊥) (gateway_rows lines))
      ⊎ ((addr : Bytes) × (metric : ℤ) × (gateway lines ≡ some addr)
          × HasRow (gateway_rows lines) addr metric
          × EachRow (λ r. ltb_ℤ r.1 metric ≡ false) (gateway_rows lines))
gateway-IsLeast lines n =
    elim (gateway-routes lines (routes-EachRow IsNatural (gateway_rows lines) n)) [
      | inl (e, nil) ↦
          inl (e, EachRow-routes (λ r. ⊥) (gateway_rows lines) (subst (All (λ r. ⊥)) (sym nil) tt))
      | inr (addr, metric, e, (here, least)) ↦
          let p : Bytes × ℤ → Bool = λ r. bytes_eq r.0 addr && not (ltb_ℤ metric r.1) in
          let (r, found, k) = HasRow-routes p (gateway_rows lines) here in
          let same : r.0 ≡ addr = (bytes_eq_iff r.0 addr).0 (ground (arith, k)) in
          let below : ltb_ℤ metric r.1 ≡ false = ground (arith, k) in
          inr (
            r.0,
            r.1,
            e ∙ ap some (sym same),
            found,
            EachRow-routes (λ o. ltb_ℤ o.1 r.1 ≡ false) (gateway_rows lines)
                (All-map (λ o h. least_of o.1 metric r.1 h below)
                  (default_routes (gateway_rows lines)) least),
          )
    ]
