-- ===== src/Ingest/Values.antt =====
-- internal/receiver/convert.go: attributesToMap, anyValueToString and joinComma. A floating-point
-- value stands for the text that strconv.FormatFloat makes of it; an absent value has its own case.
use apm2go.Base.{
  suc, ◌+◌, List, [], ◌∷◌, ◌++◌, Bool, true, false, if◌then◌else◌, length, is_empty, ◌≡◌, refl, ◌∙◌,
  append_assoc, some, arith,
}
use apm2go.Base.Eq.{Bytes, codes, text_eq}
use apm2go.Base.Int.{ℤ, pos, negsuc}
use apm2go.Base.Text.{join}
use apm2go.Base.Dict.{Dict, insert, lookup, lookup-insert}
use apm2go.Discovery.Naming.{decimal}

mutual
  pub data AnyValue : Type 0 where
    no_value : AnyValue
    string_value : Bytes → AnyValue
    bool_value : Bool → AnyValue
    int_value : ℤ → AnyValue
    double_value : Bytes → AnyValue
    bytes_value : Bytes → AnyValue
    array_value : Values → AnyValue
    kvlist_value : Pairs → AnyValue

  pub data Values : Type 0 where
    no_values : Values
    more_values : AnyValue → Values → Values

  pub data Pairs : Type 0 where
    no_pairs : Pairs
    more_pairs : Bytes → AnyValue → Pairs → Pairs

-- strconv.FormatInt n 10
abbrev pub format_int : ℤ → Bytes
format_int (pos n) = decimal (n + 1) n
format_int (negsuc n) = b'-' ∷ decimal (suc n + 1) (suc n)

abbrev pub format_bool : Bool → Bytes
format_bool true = codes "true"
format_bool false = codes "false"

-- The loop of joinComma behind the first part.
unfoldable pub join_rest : Bytes → List Bytes → Bytes
join_rest out [] = out
join_rest out (p ∷ ps) = join_rest (out ++ b',' ∷ p) ps

unfoldable pub join_comma : List Bytes → Bytes
join_comma [] = []
join_comma (p ∷ ps) = join_rest p ps

unfoldable mutual
  pub any_value_to_string : AnyValue → Bytes
  any_value_to_string no_value = []
  any_value_to_string (string_value s) = s
  any_value_to_string (bool_value b) = format_bool b
  any_value_to_string (int_value n) = format_int n
  any_value_to_string (double_value s) = s
  any_value_to_string (bytes_value b) = decimal (length b + 1) (length b) ++ codes " bytes"
  any_value_to_string (array_value vs) = codes "[" ++ join_comma (value_parts vs) ++ codes "]"
  any_value_to_string (kvlist_value kvs) = codes "{" ++ join_comma (pair_parts kvs) ++ codes "}"

  pub value_parts : Values → List Bytes
  value_parts no_values = []
  value_parts (more_values v vs) = any_value_to_string v ∷ value_parts vs

  pub pair_parts : Pairs → List Bytes
  pair_parts no_pairs = []
  pair_parts (more_pairs k v kvs) = (k ++ codes "=" ++ any_value_to_string v) ∷ pair_parts kvs

-- One turn of the loop over the attributes.
abbrev pub put_attribute : Bytes × AnyValue → Dict Bytes Bytes → Dict Bytes Bytes
put_attribute (k, v) out =
    let text = any_value_to_string v in
    if is_empty k then out else if is_empty text then out else insert k text out

unfoldable pub put_attributes : List (Bytes × AnyValue) → Dict Bytes Bytes → Dict Bytes Bytes
put_attributes [] out = out
put_attributes (kv ∷ kvs) out = put_attributes kvs (put_attribute kv out)

unfoldable pub attributes_to_map : List (Bytes × AnyValue) → Dict Bytes Bytes
attributes_to_map kvs = put_attributes kvs []

join-append :
    (p q : Bytes) (ps : List Bytes)
    → join (b',' ∷ []) ((p ++ b',' ∷ q) ∷ ps) ≡ join (b',' ∷ []) (p ∷ q ∷ ps)
unfolding join
join-append p q [] = refl
join-append p q (r ∷ ps) = append_assoc p (b',' ∷ q) (b',' ∷ join (b',' ∷ []) (r ∷ ps))

join_rest-eq : (p : Bytes) (ps : List Bytes) → join_rest p ps ≡ join (b',' ∷ []) (p ∷ ps)
unfolding join_rest join
join_rest-eq p [] = refl
join_rest-eq p (q ∷ ps) = join_rest-eq (p ++ b',' ∷ q) ps ∙ join-append p q ps

-- The map holds no empty value.
abbrev pub NoEmptyValue : Dict Bytes Bytes → Type 0
NoEmptyValue m = (k v : Bytes) → lookup k m ≡ some v → is_empty v ≡ false

put_attributes-NoEmptyValue :
    (kvs : List (Bytes × AnyValue)) (out : Dict Bytes Bytes)
    → NoEmptyValue out
    → NoEmptyValue (put_attributes kvs out)
unfolding put_attributes
put_attributes-NoEmptyValue [] out h = h
put_attributes-NoEmptyValue ((k, v) ∷ kvs) out h =
    put_attributes-NoEmptyValue kvs (put_attribute (k, v) out)
      (λ j w e. ground (arith, lookup-insert k j (any_value_to_string v) out, h j w, e))
