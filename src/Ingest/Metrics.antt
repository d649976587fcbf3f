-- ===== src/Ingest/Metrics.antt =====
-- internal/receiver/convert_metrics.go, and Metric of internal/model/metric.go. A float64 is a finite
-- number, kept as its bits, an infinity or no number; the float of an integer is a parameter.
pub mod Points
use apm2go.Base.{
  ℕ, ◌+◌, List, [], ◌∷◌, ◌++◌, Bool, true, false, not, if◌then◌else◌, ◌==◌, is_empty, Option, none,
  some,
}
use apm2go.Base.Eq.{Bytes, codes}
use apm2go.Base.Int.{ℤ}
use apm2go.Base.Dict.{Dict}
use apm2go.Base.Parse.{atoi_value}
use apm2go.Ingest.Values.{AnyValue, attributes_to_map}
use apm2go.Ingest.Semconv.{first_non_empty, attribute}
use apm2go.Ingest.Convert.{unknown_service, to_int64}

pub data Float : Type 0 where
  finite : ℕ → Float
  infinite : Float
  not_a_number : Float

pub data PointValue : Type 0 where
  as_double : Float → PointValue
  as_int : ℤ → PointValue
  no_value : PointValue

pub record NumberPoint : Type 0 where
  pub at : ℕ
  pub value : PointValue
  pub attributes : Dict Bytes AnyValue

pub record HistogramPoint : Type 0 where
  pub at : ℕ
  pub count : ℕ
  pub sum : Float
  pub explicit_bounds : List Float
  pub bucket_counts : List ℕ
  pub attributes : Dict Bytes AnyValue

pub data MetricData : Type 0 where
  gauge_data : List NumberPoint → MetricData
  sum_data : Bool → List NumberPoint → MetricData
  histogram_data : List HistogramPoint → MetricData
  other_data : MetricData

pub record OtlpMetric : Type 0 where
  pub name : Bytes
  pub unit : Bytes
  pub payload : MetricData

pub record ResourceMetrics : Type 0 where
  pub attributes : Dict Bytes AnyValue
  pub scope_metrics : List (List OtlpMetric)

pub data MetricKind : Type 0 where
  kind_gauge kind_sum kind_histogram : MetricKind

pub record Bucket : Type 0 where
  pub upper_bound : Float
  pub count : ℕ

pub record ModelMetric : Type 0 where
  pub timestamp : ℤ
  pub name : Bytes
  pub kind : MetricKind
  pub service : Bytes
  pub host_name : Bytes
  pub pid : ℤ
  pub value : Float
  pub count : ℕ
  pub sum : Float
  pub buckets : List Bucket
  pub unit : Bytes
  pub attributes : Dict Bytes Bytes

-- The float64 zero has the bits of 0.
abbrev pub zero_float : Float
zero_float = finite 0

-- The arguments that both converters of points take.
pub record Origin : Type 0 where
  pub source_name : Bytes
  pub source_unit : Bytes
  pub source_service : Bytes
  pub source_host : Bytes
  pub source_pid : ℤ

abbrev pub blank_metric : Origin → ℕ → MetricKind → Dict Bytes AnyValue → ModelMetric
blank_metric s at kind attributes = record {
  timestamp = to_int64 at;
  name = s.source_name;
  kind = kind;
  service = s.source_service;
  host_name = s.source_host;
  pid = s.source_pid;
  value = zero_float;
  count = 0;
  sum = zero_float;
  buckets = [];
  unit = s.source_unit;
  attributes = attributes_to_map attributes;
}

abbrev pub finite_or_none : Float → Option ℕ
finite_or_none (finite b) = some b
finite_or_none infinite = none
finite_or_none not_a_number = none

abbrev pub finite_or_zero : Float → Float
finite_or_zero (finite b) = finite b
finite_or_zero infinite = zero_float
finite_or_zero not_a_number = zero_float

-- The loop over the counts, beside the bounds that are left.
unfoldable pub buckets_of : List ℕ → List Float → List Bucket
buckets_of [] bounds = []
buckets_of (c ∷ cs) [] = record { upper_bound = infinite; count = c } ∷ buckets_of cs []
buckets_of (c ∷ cs) (b ∷ bs) = record { upper_bound = b; count = c } ∷ buckets_of cs bs

unfoldable pub histogram_point : Origin → HistogramPoint → Option ModelMetric
histogram_point s p =
    if p.at == 0
    then none
    else some (record (blank_metric s p.at kind_histogram p.attributes) {
      count = p.count;
      sum = finite_or_zero p.sum;
      buckets = buckets_of p.bucket_counts p.explicit_bounds;
    })

-- The rows of the points that can be stored, and the count of the others.
abbrev pub Rows : Type 0
Rows = List ModelMetric × ℕ

abbrev pub row_or_skip : Option ModelMetric → Rows → Rows
row_or_skip none (rows, skipped) = (rows, skipped + 1)
row_or_skip (some m) (rows, skipped) = (m ∷ rows, skipped)

module _ {P : Type 0} (convert_point : P → Option ModelMetric) where
  unfoldable pub convert_points : List P → Rows
  convert_points [] = ([], 0)
  convert_points (p ∷ ps) = row_or_skip (convert_point p) (convert_points ps)

abbrev pub both_rows : Rows → Rows → Rows
both_rows (rows, skipped) (rows', skipped') = (rows ++ rows', skipped + skipped')

module _ (float_of : ℤ → ℕ) where
  abbrev pub number_of : PointValue → Option ℕ
  number_of (as_double f) = finite_or_none f
  number_of (as_int n) = some (float_of n)
  number_of no_value = none

  unfoldable pub number_point : MetricKind → Origin → NumberPoint → Option ModelMetric
  number_point kind s p = if p.at == 0 then none else elim (number_of p.value) [
    | none ↦ none
    | some b ↦ some (record (blank_metric s p.at kind p.attributes) { value = finite b })
  ]

  abbrev pub convert_data : Origin → MetricData → Rows
  convert_data s (gauge_data ps) = convert_points (number_point kind_gauge s) ps
  convert_data s (sum_data monotonic ps) =
      convert_points (number_point (if monotonic then kind_sum else kind_gauge) s) ps
  convert_data s (histogram_data ps) = convert_points (histogram_point s) ps
  convert_data s other_data = ([], 1)

  unfoldable pub convert_metric : Bytes → Bytes → ℤ → OtlpMetric → Rows
  convert_metric service host pid m =
      let s : Origin = record {
        source_name = m.name;
        source_unit = m.unit;
        source_service = service;
        source_host = host;
        source_pid = pid;
      } in
      let converted = convert_data s m.payload in if is_empty m.name then ([], 1) else converted

  unfoldable pub convert_list : Bytes → Bytes → ℤ → List OtlpMetric → Rows
  convert_list service host pid [] = ([], 0)
  convert_list service host pid (m ∷ ms) =
      both_rows (convert_metric service host pid m) (convert_list service host pid ms)

  unfoldable pub convert_scope_metrics : Bytes → Bytes → ℤ → List (List OtlpMetric) → Rows
  convert_scope_metrics service host pid [] = ([], 0)
  convert_scope_metrics service host pid (ms ∷ scopes) =
      both_rows (convert_list service host pid ms) (convert_scope_metrics service host pid scopes)

  abbrev pub convert_resource : Dict Bytes Bytes → List (List OtlpMetric) → Rows
  convert_resource resource scopes =
      convert_scope_metrics
        (first_non_empty (attribute (codes "service.name") resource ∷ unknown_service ∷ []))
        (attribute (codes "host.name") resource)
        (atoi_value (attribute (codes "process.pid") resource)) scopes

  unfoldable pub convert_metrics : List ResourceMetrics → Rows
  convert_metrics [] = ([], 0)
  convert_metrics (rm ∷ rms) =
      both_rows (convert_resource (attributes_to_map rm.attributes) rm.scope_metrics)
        (convert_metrics rms)
