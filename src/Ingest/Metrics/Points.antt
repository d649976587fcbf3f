-- ===== src/Ingest/Metrics/Points.antt =====
-- About ConvertMetrics (internal/receiver/convert_metrics.go): what is kept of a request.
use apm2go.Base.{
  ℕ, ◌+◌, List, [], ◌∷◌, false, if◌then◌else◌, is_empty, length, All, Option, none, some, ◌≡◌,
}
use apm2go.Ingest.Metrics.{
  Float, finite, infinite, not_a_number, MetricData, gauge_data, sum_data, histogram_data,
  other_data, OtlpMetric, ResourceMetrics, ModelMetric, Origin, Rows,
}

abbrev pub IsFinite : Float → Type 0
IsFinite (finite b) = Unit
IsFinite infinite = ⊥
IsFinite not_a_number = ⊥

-- A row that can be stored: it is named, its service too, and its numbers are finite.
abbrev pub IsRow : ModelMetric → Type 0
IsRow m =
    (is_empty m.name ≡ false) × (is_empty m.service ≡ false) × IsFinite m.value × IsFinite m.sum

-- How many points an instrument has, where one that has none to speak of counts as one.
abbrev pub data_points : MetricData → ℕ
data_points (gauge_data ps) = length ps
data_points (sum_data monotonic ps) = length ps
data_points (histogram_data ps) = length ps
data_points other_data = 1

abbrev pub points_in : OtlpMetric → ℕ
points_in m = if is_empty m.name then 1 else data_points m.payload

abbrev pub points_of_list : List OtlpMetric → ℕ
points_of_list [] = 0
points_of_list (m ∷ ms) = points_in m + points_of_list ms

abbrev pub points_of_scopes : List (List OtlpMetric) → ℕ
points_of_scopes [] = 0
points_of_scopes (ms ∷ scopes) = points_of_list ms + points_of_scopes scopes

abbrev pub points_of_request : List ResourceMetrics → ℕ
points_of_request [] = 0
points_of_request (rm ∷ rms) = points_of_scopes rm.scope_metrics + points_of_request rms

-- Rows of a number of points.
abbrev pub IsConverted : ℕ → Rows → Type 0
IsConverted n r = All IsRow r.0 × (length r.0 + r.1 ≡ n)

-- What may be there can be stored.
abbrev Storable : Option ModelMetric → Type 0
Storable none = Unit
Storable (some m) = IsRow m

abbrev IsNamed : Origin → Type 0
IsNamed s = (is_empty s.source_name ≡ false) × (is_empty s.source_service ≡ false)
