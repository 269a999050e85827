-- ===== src/Observability/Calls.antt =====
-- What tracing.go takes from OpenTelemetry.
use gouterstellar_platform.Base.{Result, ok, err, ◌≡◌, Bool, List, ◌∷◌}
use gouterstellar_platform.Text.{Bytes}

pub data ExporterOption : Type 0 where
  with_endpoint_url : Bytes → ExporterOption
  with_insecure : ExporterOption
  with_headers : List (Bytes × Bytes) → ExporterOption

pub data Attribute : Type 0 where
  service_name service_version : Bytes → Attribute
  string_attribute : Bytes → Bytes → Attribute

-- The calls on a state `S`: `X` are exporters, `Q` resources, `P` tracer providers and `F` is float64.
-- `merged_resource` is the default resource merged with one of these attributes. A provider is made
-- with a batcher for the exporter, a resource and a parent-based sampler of that ratio.
pub record Telemetry (S E X Q P F : Type 0) : Type 0 where
  pub zero_ratio : F
  pub one_ratio : F
  pub less : F → F → Bool
  pub new_exporter : S → List ExporterOption → Result E X × S
  pub shutdown_exporter : S → X → Result E (Unit {0}) × S
  pub merged_resource : S → List Attribute → Result E Q
  pub new_provider : S → X → Q → F → P × S
  pub shutdown_provider : S → P → Result E (Unit {0}) × S

-- What OpenTelemetry documents of exporters at work: one is there from its creation to its shutdown,
-- whether that reports an error or not, and a provider shuts its own exporter down.
pub record IsTelemetry {S E X Q P F : Type 0} (calls : Telemetry S E X Q P F) (running : S → List X)
    (exporter_of : P → X) : Type 0 where
  pub new-runs :
      (s s' : S) (options : List ExporterOption) (x : X)
      → calls.new_exporter s options ≡ (ok x, s')
      → running s' ≡ x ∷ running s
  pub new-fails :
      (s s' : S) (options : List ExporterOption) (e : E)
      → calls.new_exporter s options ≡ (err e, s')
      → running s' ≡ running s
  pub shutdown-stops :
      (s : S) (x : X) (xs : List X)
      → running s ≡ x ∷ xs
      → running (calls.shutdown_exporter s x).1 ≡ xs
  pub provider-runs :
      (s : S) (x : X) (q : Q) (f : F) → running (calls.new_provider s x q f).1 ≡ running s
  pub provider-owns :
      (s : S) (x : X) (q : Q) (f : F) → exporter_of (calls.new_provider s x q f).0 ≡ x
  pub provider-stops :
      (s : S) (p : P) (xs : List X)
      → running s ≡ exporter_of p ∷ xs
      → running (calls.shutdown_provider s p).1 ≡ xs
