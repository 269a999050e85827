-- ===== src/Observability/Construction.antt =====
-- The construction of a `Tracing` and its end.
use gouterstellar_platform.Base.{
  ltb, Result, ok, err, ◌>>◌, fail_if, forward, length, Bool, true, false, not, ◌||◌, List, [], ◌∷◌,
  ◌++◌,
}
use gouterstellar_platform.Text.{Bytes, codes, is_empty}
use gouterstellar_platform.Observability.Calls.{
  ExporterOption, with_endpoint_url, with_insecure, with_headers, Attribute, service_name,
  service_version, string_attribute, Telemetry,
}

pub record TracingConfig (F : Type 0) : Type 0 where
  pub service_name : Bytes
  pub service_version : Bytes
  pub environment : Bytes
  pub endpoint_url : Bytes
  pub headers : List (Bytes × Bytes)
  pub insecure : Bool
  pub sample_ratio : F

pub record Tracing (P : Type 0) : Type 0 where
  pub provider : P

-- `resource_and_shutdown` joins two errors.
pub data TracingError (E : Type 0) : Type 0 where
  name_required ratio_out_of_range : TracingError E
  create_exporter create_resource shutdown_failed : E → TracingError E
  resource_and_shutdown : E → E → TracingError E

-- `append` under a condition.
unfoldable pub added : {A : Type 0} → Bool → A → List A
added true a = a ∷ []
added false a = []

unfoldable pub exporter_options : {F : Type 0} → TracingConfig F → List ExporterOption
exporter_options config =
    added (not (is_empty config.endpoint_url)) (with_endpoint_url config.endpoint_url)
    ++ added config.insecure with_insecure
    ++ added (ltb 0 (length config.headers)) (with_headers config.headers)

unfoldable pub attributes : {F : Type 0} → TracingConfig F → List Attribute
attributes config =
    service_name config.service_name
      ∷ added (not (is_empty config.service_version)) (service_version config.service_version)
    ++ added (not (is_empty config.environment))
        (string_attribute (codes "deployment.environment.name") config.environment)

unfoldable pub validate_config :
    {S E X Q P F : Type 0}
    → Telemetry S E X Q P F
    → TracingConfig F
    → Result (TracingError E) (Unit {0})
validate_config calls config = do
  fail_if (is_empty config.service_name) name_required
  fail_if
      (calls.less config.sample_ratio calls.zero_ratio
        || calls.less calls.one_ratio config.sample_ratio)
      ratio_out_of_range

module _ {S E X Q P F : Type 0} (calls : Telemetry S E X Q P F) (config : TracingConfig F) where
  -- The end of an exporter whose resource could not be made.
  unfoldable pub abandoned : E → Result E (Unit {0}) × S → Result (TracingError E) (Tracing P) × S
  abandoned e (err e', s) = (err (resource_and_shutdown e e'), s)
  abandoned e (ok _, s) = (err (create_resource e), s)

  unfoldable pub with_exporter : Result E X × S → Result (TracingError E) (Tracing P) × S
  with_exporter (err e, s) = (err (create_exporter e), s)
  with_exporter (ok x, s) = elim (calls.merged_resource s (attributes config)) [
    | err e ↦ abandoned e (calls.shutdown_exporter s x)
    | ok q ↦
        let (provider, s') = calls.new_provider s x q config.sample_ratio in
        (ok (record { provider = provider }), s')
  ]

  unfoldable pub new_tracing : S → Result (TracingError E) (Tracing P) × S
  new_tracing s = elim (validate_config calls config) [
    | err e ↦ (err e, s)
    | ok _ ↦ with_exporter (calls.new_exporter s (exporter_options config))
  ]

-- The method `Shutdown`.
unfoldable pub shutdown :
    {S E X Q P F : Type 0}
    → Telemetry S E X Q P F
    → S
    → Tracing P
    → Result (TracingError E) (Unit {0}) × S
shutdown calls s t = forward shutdown_failed (calls.shutdown_provider s t.provider)
