-- ===== src/Observability/Success.antt =====
-- When `NewTracing` succeeds.
use gouterstellar_platform.Base.{
  Result, ok, err, fail_if, Result-cases, seq_ok, fail_if_ok, ◌≡◌, refl, ap, ap₂, ◌≢◌, ◌↔◌, inl,
  inr, false, [], arith,
}
use gouterstellar_platform.Text.{is_empty}
use gouterstellar_platform.Text.Fields.{is_empty_iff}
use gouterstellar_platform.Observability.Calls.{Telemetry}
use gouterstellar_platform.Observability.Construction.{
  TracingConfig, Tracing, TracingError, name_required, exporter_options, attributes,
  validate_config, abandoned, with_exporter, new_tracing,
}

module _ {S E X Q P F : Type 0} (calls : Telemetry S E X Q P F) (config : TracingConfig F) where
  -- A service name, a ratio that is neither less than zero nor greater than one, and a provider from
  -- an exporter and a resource that were made.
  pub record IsConstructed (s s' : S) (t : Tracing P) : Type 0 where
    pub named : config.service_name ≢ []
    pub not_below : calls.less config.sample_ratio calls.zero_ratio ≡ false
    pub not_above : calls.less calls.one_ratio config.sample_ratio ≡ false
    pub exporter : X
    pub middle : S
    pub exported : calls.new_exporter s (exporter_options config) ≡ (ok exporter, middle)
    pub resource : Q
    pub merged : calls.merged_resource middle (attributes config) ≡ ok resource
    pub provided :
        calls.new_provider middle exporter resource config.sample_ratio ≡ (t.provider, s')

  validate_config_iff :
      (validate_config calls config ≡ ok tt)
      ↔ (config.service_name ≢ [])
        × (calls.less config.sample_ratio calls.zero_ratio ≡ false)
        × (calls.less calls.one_ratio config.sample_ratio ≡ false)
  unfolding validate_config
  validate_config_iff = (
    λ h.
        let (named, inside) = seq_ok (fail_if (is_empty config.service_name) name_required) _ h in
        let named' = fail_if_ok _ _ named in
        let inside' = fail_if_ok _ _ inside in
        (
          ground (arith, named', is_empty_iff config.service_name),
          ground (arith, inside'),
          ground (arith, inside'),
        ),
    λ h. ground (arith, h, is_empty_iff config.service_name),
  )

  abandoned_fails :
      (e : E) (q : Result E (Unit {0}) × S) (t : Tracing P) (s' : S)
      → abandoned calls config e q ≢ (ok t, s')
  unfolding abandoned
  abandoned_fails e (ok a, s) t s' h = cc h
  abandoned_fails e (err x, s) t s' h = cc h

  provided_by :
      (p : P) (t : Tracing P) (m s' : S)
      → Path (Result (TracingError E) (Tracing P) × S) (ok (record { provider = p }), m) (ok t, s')
      → Path (P × S) (p, m) (t.provider, s')
  provided_by p t m s' h = ap₂ (λ a b. (a, b)) (cc h) (ap (λ q. q.1) h)

  constructed :
      (s s' : S) (t : Tracing P) → IsConstructed s s' t → new_tracing calls config s ≡ (ok t, s')
  unfolding new_tracing with_exporter
  constructed s s' t c =
      rw
        (
          validate_config_iff.1 (c.named, c.not_below, c.not_above),
          c.exported,
          c.merged,
          c.provided,
          new_tracing,
          with_exporter,
        )
        refl

  with_exporter_sound :
      (s s' : S) (t : Tracing P) (q : Result E X × S)
      → validate_config calls config ≡ ok tt
      → calls.new_exporter s (exporter_options config) ≡ q
      → with_exporter calls config q ≡ (ok t, s')
      → IsConstructed s s' t
  unfolding with_exporter
  with_exporter_sound s s' t (err e, m) v x = λ h. cc h
  with_exporter_sound s s' t (ok exporter, m) v x =
      elim (Result-cases (calls.merged_resource m (attributes config))) [
        | inr (e, r) ↦
            rw (r, with_exporter)
              (λ h. absurd (abandoned_fails e (calls.shutdown_exporter m exporter) t s' h))
        | inl (resource, r) ↦
            let (named, not_below, not_above) = validate_config_iff.0 v in
            let made = calls.new_provider m exporter resource config.sample_ratio in
            rw (r, with_exporter)
              (λ h. record {
                named = named;
                not_below = not_below;
                not_above = not_above;
                exporter = exporter;
                middle = m;
                exported = x;
                resource = resource;
                merged = r;
                provided = provided_by made.0 t made.1 s' h;
              })
      ]

  -- `NewTracing` succeeds exactly if the service has a name, the sample ratio is neither less than zero
  -- nor greater than one, an exporter with the configured options was made and a resource with the
  -- configured attributes, and the tracing holds the provider that is made of the two and the ratio.
  pub new_tracing_iff :
      (s s' : S) (t : Tracing P) → (new_tracing calls config s ≡ (ok t, s')) ↔ IsConstructed s s' t
  unfolding new_tracing
  new_tracing_iff s s' t = (
    elim (Result-cases (validate_config calls config)) [
      | inr (e, v) ↦ rw (v, new_tracing) (λ h. cc h)
      | inl (a, v) ↦ rw (v, new_tracing) (λ h. with_exporter_sound s s' t _ v refl h)
    ],
    λ c. constructed s s' t c,
  )
