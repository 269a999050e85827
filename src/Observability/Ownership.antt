-- ===== src/Observability/Ownership.antt =====
-- Who owns the exporters that `NewTracing` starts.
use gouterstellar_platform.Base.{
  Result, ok, err, Result-cases, ◌≡◌, refl, sym, ap, subst, ◌∙◌, inl, inr, List, ◌∷◌,
}
use gouterstellar_platform.Observability.Calls.{Telemetry, IsTelemetry}
use gouterstellar_platform.Observability.Construction.{
  TracingConfig, Tracing, TracingError, exporter_options, attributes, validate_config, abandoned,
  with_exporter, new_tracing, shutdown,
}

module _ {S E X Q P F : Type 0} (calls : Telemetry S E X Q P F) (running : S → List X)
    (exporter_of : P → X) (lawful : IsTelemetry calls running exporter_of)
    (config : TracingConfig F) where
  -- The exporters at work after a construction: one more, which the provider owns, or as before.
  abbrev pub owned : Result (TracingError E) (Tracing P) → List X → List X
  owned (ok t) xs = exporter_of t.provider ∷ xs
  owned (err e) xs = xs

  abandoned-owned :
      (e : E) (q : Result E (Unit {0}) × S) (xs : List X)
      → running q.1 ≡ xs
      → running (abandoned calls config e q).1 ≡ owned (abandoned calls config e q).0 xs
  unfolding abandoned
  abandoned-owned e (ok a, s) xs h = h
  abandoned-owned e (err x, s) xs h = h

  with_exporter-owned :
      (s : S) (q : Result E X × S)
      → calls.new_exporter s (exporter_options config) ≡ q
      → running (with_exporter calls config q).1
        ≡ owned (with_exporter calls config q).0 (running s)
  unfolding with_exporter
  with_exporter-owned s (err e, s') h = lawful.new-fails s s' _ e h
  with_exporter-owned s (ok x, s') h =
      let runs = lawful.new-runs s s' _ x h in
      elim (Result-cases (calls.merged_resource s' (attributes config))) [
        | inr (e, r) ↦
            rw (r, with_exporter)
              (abandoned-owned e (calls.shutdown_exporter s' x) (running s)
                (lawful.shutdown-stops s' x (running s) runs))
        | inl (q, r) ↦
            rw (r, with_exporter)
              (lawful.provider-runs s' x q config.sample_ratio
                ∙ runs
                ∙ ap (λ y. y ∷ running s) (sym (lawful.provider-owns s' x q config.sample_ratio)))
      ]

  -- `NewTracing` leaves no exporter behind: after an error, whichever call fails, the exporters at work
  -- are those from before, and after a success there is one more, which the new tracing owns.
  pub new_tracing-owned :
      (s : S)
      → let (result, s') = new_tracing calls config s in running s' ≡ owned result (running s)
  unfolding new_tracing
  new_tracing-owned s = elim (Result-cases (validate_config calls config)) [
    | inr (e, v) ↦ rw (v, new_tracing) refl
    | inl (a, v) ↦ rw (v, new_tracing) (with_exporter-owned s _ refl)
  ]

  -- Shutting a new tracing down, whether that reports an error or not, brings the exporters at work
  -- back to those from before its construction.
  pub shutdown-new_tracing :
      (s s' : S) (t : Tracing P)
      → new_tracing calls config s ≡ (ok t, s')
      → running (shutdown calls s' t).1 ≡ running s
  unfolding shutdown
  shutdown-new_tracing s s' t h =
      let runs = new_tracing-owned s in
      lawful.provider-stops s' t.provider (running s)
        (subst (λ q. running q.1 ≡ owned q.0 (running s)) h runs)
