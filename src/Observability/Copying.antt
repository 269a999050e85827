-- ===== src/Observability/Copying.antt =====
-- What `HTTPClient` makes of a client.
use gouterstellar_platform.Base.{==_iff, ℕ, ◌<◌, ◌≡◌, ◌∙◌, ◌≢◌, Option, some, arith}
use gouterstellar_platform.Observability.Construction.{Tracing}
use gouterstellar_platform.Observability.Packages.{
  Globals, install_global, Clients, Instruments, own_options, instrument_http_client, http_client,
  or_default,
}
use gouterstellar_platform.Observability.Wiring.{Observed, IsInstruments, applied-own_options}

module _ {P T H V D B K : Type 0} (packages : Instruments P T H V D B) (seen : Observed P T H V D B)
    (lawful : IsInstruments packages seen) where
  -- `HTTPClient` returns a new pointer and changes no client that was there. The new client is a copy
  -- of the base, or of the default client where the base is nil, except for a transport that wraps the
  -- base's own, or the default one where it has none, and that traces with this tracing's provider and
  -- propagators, whatever the process-wide settings are.
  pub http_client_lem :
      (t : Tracing P) (g : Globals P) (heap : Clients T K) (base : Option ℕ) (q : ℕ)
      → q < heap.next
      → let (p, heap') = http_client packages t heap base in
        let source = heap.client (or_default base packages.default_client) in
        let wrapped =
          packages.new_transport
            (or_default source.transport packages.default_transport)
            (own_options t) in
        (q ≢ p)
        × (heap'.client q ≡ heap.client q)
        × (heap'.client p ≡ record { transport = some wrapped; rest = source.rest })
        × (seen.of_transport g wrapped ≡ install_global t g)
  unfolding http_client instrument_http_client
  http_client_lem t g heap base q below = (
    λ e. omega (arith, below, e),
    ground (arith, below, ==_iff q heap.next),
    ground (arith, ==_iff heap.next heap.next),
    lawful.transport-applied g _ (own_options t) ∙ applied-own_options t g,
  )
