-- ===== src/Observability/Packages.antt =====
-- The instruments that a `Tracing` gives out, and clients of package net/http by pointer.
use gouterstellar_platform.Base.{◌==◌, if◌then◌else◌, ℕ, suc, Option, none, some, List, [], ◌∷◌}
use gouterstellar_platform.Text.{Bytes}
use gouterstellar_platform.Observability.Construction.{Tracing}

-- The parts of a composite propagator.
pub data Propagator : Type 0 where
  trace_context baggage : Propagator

abbrev pub text_map_propagator : List Propagator
text_map_propagator = trace_context ∷ baggage ∷ []

-- The process-wide settings of package otel.
pub record Globals (P : Type 0) : Type 0 where
  pub tracer_provider : P
  pub propagators : List Propagator

-- The method `InstallGlobal`, by `SetTracerProvider` and `SetTextMapPropagator`.
unfoldable pub install_global : {P : Type 0} → Tracing P → Globals P → Globals P
install_global t g = record { tracer_provider = t.provider; propagators = text_map_propagator }

-- The options of packages otelhttp and otelgrpc, and of otelpgx.
pub data InstrumentOption (P : Type 0) : Type 0 where
  with_tracer_provider : P → InstrumentOption P
  with_propagators : List Propagator → InstrumentOption P

pub data DatabaseOption (P : Type 0) : Type 0 where
  database_provider : P → DatabaseOption P
  disable_sql_statement trim_sql_in_span_name : DatabaseOption P

pub record Client (T K : Type 0) : Type 0 where
  pub transport : Option T
  -- All other fields.
  pub rest : K

-- A nil is replaced.
unfoldable pub or_default : {A : Type 0} → Option A → A → A
or_default none a = a
or_default (some b) a = b

-- Pointers to clients; those from `next` on are free.
pub record Clients (T K : Type 0) : Type 0 where
  pub next : ℕ
  pub client : ℕ → Client T K

-- The packages that instrument. `T` are transports, `H` handlers, `V` gRPC server options, `D` gRPC
-- dial options and `B` database tracers.
pub record Instruments (P T H V D B : Type 0) : Type 0 where
  pub new_handler : H → Bytes → List (InstrumentOption P) → H
  pub new_transport : T → List (InstrumentOption P) → T
  pub server_handler : List (InstrumentOption P) → V
  pub client_handler : List (InstrumentOption P) → D
  pub database_tracer : List (DatabaseOption P) → B
  pub default_transport : T
  -- The pointer `http.DefaultClient`.
  pub default_client : ℕ

abbrev pub own_options : {P : Type 0} → Tracing P → List (InstrumentOption P)
own_options t = with_tracer_provider t.provider ∷ with_propagators text_map_propagator ∷ []

module _ {P T H V D B : Type 0} (packages : Instruments P T H V D B) where
  unfoldable pub http : Tracing P → Bytes → H → H
  http t operation next = packages.new_handler next operation (own_options t)

  unfoldable pub instrument_http_client :
      {K : Type 0} → Clients T K → Option ℕ → List (InstrumentOption P) → ℕ × Clients T K
  instrument_http_client heap base options =
      let source = heap.client (or_default base packages.default_client) in
      let transport = or_default source.transport packages.default_transport in
      let made = record source { transport = some (packages.new_transport transport options) } in
      (
        heap.next,
        record {
          next = suc heap.next;
          client = λ p. if p == heap.next then made else heap.client p;
        },
      )

  unfoldable pub http_client : {K : Type 0} → Tracing P → Clients T K → Option ℕ → ℕ × Clients T K
  http_client t heap base = instrument_http_client heap base (own_options t)

  unfoldable pub grpc_server_option : Tracing P → V
  grpc_server_option t = packages.server_handler (own_options t)

  unfoldable pub grpc_client_option : Tracing P → D
  grpc_client_option t = packages.client_handler (own_options t)

  unfoldable pub postgresql_tracer : Tracing P → B
  postgresql_tracer t =
      packages.database_tracer
        (database_provider t.provider ∷ disable_sql_statement ∷ trim_sql_in_span_name ∷ [])
