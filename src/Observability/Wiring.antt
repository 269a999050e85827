-- ===== src/Observability/Wiring.antt =====
-- With which provider the instruments trace.
use gouterstellar_platform.Base.{◌≡◌, refl, ◌∙◌, List, [], ◌∷◌}
use gouterstellar_platform.Text.{Bytes}
use gouterstellar_platform.Observability.Construction.{Tracing}
use gouterstellar_platform.Observability.Packages.{
  Globals, install_global, InstrumentOption, with_tracer_provider, with_propagators, DatabaseOption,
  database_provider, Instruments, own_options, http, grpc_server_option, grpc_client_option,
  postgresql_tracer,
}

-- What a list of options makes of the process-wide settings.
unfoldable pub applied : {P : Type 0} → List (InstrumentOption P) → Globals P → Globals P
applied [] g = g
applied (with_tracer_provider p ∷ options) g = applied options (record g { tracer_provider = p })
applied (with_propagators ps ∷ options) g = applied options (record g { propagators = ps })

-- The settings with which the instruments trace, given the process-wide ones.
pub record Observed (P T H V D B : Type 0) : Type 0 where
  pub of_handler : Globals P → H → Globals P
  pub of_transport : Globals P → T → Globals P
  pub of_server : Globals P → V → Globals P
  pub of_client : Globals P → D → Globals P
  pub of_database : Globals P → B → P

-- What the packages document: an option replaces the process-wide setting.
pub record IsInstruments {P T H V D B : Type 0} (packages : Instruments P T H V D B)
    (seen : Observed P T H V D B) : Type 0 where
  pub handler-applied :
      (g : Globals P) (next : H) (operation : Bytes) (options : List (InstrumentOption P))
      → seen.of_handler g (packages.new_handler next operation options) ≡ applied options g
  pub transport-applied :
      (g : Globals P) (base : T) (options : List (InstrumentOption P))
      → seen.of_transport g (packages.new_transport base options) ≡ applied options g
  pub server-applied :
      (g : Globals P) (options : List (InstrumentOption P))
      → seen.of_server g (packages.server_handler options) ≡ applied options g
  pub client-applied :
      (g : Globals P) (options : List (InstrumentOption P))
      → seen.of_client g (packages.client_handler options) ≡ applied options g
  pub database-provided :
      (g : Globals P) (p : P) (options : List (DatabaseOption P))
      → seen.of_database g (packages.database_tracer (database_provider p ∷ options)) ≡ p

pub applied-own_options :
    {P : Type 0} (t : Tracing P) (g : Globals P) → applied (own_options t) g ≡ install_global t g
unfolding applied install_global
applied-own_options t g = refl

module _ {P T H V D B : Type 0} (packages : Instruments P T H V D B) (seen : Observed P T H V D B)
    (lawful : IsInstruments packages seen) where
  -- The instruments do not need `InstallGlobal`: whatever the process-wide settings are, a handler,
  -- a gRPC server and a gRPC client trace with the provider and the propagators that this call would
  -- install, and the database tracer with that provider.
  pub instruments_own :
      (t : Tracing P) (g : Globals P) (operation : Bytes) (next : H)
      → (seen.of_handler g (http packages t operation next) ≡ install_global t g)
        × (seen.of_server g (grpc_server_option packages t) ≡ install_global t g)
        × (seen.of_client g (grpc_client_option packages t) ≡ install_global t g)
        × (seen.of_database g (postgresql_tracer packages t) ≡ t.provider)
  unfolding http grpc_server_option grpc_client_option postgresql_tracer
  instruments_own t g operation next = (
    lawful.handler-applied g next operation _ ∙ applied-own_options t g,
    lawful.server-applied g _ ∙ applied-own_options t g,
    lawful.client-applied g _ ∙ applied-own_options t g,
    lawful.database-provided g t.provider _,
  )
