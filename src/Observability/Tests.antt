-- ===== src/Observability/Tests.antt =====
-- Telemetry whose state is the list of the exporters at work, and instruments that keep their settings.
use gouterstellar_platform.Base.{
  ltb, ◌==◌, if◌then◌else◌, Result, ok, err, length, ℕ, ◌≡◌, refl, ap, ◌≢◌, ◌↔◌, true, none, some,
  List, [], ◌∷◌, arith,
}
use gouterstellar_platform.Text.{codes}
use gouterstellar_platform.Observability.{
  Attribute, Telemetry, IsTelemetry, TracingConfig, Tracing, create_resource, attributes,
  exporter_options, added, validate_config, with_exporter, abandoned, new_tracing, shutdown,
  Globals, install_global, InstrumentOption, with_propagators, DatabaseOption, database_provider,
  Client, Clients, Instruments, or_default, own_options, http, http_client, grpc_server_option,
  grpc_client_option, postgresql_tracer,
}
use gouterstellar_platform.Observability.Ownership.{owned, new_tracing-owned, shutdown-new_tracing}
use gouterstellar_platform.Observability.Success.{IsConstructed, new_tracing_iff}
use gouterstellar_platform.Observability.Wiring.{applied, Observed, IsInstruments, instruments_own}
use gouterstellar_platform.Observability.Copying.{http_client_lem}

tail : List ℕ → List ℕ
tail [] = []
tail (x ∷ xs) = xs

-- Exporters are numbered, and a provider is its exporter. More than two attributes are refused, and
-- the shutdown of a provider reports an error.
abbrev local : Telemetry (List ℕ) ℕ ℕ (List Attribute) ℕ ℕ
local = record {
  zero_ratio = 0;
  one_ratio = 100;
  less = ltb;
  new_exporter = λ s options. (ok (length s), length s ∷ s);
  shutdown_exporter = λ s x. (ok tt, tail s);
  merged_resource = λ s list. if ltb 2 (length list) then err 7 else ok list;
  new_provider = λ s x q f. (x, s);
  shutdown_provider = λ s p. (err 3, tail s);
}

tail_cons : (s xs : List ℕ) (x : ℕ) → s ≡ x ∷ xs → tail s ≡ xs
unfolding tail
tail_cons s xs x h = ap tail h

made_exporter :
    (s s' : List ℕ) (x : ℕ)
    → Path (Result ℕ ℕ × List ℕ) (ok (length s), length s ∷ s) (ok x, s')
    → s' ≡ x ∷ s
made_exporter s s' x h = cc h

local-IsTelemetry : IsTelemetry local (λ s. s) (λ p. p)
local-IsTelemetry = record {
  new-runs = λ s s' options x h. made_exporter s s' x h;
  new-fails = λ s s' options e h. cc h;
  shutdown-stops = λ s x xs h. tail_cons s xs x h;
  provider-runs = λ s x q f. refl;
  provider-owns = λ s x q f. refl;
  provider-stops = λ s p xs h. tail_cons s xs p h;
}

abbrev config : TracingConfig ℕ
config = record {
  service_name = codes "shop";
  service_version = codes "1.2";
  environment = [];
  endpoint_url = codes "http://localhost:4318";
  headers = [];
  insecure = true;
  sample_ratio = 10;
}

-- A third attribute, which is refused.
abbrev crowded : TracingConfig ℕ
crowded = record config { environment = codes "prod" }

crowded_refused : new_tracing local crowded (5 ∷ []) ≡ (err (create_resource 7), 5 ∷ [])
unfolding new_tracing validate_config with_exporter abandoned attributes exporter_options added tail
crowded_refused = refl

new_tracing-owned_example :
    let (result, s) = new_tracing local crowded (5 ∷ []) in
    s ≡ owned local (λ s. s) (λ p. p) local-IsTelemetry crowded result (5 ∷ [])
new_tracing-owned_example =
    new_tracing-owned local (λ s. s) (λ p. p) local-IsTelemetry crowded (5 ∷ [])

abbrev tracing : Tracing ℕ
tracing = record { provider = 1 }

constructed : new_tracing local config (5 ∷ []) ≡ (ok tracing, 1 ∷ 5 ∷ [])
unfolding new_tracing validate_config with_exporter abandoned attributes exporter_options added
constructed = refl

shutdown-new_tracing_example : (shutdown local (1 ∷ 5 ∷ []) tracing).1 ≡ 5 ∷ []
shutdown-new_tracing_example =
    shutdown-new_tracing local (λ s. s) (λ p. p) local-IsTelemetry config (5 ∷ []) (1 ∷ 5 ∷ [])
      tracing constructed

new_tracing_iff_example :
    (new_tracing local config (5 ∷ []) ≡ (ok tracing, 1 ∷ 5 ∷ []))
    ↔ IsConstructed local config (5 ∷ []) (1 ∷ 5 ∷ []) tracing
new_tracing_iff_example = new_tracing_iff local config (5 ∷ []) (1 ∷ 5 ∷ []) tracing

abbrev defaults : Globals ℕ
defaults = record { tracer_provider = 0; propagators = [] }

-- Handlers, transports and gRPC options are their settings over `defaults`' provider and no
-- propagators.
abbrev Options : Type 0
Options = List (InstrumentOption ℕ)

provider_of : List (DatabaseOption ℕ) → ℕ
provider_of [] = 0
provider_of (database_provider p ∷ options) = p
provider_of (o ∷ options) = 0

abbrev packages : Instruments ℕ Options Options Options Options (List (DatabaseOption ℕ))
packages = record {
  new_handler = λ next operation options. options;
  new_transport = λ base options. options;
  server_handler = λ options. options;
  client_handler = λ options. options;
  database_tracer = λ options. options;
  default_transport = [];
  default_client = 0;
}

abbrev seen : Observed ℕ Options Options Options Options (List (DatabaseOption ℕ))
seen = record {
  of_handler = λ g os. applied os g;
  of_transport = λ g os. applied os g;
  of_server = λ g os. applied os g;
  of_client = λ g os. applied os g;
  of_database = λ g os. provider_of os;
}

packages-IsInstruments : IsInstruments packages seen
unfolding provider_of
packages-IsInstruments = record {
  handler-applied = λ g next operation options. refl;
  transport-applied = λ g base options. refl;
  server-applied = λ g options. refl;
  client-applied = λ g options. refl;
  database-provided = λ g p options. refl;
}

instruments_own_example :
    (seen.of_handler defaults (http packages tracing (codes "GET /") [])
      ≡ install_global tracing defaults)
    × (seen.of_server defaults (grpc_server_option packages tracing)
        ≡ install_global tracing defaults)
    × (seen.of_client defaults (grpc_client_option packages tracing)
        ≡ install_global tracing defaults)
    × (seen.of_database defaults (postgresql_tracer packages tracing) ≡ 1)
instruments_own_example =
    instruments_own packages seen packages-IsInstruments tracing defaults (codes "GET /") []

-- The default client at 0, and one with its own transport at 1.
clients_at : ℕ → Client Options ℕ
clients_at p = record {
  transport = if p == 1 then some (with_propagators [] ∷ []) else none;
  rest = p;
}

abbrev clients : Clients Options ℕ
clients = record { next = 2; client = clients_at }

http_client_lem_example :
    let (p, heap) = http_client packages tracing clients (some 1) in
    let source = clients.client (or_default (some 1) packages.default_client) in
    let wrapped =
      packages.new_transport
        (or_default source.transport packages.default_transport)
        (own_options tracing) in
    (1 ≢ p)
    × (heap.client 1 ≡ clients.client 1)
    × (heap.client p ≡ record { transport = some wrapped; rest = source.rest })
    × (seen.of_transport defaults wrapped ≡ install_global tracing defaults)
http_client_lem_example =
    http_client_lem packages seen packages-IsInstruments tracing defaults clients (some 1) 1
      (omega arith)
