-- ===== src/Lib.antt =====
-- try-it-now keeps a pool of warm PrestaShop instances and hands them out for a while. A request
-- goes through internal/api to the pool manager of internal/pool, which keeps instances, the ready
-- queue, ports, rate limits and expiries in a Valkey server through internal/store, starts and stops
-- containers, and sets routes in a proxy. Tasks from NATS (internal/queue) provision and clean up.
--
-- Domain models internal/domain: Instance, InstanceState and the errors of errors.go; Domain.Stats the
--   statistics of pool.go; Domain.Threshold has NeedsReplenishment, over a parameter for floating-point
--   numbers; Domain.Lifetime relates IsExpired and TTLRemaining.
-- Valkey has the keys of internal/store/valkey.go and the commands as a record that every operation
--   takes; IsDocumented says what the server's documentation promises, and leaves open which member
--   SPOP takes and the order of SMEMBERS. Valkey.Documented rewrites such a server to one that
--   computes.
-- World has the services handed to the code, the state that it acts on (the server's data, the clock,
--   the calls made so far, the pending trigger), and a monad for Go's `(T, error)`. A command may be
--   delivered, refused, or lost after its effect; the services say which, for each place in the run,
--   how much time passes there, and what the runtime, the proxy and the database answer. Theorems
--   quantify over all of it, on a documented server. IsReliable (World.Reliable) is a documented server
--   and no fault.
-- Store.Instances models SaveInstance, GetInstance, DeleteInstance, UpdateInstanceState, ListByState and
--   ListExpired; Store.Queue models AcquireFromPool, AddToPool and RemoveFromPool; Store.Ttl the expiry
--   operations; Store.Ports the ports; Store.Limits the rate limits; Store.Totals the rest of
--   internal/store/valkey.go. The Lua scripts are functions on the server's data, run as one command.
-- Store.Connection is NewValkeyRepository.
-- Store.Contract has the interface of internal/store/repository.go and what one may expect of it, over a
--   Stock of texts, the identifiers listed under each state, a queue and ports; Store.Repository is the
--   Valkey repository behind it, and Store.Runs any sequence of calls by any callers.
-- Pool models Acquire, Release, Stats and cleanupExpired of internal/pool/impl.go, Provision models
--   provisionInstance, waitForReady and TriggerReplenish. `acquire_routed`, `clean_up`, `or_stop` and the
--   like are the rest of the function after the call whose result they take.
-- Api models the handlers of internal/api/handler.go, Api.Stream demoStatus, and Api.Guard the routes and
--   APIKeyAuth (middleware.go); Api.Trace has RequestID and metricsMiddleware.
-- Tasks models the handlers of internal/queue/handlers.go and the workers of internal/queue/nats.go;
--   Tasks.Consumer has the consumer's Start and Stop, and Tasks.Publisher the publisher, with the stream
--   and the filters of its consumers. JetStream and the encoding of tasks are parameters there.
-- Replenisher models the background loop of internal/pool/impl.go (replenishLoop) over the list of what
--   its select takes: a stop, a trigger, a tick. Replenisher.Switch has StartReplenisher and
--   StopReplenisher, and the steps of the goroutines that they start, as a relation.
-- Container models internal/container: the options, the health check and what both runtimes share.
--   Container.Contract says what a runtime promises of the containers that an engine keeps, how each is
--   set up included, and what an engine's documentation says;
--   Container.Docker is docker.go, Container.Podman podman.go.
--   Container.Address follows one demo's address through the container, Caddy and its URL.
-- Proxy models the routes of internal/proxy/caddy.go and Proxy.Client its requests; the Caddy server is a
--   parameter, and Proxy.Registry says what its documentation promises.
-- Database models internal/database/prestashop.go over a MySQL server that is a parameter;
--   Database.Like has the patterns of LIKE.
-- Server models cmd/server/main.go: what the program opens, serves and closes; Server.Gauges is its
--   updater of the pool's gauges.
-- Checkpoint models cmd/checkpoint/main.go, which makes the checkpoint that Podman restores from: its
--   commands, requests and files are kept as a list of acts, and what they come to is a parameter.
-- Config models internal/config/config.go over an environment that is a parameter.
-- Logging has the level and the format of a logger (pkg/logging/logger.go).
-- Base.Text and Base.Number have what the code uses of Go's strings and strconv.
-- Tests evaluates the theorems at concrete inputs.
--
-- Pool and Provision take the runtime, the proxy and the database as interfaces whose answers are not
-- constrained; Container, Proxy and Database model what stands behind them.
--
-- Numbers are natural numbers; a signed result is a ℤ (Base.Int), and overflow of 64 bits is left
-- out, as no quantity here comes near it. A time is a number of nanoseconds since the Unix epoch.
-- JSON texts are the decoded values, or `malformed`; a port stands for its decimal text. A cancelled
-- context shows as a refused command or as `interrupted`. What the operations log and measure is left out.
--
-- Loops: waitForReady has 120 ticks of a second, which its timer of two minutes leaves room for, and may
-- be cut short by `interrupted`; TriggerReplenish runs on fuel, and more fuel than the queue is short of
-- its target is enough; the background loop takes fuel for one round more than the target. The stream
-- of demoStatus, a worker and the background loop run over the list of what they meet.
--
-- The wait of cmd/checkpoint runs on fuel: five minutes are 150 pauses of two seconds, and 151 units are
-- enough.
--
-- Not modelled: the opening and closing of the connections to MySQL and the container engines; which
-- metrics are registered, which computes nothing; what is logged.
mod Base
pub mod Domain
pub mod Valkey
pub mod World
pub mod Store
pub mod Pool
pub mod Provision
pub mod Api
pub mod Tasks
pub mod Database
pub mod Proxy
pub mod Container
pub mod Config
pub mod Logging
pub mod Replenisher
pub mod Server
pub mod Checkpoint
mod Tests
