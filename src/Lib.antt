-- ===== src/Lib.antt =====
-- Verification library for the CollectorMonitor operator: the code that watches a fleet of
-- OpenTelemetry collectors on Kubernetes, and connects it to a server by OpAMP.
--
-- The parts of the program and how they interact. The reconciler
-- (operator/controllers/collectormonitor_controller.go) finds the workload and the config map of a
-- custom resource (operator/api/v1alpha1/collectormonitor_types.go), keeps one OpAMP client for
-- each resource, reports the health of its pods and looks for drift. The client
-- (pkg/opamp/client.go) wraps opamp-go: it describes the agent, sends messages, and runs the
-- handlers that the reconciler has registered when a message arrives. The validator
-- (internal/validator/otel.go) checks a collector configuration on its own, and pkg/git proposes one
-- to a repository. The types that the server shares are in pkg/api/types.go.
--
-- Where each part is modelled:
--   Validator    internal/validator/otel.go: `Validate` is `validate`, `validatePipeline` is
--                `validate_pipeline`. A result is a record that each check hands on. Values of
--                YAML are in Validator/Values, the registry in Validator/Registry.
--   Api          pkg/api/types.go.
--   Opamp        pkg/opamp/client.go: a method takes the client object and the state of opamp-go
--                and returns both beside its error. `Start` is `start_client`, `SetHealth` is
--                `report_health`, `onMessage` is `on_message`. Messages and the interface of
--                opamp-go are in Opamp/Protocol, the methods that call it in Opamp/Session.
--   Monitor      operator/api/v1alpha1/collectormonitor_types.go: the types as values, and in
--                Monitor/Memory as objects that share arrays, with the copies (`DeepCopyInto` is
--                `copy_into` and `list_copy_into`). Monitor/Scheme has `AddToScheme`.
--   Controller   operator/controllers/collectormonitor_controller.go: Controller/Cluster is the
--                interface of Kubernetes, Controller/Action the state of the reconciler and the
--                monad of its actions (an action returns a value, an error or a panic, and what it
--                has written stays). `Reconcile` is `reconcile`, and each helper has its name in
--                Controller/Discovery, Status, Connection, Fleet, Emergency, Handlers, Reconcile.
--                Controller/Running puts reconciliations, messages, connects and watch events into
--                one step relation, with arbitrary changes of the cluster and of opamp-go between them;
--                Controller/Table is the abstract table of connections that it refines.
--                Controller/InPlace is `setCondition` on shared arrays, Controller/Status on values.
--                Answering is a message of the server from its text to the answer that is sent.
--                Keeping, Turning and Ending have the rules for what an action keeps, turns into
--                something else, and ends with.
--   Git          pkg/git/client.go and pkg/git/stubs.go: `NewClient` is `new_git_client`, `Apply` is
--                `apply_emergency`, `ProposeChange` is `propose_change`, over the provider interface.
--   Operator     cmd/operator/main.go: `main` is a chain of parts that go on or exit, with what it logs
--                and what it registers; `SetupWithManager` is `set_up_with_manager`. Operator/Rules
--                has a rule for each answer of each of its calls.
--   Common       texts as lists of code points, Go's errors and maps, and their lemmas.
--
-- How the code is rendered. A `*opamp.Client` is a place in a store, since the handlers capture the
-- pointer that the maps hold. Maps are association lists in the order in which a range visits them.
-- The mutex makes opening and closing a connection one action each; the interleavings of what
-- happens between and around these actions are those of the parts of Controller/Interleaved.
-- Numbers are natural numbers, also where a type of the source has 32 bits, since nothing is
-- computed with those; times are seconds. All functions are total by structural recursion; the only
-- fuel is in the rendering of a number, one round for each unit of it and one more (Common/Show,
-- and Common/Shown for why that is enough).
--
-- Parameters, of which nothing is assumed but what a theorem names: the Kubernetes API, the event
-- recorder, the clock and SHA-256 (Controller/Cluster), opamp-go, MD5 and the order of a range
-- over labels (Opamp/Protocol), git providers (Git), YAML decoding (an argument of `validate`), the
-- verbs %+v and %q (arguments of the reconciler), the scheme of the API machinery (Monitor/Scheme),
-- the copies of metadata (Monitor/Memory), controller-runtime's manager (Operator), and what lies
-- behind the end of an array that grows (Controller/InPlace). The named hypotheses are that the API
-- server lists no workload without a selector (Controller/Selected), that metadata is copied as it
-- is, and the laws of the scheme.
--
-- Not modelled: the parsing of the command line, whose result is an argument of `main`; logging by
-- the reconciler; contexts; the constructors `NewValidator`, `NewEmergencySync` and `NewConfigSync`, whose
-- objects are the arguments of the functions that use them. The contents of maps and pointers of a
-- specification are values, since no code writes to them in place. Case folding covers ASCII and
-- the two letters outside of it that fold to ASCII.
pub mod Common
pub mod Validator
pub mod Api
pub mod Opamp
pub mod Monitor
pub mod Controller
pub mod Git
pub mod Operator
