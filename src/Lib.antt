-- ===== src/Lib.antt =====
-- Verification library of the Slingshot operator, a Kubernetes operator for HPE Slingshot (CXI)
-- network devices.
--
-- The program. The operator (internal/controller) reconciles CXIDriver resources (api/v1): one of
-- them at a time is active, and for that one it deploys a driver agent, a device plugin, a retry
-- handler and a metrics exporter, as DaemonSets or through a webhook, and reports their state in
-- conditions. Two admission webhooks (pkg/webhook) check CXIDriver resources and inject the retry
-- handler into pods. On each node the driver agent (pkg/driveragent) downloads, builds and loads
-- the kernel modules, publishes the devices as CXIDevice resources and labels the node; the device
-- plugin (pkg/deviceplugin) tells kubelet of the devices and allocates them to containers; the
-- retry handler (pkg/retryhandler) keeps one process for each device running; and the exporter
-- (pkg/metrics) makes gauges and counters of all that.
--
-- The files and the code.
--   Prelude        Boolean tests, lists, Go's maps as association lists (Dict), stateful actions
--                  (Action), Go's signed integers (Int), and what the program takes of the
--                  packages strings (Text), path/filepath (FilePath) and strconv (Decimal,
--                  Decimal/Parse and Decimal/Literal).
--   Api            api/v1: CXIDriver (Api), and CXIDevice (Device).
--   Config         pkg/config/config.go: the defaults (Config), GetEnv and its variants (Env).
--   Flags          Go's package flag, as the programs of cmd use it.
--   Host           A node as the agents use it: commands, files, archives and HTTP.
--   Kube           The objects that are written (Workload), the Kubernetes clients and the helpers
--                  of controller-runtime as interfaces over the cluster's states (Client for the
--                  operator, NodeClient for the driver agent), and what the calls of the
--                  operator's client leave alone (Frame).
--   Controller     internal/controller/cxidriver_controller.go. Singleton: isActiveCXIDriver,
--                  getActiveCXIDriver, setActiveCXIDriver. Conditions and Status: the conditions,
--                  updateStatus and its writes. DaemonSets: the four builders. Apply: the
--                  reconcile functions of the components. Webhook: reconcileSidecarWebhook and
--                  cleanupResources. Reconcile: Reconcile itself, one definition to each part of
--                  its body; its child Wanted specifies what a driver asks for.
--   DevicePlugin   pkg/deviceplugin. Device and Discovery: discovery.go, with the beginning of
--                  WatchDevices in Discovery/Begin and its loop and pollDevices in
--                  Discovery/Watch. The others: plugin.go. Plugin: the configuration and its
--                  defaults. Advertise: buildDeviceList and ListAndWatch. Prefer:
--                  selectPreferredDevices and GetPreferredAllocation. Allocate: Allocate. Server:
--                  Start, Stop and the registration with kubelet.
--   DriverAgent    pkg/driveragent. Agent, Labels, Devices, Install and Watch: agent.go, that is
--                  the state of the agent with its health server, the labels of the node,
--                  updateDevices, ensureDriver with the ways to install the driver, and Start with
--                  the loop of the watcher beside Stop, as a step relation. Modules: module.go.
--                  Download, Archive, Version, Source and Build: download.go.
--   Webhook        pkg/webhook. Admission: requests and responses. Injector: sidecar_injector.go.
--                  Validator: cxidriver_validator.go, with the version pattern in Semver. Setup:
--                  setup.go.
--   RetryHandler   pkg/retryhandler/supervisor.go. Handler: runHandler and runCXIRH of one device
--                  beside Stop, as a step relation. Supervisor: Start, startHandler and IsHealthy.
--                  Status: GetStatus and the pages of the health server.
--   Metrics        pkg/metrics: scrapeRetryHandlerStatus (Metrics), the other scrapes and the
--                  client of the retry handler (Scrape), and the loop of the scraper beside Stop
--                  (Loop).
--   Cmd            cmd: the main programs of the operator (Operator) and of the four agents, and
--                  what they make of the containers that the operator, the webhook and the chart
--                  write.
--   Tests          A cluster and a node in memory that meet the laws of the interfaces (Cluster,
--                  Machine), and the theorems at concrete inputs.
--
-- How the code is read. Stateful code is an action: a function from the state of the world to an
-- answer and a state, chained by do. An error is its text, nil is `none`; the delay of a result is
-- in seconds, an interval in nanoseconds. A Go map is an association list, and where the code
-- ranges over one, the order of the list stands for Go's random order. Log calls, the closing of
-- files and the times of checks are left out. In the retry handler and in the watch loop the
-- scheduler, the process and the clock choose the next step, and a lock is a step that is not
-- interrupted. In the loops of the driver agent and of the exporter one round is a step, and
-- between two steps the world may become any other.
--
-- Parameters. The clients of controller-runtime, the retry and condition helpers and the finalizer
-- helpers are the fields of Kube.Client and Kube.NodeClient; the operating system, gzip, tar, zip
-- and HTTP are those of Host, and gRPC and the sockets of the device plugin those of
-- DevicePlugin/Server (PluginSystem). What is relied on stands in Controller/Singleton/Laws,
-- Controller/Status/Laws, Kube/Frame, DriverAgent/Devices/Settle (NodeLaws),
-- DriverAgent/Devices/Published (PublishLaws), DriverAgent/Install/Ways (ModuleLaws),
-- DriverAgent/Archive/Confined (IsKeptBelow) and Controller/Apply/Deploys (DeployLaws), and
-- Tests/Cluster, Tests/Machine, Tests/Devices and Tests/Deployment meet it. The laws speak of a
-- cluster and a node that no one else changes between two calls. JSON is a parameter of the
-- webhooks (Codec) and of the exporter, and so are `%q`, time.ParseDuration and the flags that
-- libraries declare; that decoding undoes encoding is a hypothesis where it is used.
--
-- Loops are structural on lists and texts; the decimal numeral of n is given n + 1 rounds, and
-- each round divides by ten, so they are enough. The copy of a directory is given 4096 levels:
-- each makes the path longer, and Linux refuses a path of more than 4095 bytes. `waitForServer` is
-- given a number of tries, of which some fifty fit in its five seconds. Counts of the API are
-- int32 and subtract with wrap-around; lengths and indices are far below the bounds of int.
--
-- Not modelled: the manager that the main program of the operator starts, and the controller's
-- registration with it; the HTTP and gRPC servers themselves, but for the answers of the health
-- servers of the agents; and generated code.
pub mod Prelude
pub mod DevicePlugin
pub mod DriverAgent
pub mod Api
pub mod Kube
pub mod Host
pub mod Controller
pub mod Config
pub mod Flags
pub mod Cmd
pub mod Webhook
pub mod RetryHandler
pub mod Metrics
mod Tests
