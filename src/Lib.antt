-- ===== src/Lib.antt =====
-- A Kubernetes operator that watches a cluster and reports to mail and to an external alert system.
-- Each kind of scan is a custom resource with a webhook (api/v1alpha1), a controller
-- (internal/controller) and a utility package (internal/<kind>/...). A controller's `Reconcile` is
-- called for a resource, probes what its spec names, keeps what it found in the status, sends mails
-- and alerts for what changed, writes the status back and asks to be called again after a delay.
--
-- Prelude holds the library names and tests, integers with their 64-bit wrap-around, and Go's
-- functions on texts. Runtime is the world that a controller acts on (files, log of effects, clock)
-- with the answers from outside as the parameter `Outside`, and the monad `M` of runs, which keep the
-- world, the status and the map of notification data, and may panic. Runtime.Laws has the logic of
-- total runs, `Ensures`, and `IsDocumented`, what is assumed of the packages that are not in the
-- repository. Conditions, Slices, Alerts, Cluster and Admission are the code that the scans share, in
-- the text of internal/portscan/portutil/util.go and internal/controller/portscan_controller.go
-- unless their comments say otherwise.
--
-- PortScan is the port scan. PortScan.Types has the spec and the status of
-- api/v1alpha1/portscan_types.go; PortScan.Util the functions of internal/portscan/portutil/util.go
-- under their names; PortScan.Targets the two loops over the targets in `Reconcile`, with one function
-- for each branch; PortScan.Controller the rest of `Reconcile`: the reading of secret and config map
-- (`load`), the tests up to the poll (`check`, `connect`, `poll_if_due`), what follows a loop
-- (`conclude`), and the deferred function (`finish`, `finally`), which runs after a panic too.
-- PortScan.Webhook is api/v1alpha1/portscan_webhook.go.
--
-- VmScan is the scan of virtual machines, laid out in the same way: VmScan.Types for the spec and the
-- status of api/v1alpha1/vmscan_types.go and what is read of the instances of KubeVirt (`VmApi`);
-- VmScan.Util for internal/vmscan/util/util.go; of `Reconcile` in
-- internal/controller/vmscan_controller.go, VmScan.Migrations has the loops over the migrations,
-- VmScan.Placement those over namespaces and nodes, and VmScan.Controller the rest; VmScan.Webhook is
-- api/v1alpha1/vmscan_webhook.go. The map from nodes to instances is the list of its insertions.
--
-- ContainerScan is the scan of containers: the types, the webhook
-- (api/v1alpha1/containerscan_webhook.go), the functions of internal/containerscan/util/util.go
-- (ContainerScan.Util), and `Reconcile` of internal/controller/containerscan_controller.go.
-- ContainerScan.Cleanup is its loop over the affected pods, which deletes from the slice that it goes
-- over (`visit` carries the array that the loop reads), and `remoteFiles`. ContainerScan.Pods is the
-- loops over pods and containers: the code has eight copies of what a failing container causes, by the
-- poll, by the cause and by the flag to aggregate alerts, which are one function here (`failing`), with
-- the places where the copies differ as functions of these three. ContainerScan.Controller is the rest,
-- in the parts of PortScan.Controller. Alerts.Mails says of the shared code that it runs no command.
--
-- MetallbScan is what the scan of MetalLB is made of, without its `Reconcile`. Of
-- internal/metallbscan/util/util.go, MetallbScan.Util has the conditions, alerts and mails,
-- MetallbScan.Services `GetLoadBalancerSevices` and `GetpodsFromNodeBasedonLabels`, MetallbScan.Routes
-- `CheckLBIPRoute`, and MetallbScan.Hops `RetrieveBGPHop` and `IsExistBGPHop`, with the regular
-- expressions as lists of digits and free places, matched at every position of a line. Of the functions
-- behind `Reconcile` in internal/controller/metallbscan_controller.go, MetallbScan.Pools has the address
-- pools, MetallbScan.Advertisements the advertisements, MetallbScan.Endpoints the endpoints of the
-- services, MetallbScan.Speakers and MetallbScan.Workers what is asked of the speaker pods (the command in the
-- pod and the decoding of JSON are parameters), and MetallbScan.Upgrades the machine config pools, in
-- both files, and the tuned profiles. MetallbScan.Keys is about the texts with colons that they pass to
-- each other. Runtime.Always is the logic of what holds also after a panic.
--
-- A Go pointer to a flag or number is an Option, an error is an Option or a `Fallible`, times and
-- delays are nanoseconds, a nil map is `none`, and an index out of range, a write to a nil map and a
-- read through a nil pointer end in `panicked`. All loops run over lists, by structural recursion, or
-- count down the length that a slice had (`visit`), so there is no fuel. A failed write leaves its file
-- as it was. The answers of shell, network, clock and status updates may depend on the whole log of what
-- was done before; what the API server answers to a question for objects depends on the question, and on
-- the place in the code where the same question is asked twice with a different use of the answer.
-- Prints and logs are left out, as are the registration of controllers and webhooks, cmd/main.go,
-- generated code and the manifests under config/. The `Reconcile` of the MetalLB scan and its
-- `CheckIfBGPHopExists` are not modelled; the latter deletes by positions that may be out of date from
-- the slice that it ranges over, so that it depends on the capacity of slices.
pub mod Prelude
pub mod Runtime
pub mod Conditions
pub mod Slices
pub mod Alerts
pub mod Cluster
pub mod Admission
pub mod PortScan
pub mod VmScan
pub mod ContainerScan
pub mod MetallbScan
mod Tests
