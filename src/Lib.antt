-- ===== src/Lib.antt =====
-- The core logic of elp, a system that runs Z21 model railway command stations in a cluster.
--
-- Parts, and the files that model them:
-- * packages/canpool (a pool of CAN module addresses with their owners): Canpool. Config is
--   config.go and the errors, Messages their texts, Pool is pool.go, each method of *Pool a function
--   from the pool to the pool that it leaves. Register is what a pool promises of its owners and
--   addresses alone. The children Invariant, Preservation, Allocation, Available, Laws and Refines
--   hold what is shown of them.
-- * operators/z21-device (the controllers): Operator. Detector is the resources CANDetector and
--   CANAddressPool, Allocate is internal/controller/candetector_allocate.go, which builds a pool
--   from the addresses of the detectors and chooses one more, Reconcile the controller around it
--   (candetector_controller.go); Device is the resource Z21Device (api/v1alpha1/z21device_types.go),
--   Workload the deployments wanted for it and internal/runtimeconfig, Status the phase and the
--   status update, Controller the steps and Lifecycle the passes of
--   internal/controller/z21device_controller.go. Cluster is the interface of the API server that
--   all of them and the gateway call. Exclusive, Chosen, Rebuilt, Settles, Phases, Shared, Running,
--   Settled, Defaults, Deletion, Teardown and Reported hold proofs.
-- * apps/z21-sim (a simulated command station): Sim. Server is the state of
--   internal/server/server.go, Packet its handlePacket, Broadcast, Xpressnet and Can the files of
--   the same names, Device the CAN devices and their encodings, Wire the byte order, Control the
--   service of internal/control/grpc.go. Sessions, Frames, Invariant, Subscribers, Delivery, Names,
--   Checksum and Clients hold proofs.
-- * apps/z21-gateway/internal (the process that connects a command station): Gateway. Health is the
--   tracker of status/healthloop.go, Reporter status/reporter.go, Detected and Detectors the manager
--   of detector/manager.go, which shares the CANDetector resources with the operator, Session
--   gateway/session.go and control.go. Reachability, Discovery, Applied, Flap and Conditions hold
--   proofs.
-- * operators/z21-sim-controller (simulations that are played to a simulator): Simulation. Resource is
--   the resource of api/v1alpha1/simulation_types.go, Controller
--   internal/controller/simulation_controller.go, which makes the requests of Sim.Control. Applies and
--   Registers hold proofs.
-- * apps/api/internal/api (requests on devices, and the stream of their changes): Api. Types is the
--   view of a device and Requests what a request makes of the resource, both of types.go; Handlers is
--   the handlers of devices.go, Simulations that of simulations.go; Stream is the hub of stream.go,
--   whose channels are references into a store. Laws, Addresses, Refused, Merged, Delivery,
--   Followers and Published hold proofs.
-- Prelude holds what they share: Boolean tests, results, actions, equality, Go's maps as association
-- lists, int32. Examples runs them on concrete inputs.
--
-- How the code corresponds: a method that changes its receiver returns the new one; an error is the
-- constructor of a data type in place of its text, and the errors of the cluster are a parameter; a
-- function that calls the cluster is an Action, from the state of the cluster to a result and the
-- state it leaves, in which what was written before an error stays; a map is an association list
-- without double keys, walked in the order of the list where Go leaves the order open (it is the order in which a
-- broadcast reaches its recipients and a poll lists its devices). A *clientSession is a reference
-- into a store, since the table of clients and the packet in hand share it. Numbers are natural
-- numbers, with `% 2 ^ w` where the code converts to w bits; int32 counts wrap as in Go. A handler
-- runs as one step: the simulator takes its mutex for each access of its state, not for a whole
-- packet, so that packets and control requests that run at once may interleave in ways that are
-- not modelled.
--
-- Bounds: the loops over addresses run on fuel 257. A validated range lies within 1 to 255, so
-- that such a loop makes at most 256 rounds.
--
-- Parameters: Sim.Platform.Platform is github.com/trains-io/z21.go/protocol and the UDP socket,
-- Operator.Device.Net is the functions of Go's net, net/url, strings and strconv,
-- Canpool.Messages.Fmt the verbs of fmt. Operator.Cluster.Resource is the calls of
-- sigs.k8s.io/controller-runtime on one kind of object; Operator.Reconcile.DetectorApi,
-- Operator.Controller.DeviceApi, Gateway.Detectors.ManagerApi, Api.Handlers.HandlerApi,
-- Api.Simulations.SimulationApi and Simulation.Controller.SimulationApi are what each client calls.
-- What the API server promises of them is stated where it is used: StoresStatus, StoresPatch and
-- StoresUpdate (a status written over the object as it is stored is stored, if the server accepts
-- it), StoresCreated (what is created is stored), Deletes and Steady (a deleted object is gone,
-- and others are left alone), Reads (what a pass reads), IsLeftAlone (no one else writes a
-- detector during a pass of the gateway).
--
-- Not modelled: logging and the tracers, listeners, timers and read loops, deadlines, the HTTP and
-- gRPC layers, the registration of the controllers, generated code, elpctl, the gateway's
-- bridge and the clients of the simulators.
pub mod Prelude
pub mod Canpool
pub mod Sim
pub mod Simulation
pub mod Operator
pub mod Gateway
pub mod Api
pub mod Examples
