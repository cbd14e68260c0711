-- ===== src/Lib.antt =====
-- The F5 IPAM controller: it watches the F5IPAM resources of a cluster, hands an IP address of a
-- configured pool to each host that a resource names, and writes the address into the resource's status.
--
-- The parts, from the pool outwards. Orchestration turns an event on a resource into requests, the
-- Controller serves each request by calls of the Manager and answers with a response, and Orchestration
-- writes the response into the resource's status.
--  - Base: bytes, texts, lists, maps and tests.
--  - Store: pkg/provider/sqlite/store.go. Tables has the two tables and what the SQL statements do to
--    them; Engine has the statements and the driver; Dbstore has the methods of DBStore, Prepare those that serve requests with
--    the panic of a statement that is not prepared, and Failures what they do where an UPDATE fails.
--  - Net: what the code uses of Go's package net, as of Go 1.15, with `inc` of provider.go in Net/Cidr.
--  - Provider: pkg/provider/provider.go. Ranges is NewProvider and the pool that it fills, Ipam the
--    methods of IPAMProvider; Pool, Counted, Fresh and Distinct are about the pool that ranges fill.
--  - Manager: pkg/manager/manager.go and f5ipammanager.go, as a record of operations on any state that
--    the Controller takes, and its instance over the provider.
--  - Ipamspec, Controller: pkg/ipamspec/ipamspec.go and pkg/controller/controller.go.
--  - Fic: pkg/ipamapis/apis/fic/v1/types.go, and the generated copies of zz_generated.deepcopy.go in
--    Fic/Copy, on a heap of cells and arrays.
--  - Machinery: pkg/ipammachinery. Client has the verbs of IPAMClient, Informers the informers of the
--    namespaces watched, Setup how the client is made, Lifecycle how it is started and stopped, Crd the
--    definition of the resource.
--  - Clientset: the typed client of pkg/ipamapis/client/clientset/versioned/typed/fic/v1/f5ipam.go,
--    the listers of pkg/ipamapis/client/listers/fic/v1/f5ipam.go, and in Clientset/Fake the fake client
--    for tests of pkg/ipamapis/client/clientset/versioned/typed/fic/v1/fake/fake_f5ipam.go.
--    Clientset/Watching has Watch, and the informers of
--    pkg/ipamapis/client/informers/externalversions/fic/v1/f5ipam.go by what they list and watch.
--    Clientset/Configs has how clients are made, in clientset.go and typed/fic/v1/fic_client.go of
--    pkg/ipamapis/client/clientset/versioned, Clientset/FakeSet the clientset of the fakes, and
--    Clientset/Schemes what is registered in which scheme: register.go of pkg/ipamapis/apis/fic/v1, and
--    of scheme and fake in the clientset, with NewRESTClient of pkg/ipammachinery/client.go.
--  - Factory: the shared informers of pkg/ipamapis/client/informers/externalversions.
--  - Orchestration: pkg/orchestration/kuberntes.go. Resource is processResource and the event handlers,
--    Response is processResponse, Cluster and Refused what it does to the resources of a cluster, and
--    Nils and Pointers are the two on slices that may hold nil pointers.
--  - System: the informers, the two workers of the orchestrator, the loop of the controller and the
--    goroutines that send responses, as a step relation on the queue of keys, the requests and the
--    responses that are on their way, the provider and the cluster.
--  - Vlogger: pkg/vlogger. Cmd: verifyArgs of cmd/f5-ipam-controller/main.go, the flags in Cmd/Flags,
--    how verifyArgs ends in Cmd/Arguments, and main itself up to the start of the controller in Cmd/Startup; from there to the shutdown in Cmd/Process,
--    with Start and Stop of the controller and of the orchestrator.
--  - Examples: the theorems at concrete inputs.
--
-- The state. The database is the record Tables, an error of a statement is a Boolean beside it, and a
-- method of the source that changes an object returns the new one. Texts are lists of bytes. A nil
-- pointer is `none`; a panic, an exit or a loop without end is a value of its own.
--
-- Parameters. The SQLite driver is the record Sqlite; IsSqlite states what SQLite documents of each
-- statement that the store sends, where a statement may also fail and change nothing. NeverFails is
-- the condition that none of a run fails, IsReliable that those do not fail which guard an address,
-- and NeverLoses that those do not fail which keep track of it. Texts that go into a statement by
-- Sprintf are quoted right only without a quote, a NUL byte or the name of a column, which the
-- theorems ask for. The REST client is the record RestClient, with IsCluster for the API server, in
-- which a PUT of a resource replaces it with its status, as it does where the status is not a
-- subresource, and with MayRefuse for a server that may refuse a GET or a PUT. The tracker of the fake
-- client is Tracker, and the constructors of client-go are ClientGo. The order in which Go ranges over
-- a map is a parameter, and so is what strings.ToLower makes of a text that is not ASCII. Where
-- Prepare of a statement fails, the code goes on with a nil statement and panics, which ends the
-- process: the steps of System are those of a process in which each Prepare succeeds, which Prepares
-- states, and the start of main has the panic.
--
-- Bounds. The loop over the addresses of a range runs on 2 ^ 128 fuel, as many rounds as there are
-- sixteen-byte addresses; Provider/Loop is about them. All other functions recurse on
-- their data.
--
-- Concurrency. Each goroutine of the source is a kind of step of System, and a run takes the steps in any
-- order. The channels are not buffered: a request leaves the worker when the loop of the controller
-- receives it, and a round of the loop is one step with the receipt, since the worker shares nothing
-- with it. A response waits in its goroutine until the worker for responses takes it, in any order. The
-- two stages of `processResponse`, the GET and the PUT, are one step.
--
-- Slices of pointers are lists of what the pointers lead to. A nil pointer in one of them, as a null in
-- a list of the API server is read, ends the process; Orchestration/Nils and Pointers have where.
--
-- Not modelled: the metadata of a resource beside its name and namespace, what the informers' caches and the queue of client-go do inside, the wait
-- for the caches to sync, the accessors of the generated fakes, the messages logged by each part, how
-- package pflag parses the flags, and vendored packages.
pub mod Base
pub mod Store
pub mod Net
pub mod Provider
pub mod Ipamspec
pub mod Manager
pub mod Controller
pub mod Fic
pub mod Machinery
pub mod Orchestration
pub mod Examples
pub mod System
pub mod Factory
pub mod Vlogger
pub mod Cmd
pub mod Clientset
