-- ===== src/Lib.antt =====
-- Verification of the core of controller-mesh (KusionStack): a proxy that limits, breaks and faults the
-- requests of Kubernetes operators, and the manager that configures it.
--
-- What is modelled, by file (paths from the root of the repository):
--
-- CircuitBreaker/Config: the messages of pkg/apis/ctrlmesh/proto/throttling.pb.go, and the record
--   Platform of what other libraries provide (token bucket, regular expressions, durations).
-- CircuitBreaker/Breaker: `state` and its methods, pkg/proxy/circuitbreaker/store.go.
-- CircuitBreaker/Keys: the index functions of store.go.
-- CircuitBreaker/Store: the limiter store of store.go. A pointer to a limiter or a state is a number,
--   and two heaps hold what it points to, since the lease and the validation share the states.
--   Store/Indices and Store/Invariant have the invariant, Store/Found what byIndex finds.
-- CircuitBreaker/Lease: pkg/proxy/circuitbreaker/lease.go. The delaying queue delivers pointers in any
--   order and at any time; one function is one round of the processing loop.
-- CircuitBreaker/Seeds, CircuitBreaker/Validation: generateWildcardSeeds, doValidation and
--   ValidateResource of pkg/proxy/circuitbreaker/manager.go. Validation/Window has the proof about
--   the time that a breaker stays open.
-- CircuitBreaker/Rest: generateWildcardUrls and ValidateRest of manager.go.
-- CircuitBreaker/Intercept: the store of the traffic rules and ValidateTrafficIntercept.
-- CircuitBreaker/Manager: Sync with all its options, and the registration of rules.
-- FaultInjection/Config: the messages of pkg/apis/ctrlmesh/proto/faultinjection.pb.go, and what other
--   libraries provide (floating-point numbers, regular expressions, the reading of times).
-- Conversion: the messages of a circuit breaker from its resource, pkg/apis/ctrlmesh/utils/conv/conv.go;
--   Conversion/Faults: those of a fault injection, faultconv.go in the same place.
-- FaultInjection/Store: the faults by key, pkg/proxy/faultinjection/store.go.
-- FaultInjection/Match, FaultInjection/Window: which faults a request meets and when a fault is in
--   effect, pkg/proxy/faultinjection/manager.go. The present moment is an argument.
-- FaultInjection/Injector: getInjector of manager.go, and injector.go. The random numbers are a
--   function of how many have been drawn before.
-- FaultInjection/Manager: Sync and the registration of faults.
-- Sharding/Config: the types of pkg/apis/ctrlmesh/v1alpha1/shardingconfig_types.go.
-- Selectors: pkg/utils/selector.go. Sharding/Validation: the webhook of sharding configurations,
--   pkg/webhook/shardingconfig/shardingconfig_validating_handler.go.
-- Proxy: the specification of a shard and its object selectors, pkg/apis/ctrlmesh/conv/convert.go.
--   Proxy/Specs: which specification is loaded, pkg/proxy/proto. Proxy/Query: the selectors that are put
--   into requests, pkg/proxy/apiserver/injector.go and pkg/utils/http/request.go. Proxy/Limits and
--   Proxy/Loading have the proofs.
-- BreakerConfigs: the cache and the calls of one proxy, pkg/manager/controllers/circuitbreaker;
--   BreakerConfigs/Clearing and BreakerConfigs/Reconcile the loops of its controller, and
--   BreakerConfigs/Finalizer the proof about its finalizer.
-- Namespaces: the labels by which namespaces belong to shards, pkg/apis/ctrlmesh/types.go and
--   pkg/utils/rand/hash.go. Namespaces/Webhook: the webhooks of namespaces and of resources, pkg/webhook/ns
--   and pkg/webhook/resources. Namespaces/Runnable: the labelling when the manager starts,
--   pkg/manager/controllers/patchrunnable. Namespaces/Hash, Namespaces/Shards, Namespaces/Agreement and
--   Namespaces/Patches have the proofs.
-- Pods: pods as far as they are read, pkg/utils/pod.go. Expectations: pkg/utils/expectation.
-- Rollout: upgrade and the last loop of Reconcile, pkg/manager/controllers/rollout/rollout_controller.go;
--   Rollout/Reconcile has the rest of Reconcile. Rollout/Scan, Rollout/Deletions, Rollout/Upgrade and
--   Rollout/Order have the proofs, loop by loop.
-- BreakerConfigs/Whole and BreakerConfigs/Events: the whole reconciliation, and what causes one.
-- FaultConfigs: the cache and the loops of the controller of faults,
--   pkg/manager/controllers/faultinjection.
-- Proxy/Election: the leader election of a shard, pkg/proxy/leaderelection and pkg/utils/string.go.
-- Sharding/Streams: the streams of the proxies and the events of their pods, grpc_server.go and
--   event_handler.go of pkg/manager/controllers/shardingconfigserver.
-- Sharding/Reconcile/Whole: all of the reconciliation of a configuration, with Sharding/Reconcile/Clearing
--   for the old pods and Sharding/Reconcile/Specs for the specification that is sent.
-- Sharding/Reconcile: Reconcile from the list of pods on,
--   pkg/manager/controllers/shardingconfigserver/shardingconfig_controller.go.
-- Sharding/Auto: getChild and what it calls,
--   pkg/manager/controllers/shardingconfigserver/auto_sharding.go. Sharding/Auto/Sync: AutoSharding of
--   the same file, with its calls of the API server. Sharding/Auto/Laws and Sharding/Auto/Children have
--   the proofs about the shares of the children.
--
-- How the parts interact: Sync turns the rules of a configuration into entries of the two stores, the
-- validation finds them by index values, reads and changes the breakers behind their pointers, and the
-- lease closes an open breaker after its window. The fault injection is apart from that: its Sync
-- fills a store of faults, of which those that match a request make up one delay and one answer. The
-- sharding and the rollout run in the manager of the mesh: the first divides the pods and keeps each
-- shard at its specification, the second replaces the pods shard by shard.
--
-- Conventions: a Go map is an association list in the order in which a run ranges over it, and a set a
-- list of texts; statements hold for every order. Times are nanoseconds in ℕ and durations a type of
-- integers. All calls of the clock within one validation return one time. A nil pointer that is
-- dereferenced and an index out of range are `none`. The answers of the API server are arguments, and
-- which of its calls fail is a function. Every loop is a recursion over a list or a
-- number; only the printing of a number n uses fuel, n + 1, more than it has digits. Mutexes are
-- left out: an operation is one step, also a round of the lease and a validation, during which the
-- source takes several locks one after the other, so what happens in between is not
-- modelled. Logging and metrics are not modelled.
--
-- Not modelled: the mutating webhook of pods, and of the controller of faults the finalizer, the
-- write of the status, the filter and the handlers of pods. Also left out: generated clients and deep
-- copies, the HTTP and gRPC servers, certificate handling and the command lines, which are input and
-- output or calls of other libraries.
mod Prelude
pub mod Pods
pub mod Selectors
pub mod Expectations
pub mod Rollout
pub mod CircuitBreaker
pub mod FaultInjection
pub mod Conversion
pub mod Namespaces
pub mod Proxy
pub mod BreakerConfigs
pub mod FaultConfigs
pub mod Sharding
