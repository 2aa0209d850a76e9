-- ===== src/Lib.antt =====
-- The access decision of Octelium: who may send which request to which Service, and why; and
-- the Policies, Sessions and connections that it rests on.
--
-- A request comes from a proxy (cluster/vigil) to Octovigil (cluster/octovigil/octovigil), which finds
-- the Session of its address or of its access token, checks the Session, its User, its Device and its
-- scopes, collects the rules of the Policies that stand on the resources, and lets the first rule that
-- matches decide. Watchers keep the resources in a cache. The API server (cluster/apiserver) admits
-- the Policies, cluster/common/sessionc makes the Sessions with their token durations and their limit
-- per User, and cluster/common/upstream gives a connected Session its addresses and the ports on which
-- it serves Services of its own.
--
-- The parts, and the files that model them:
--
-- Corev1: the messages of apis/main/corev1, less the fields that no modelled code reads. `Spec` and
--   `Status` stand side by side in one record. Times are nanoseconds since the Unix epoch, an int32 is
--   its bit pattern, the effects of rules are open enums, and protobuf structs are texts. Maps of
--   headers are lists of pairs.
-- Apiutils: pkg/apiutils/ucorev1/ucorev1.go (`IsValid`, `HasValidAccessToken`, `IsServedBySession`
--   and others) and `ToGo` of pkg/apiutils/umetav1/umetav1.go, with the wrap-around of int64.
--   Apiutils/Lifetime has their theorems. Apiutils/Endpoints has `GetAllUpstreamEndpoints` and what
--   else ucorev1.go says of the upstreams of a Service; net/url and strconv are the record `Urls`.
-- Apiserver/Policies: the checks and the handlers of cluster/apiserver/apiserver/admin/policy.go, with
--   `checkCELExpression` of utils.go. The resource server is a list of stored Policies, and the UID
--   and the version that it gives are arguments. Policies/Vetted has what the checks let through,
--   Policies/Stored and Policies/Removed what each handler keeps, Policies/Reachable the stores that
--   requests reach.
-- Apivalidation: `validateName` and `GetNameAndParents` of
--   cluster/common/apivalidation/apivalidation.go.
-- Celengine: `EvalCondition` of cluster/common/celengine/celengine.go and opaenigne.go. cel-go and OPA
--   are the record `Engine`, whose CEL values are booleans: the panic on any other is left out.
--   Celengine/Programs models `getOrSetProg` and `getKey`, over SHA-256 and a compiler.
-- Httputils: `GetDownstreamPublicIPFromXFFHeader` of cluster/common/httputils/middlewares.go, over a
--   parser of addresses.
-- Oscope: cluster/common/oscope/oscope.go, from the text of a scope (`get_scope`) to the test of a
--   request (`is_authorized_by_scopes`).
-- Octovigil/Acache: cluster/octovigil/octovigil/acache/acache.go. A bbolt bucket is a function from
--   keys that refuses to store under an empty key.
-- Octovigil/Decision: `doGetDecision`, `getDecisionRule`, `getMatchedDecisionReason` and
--   `shouldEnforcePolicy` of policy.go. `slices.SortFunc` is the interface `SortFunc` of Base/Sort: it
--   permutes its list, and sorts it if the comparison is a strict weak order. Base/Sort/Insertion
--   fills that interface. Decision/Priority has the order, Decision/Spec what rules deserve without
--   any order among them, Decision/Verdict and Decision/Enforce the theorems.
-- Octovigil/Rules, Octovigil/Trigger, Octovigil/AllRules: the collection of rules in policy.go and
--   policytrigger.go, as calls on a `Walk`, which is the cache and the list of the Policies that are
--   used. What was written before an error stays written. `Env` holds the resource server, the
--   conversions, the sorting routine and the time of one call. Rules/Collects states an
--   invariant, which Rules/Vetted, AllRules/Namespaces and AllRules/Collected keep along the calls.
-- Octovigil/Authz, Octovigil/Identifier and Octovigil/Authn: `isAuthorized`, `getConnectionIdentifier`,
--   `authenticate` and `AuthenticateAndAuthorize` of octovigil.go. Token verification, cookies and
--   net/netip are the record `Verifier`. Pointers that the code reads with no check are not optional
--   in the model.
--
-- Rscdiff: client/common/rscdiff/diff.go, which makes a Cluster have the resources that a user wrote
--   down. Rscdiff/Items has the difference of two lists, Rscdiff/Current the loop over the pages of a
--   list, Rscdiff/Run the changes. The loop runs on fuel: a Cluster refuses pages beyond the number
--   10000, so that 10002 pages are enough. The methods of the gRPC client are the record `Client`.
-- Rscserver: cluster/rscserver/rscserver/common.go. A resource is its kind (API, version and kind), its
--   metadata and the rest as JSON. Rscserver/Resources has the rows of the database, the Redis cache as
--   functions from its keys, and the checks of requests; Rscserver/Operations has `doGet`, `doCreate`,
--   `doUpdate` and `doDelete`, for a server with no secret manager and no hooks. The record `Call` is what
--   one call finds: the clock, the new UID and version, the actor, govalidator's test of a UUID, what
--   protobuf makes of the bytes of another kind, and whether Redis and the database answer. Writes to
--   Redis and messages do not fail. Rscserver/Table is the abstract table, Rscserver/Coherent and
--   Rscserver/Reads the cache, Rscserver/Created, Rscserver/Renewed, Rscserver/Updated and
--   Rscserver/Deleted each write, Rscserver/Refined runs of calls, Rscserver/Refused failures,
--   Rscserver/Watched the events. Rscserver/Filters has `getListFilters` of types.go, as expressions of
--   SQL, and the options of cluster/common/urscsrv/urscsrv.go; Rscserver/Pages has `doList`, over what
--   PostgreSQL picks and how it sorts, and Rscserver/Listed its pages. Calls are one after the other, but for Rscserver/Overtaken.
-- Sessionc: cluster/common/sessionc/sessionc.go. Sessionc/Lifetime has the durations of a Session and
--   of its tokens, as int64 bit patterns, Sessionc/Caller what is recorded of the caller,
--   Sessionc/Create `NewSession` and `CreateSession`, Sessionc/Authenticate `SetCurrAuthentication`.
--   The record `Around` is the clock, the random texts, the ClusterConfig and net/netip. The stored
--   Sessions are a list.
-- Upstream: cluster/common/upstream/upstream.go. Upstream/Ports has `getListenerPort`, whose loop runs
--   on fuel: its range has at most 10000 ports, and that is the fuel. Upstream/Addresses has
--   `AddAddressToConnection` and `RemoveAllAddressFromConnection`, with `GetRandomIPIndex` of
--   pkg/utils/utilrand, `GetDualStackIPByIndex` of cluster/common/vutils and `GetIndex` of
--   pkg/apiutils/umetav1. The numbers that crypto/rand draws are lists, one for each round of the
--   loop; net, k8snet and the failures of the calls are the record `Network`, and
--   Upstream/Restored states what net and k8snet do. Upstream/Listener has
--   `setConnectionUpstreamsListener`; an Upstream keeps the UID of its `ServiceRef`, and its
--   `NamespaceRef` is left out. Upstream/Candidates has svc.go, over a function that lists Sessions for
--   filters, Upstream/Hosts and Upstream/Found which Sessions it finds.
-- Vigil: cluster/vigil/vigil/loadbalancer. Vigil/Sessions is its cache of Sessions by the User's name, a
--   function from names; Vigil/Handlers has the handlers of the watcher of Sessions, for a Service that
--   keeps its UID, and Vigil/Watch what the watcher reports; Vigil/Balancer is `getUpstreamFromSvc`,
--   with the number that crypto/rand draws as an argument; Vigil/Cached, Vigil/Unique and Vigil/Chosen
--   have their theorems.
--
-- Tests modules have runs and the theorems at concrete inputs, on the resources of Samples and
-- Octovigil/Samples.
--
-- The evaluators of conditions and pre-conditions recur on the condition, every other loop on its list,
-- and every function is total.
--
-- Not modelled: the servers around the resource API, network I/O, storage, metrics and logs, and the
-- generated code. One call sees one state of the resource server, one clock and a cache that no other
-- goroutine writes, but for Rscserver/Overtaken.
pub mod Apiserver
pub mod Base
pub mod Corev1
pub mod Samples
pub mod Apiutils
pub mod Apivalidation
pub mod Celengine
pub mod Httputils
pub mod Oscope
pub mod Octovigil
pub mod Rscdiff
pub mod Rscserver
pub mod Sessionc
pub mod Upstream
pub mod Vigil
