-- ===== src/Lib.antt =====
-- A verification library for the concurrent core of kubePeep's Go backend: the components of
-- internal/ that keep shared state behind a mutex and that HTTP handlers and watch workers call
-- from many goroutines, and the routines on lists, names and texts that they use.
--
-- Each critical section is one function on the component's state, so that what a mutex makes
-- atomic is one step. What a goroutine does is a phase (where it stands between two critical
-- sections) with a step function `advance`, and a schedule is a list of moves. Each `run` recurs
-- on its schedule and needs no fuel. Time, randomness, the context's cancellation and what the
-- called services return are inputs of the moves.
--
-- Resources.Cache is internal/services/resources/cache.go: `resourceCache` with its entries,
-- references, epochs and memory accounting. Resources.Cache.Subscription has its subscriptions and
-- refresh tokens (Subscribe, Load, BeginRefresh, Commit, Release, InvalidateGeneration and the
-- others). Accounting, Eviction, and the children of Subscription have the proofs.
--
-- Resources.Scheduler is internal/services/resources/scheduler.go: the adaptive bound on
-- concurrent LIST windows. Requests has the requests that share it, as phases of `Acquire`.
--
-- Resources.Retry is internal/services/resources/retry.go, the retries of one LIST page, whose
-- loop recurs on the attempts that are left; Resources.Health is
-- internal/services/podhealth/podhealth.go, the classification of pods.
--
-- Resources.Listing is internal/services/resources/cursor.go and the parts of pagination.go and
-- list.go that it uses: the composite cursor over several origins (NewCompositeCursor, Validate,
-- Complete), the merge that emits a page (mergeAuthorizedOriginPages, its heap as the origin with
-- the least head), and what a page of an origin does to the cursor (applyOriginPage).
-- Resources.Listing.Traversal has the schedules of a client: pages read and pages sent. The merge
-- recurs on the items that the limit leaves. What rows are compared by is a parameter.
-- Resources.Listing.Windows has LazyMerge, the strategy for lists over several namespaces, with
-- authorizeOrigin, fetchOrigin and the workers of a batch; the number of rounds of its loop is an
-- argument, and what is stated of it is stated for every number.
--
-- Resources.Diff is internal/services/resources/diff.go: the line diff of DiffYAML with its
-- trimming, its search (myersMiddle) and its backtracking. An index out of range, at which Go
-- panics, is `none`. The loops run on fuel, which is the number of rounds that their conditions
-- allow.
--
-- Resources.Coalescer is internal/services/resources/coalescer.go: overlapping requests for one
-- key share one operation. Callers are phases of `Do`, the goroutine of a call is one move once
-- its operation returns.
--
-- Resources.Watch is internal/services/resources/watch.go without its manager: the objects and
-- events of a topic and their identities. Resources.Watch.Snapshots has a worker's snapshot
-- (applyStreamEventToSnapshot, snapshotEventSizeDelta, installSnapshotLocked, updateSnapshot,
-- SnapshotEvents), Resources.Watch.Queue a subscriber's queue (push, Next, forceTerminal, Close),
-- Resources.Watch.Ring the ring for resumed streams (Append, ReplayEntries). The lengths of JSON
-- texts are a parameter. Its loops recur on the objects, the queue or the ring.
--
-- Actions.Requests and Actions.Validation are internal/services/actions/types.go and
-- validation.go: the requests that change a cluster, and what each validator lets through.
-- Actions.Idempotency is internal/services/actions/idempotency.go: one execution per idempotency
-- key, whose callers are phases of `Do`.
--
-- Selection.Coordinator is internal/services/selection/coordinator.go: intents and the conditional
-- commit that publishes a generation. Selection.State is internal/services/selection/state.go,
-- which uses it: requests are phases of `Mutate` and `ReplaceContextPrepared`, and what their
-- preparation returns is an input. The types of a selection are those of
-- internal/services/namespaces/model.go.
--
-- Api.Session is internal/api/session.go and internal/api/generation.go: the CSRF nonce, which a
-- commit of the coordinator rotates. Api.Cursors is internal/api/cursor_store.go, the bounded
-- store of pagination states; its eviction loop runs on fuel, the number of entries, since every
-- turn removes one.
--
-- Namespaces.Parser is internal/services/namespaces/parser.go: the three formats of typed
-- namespaces, the tokenizer and the classification of names; its loops recur on the text or on the
-- list of items.
--
-- Base has the shared names: Boolean tests on the native numbers, lists measured by them, signed
-- integers, texts by their code points, and dictionaries with text keys (an association list
-- without repeated keys) for Go's maps.
--
-- Numbers: times are nanoseconds in unbounded numbers, since the clock's range is far beyond any
-- session; uint64 counters wrap (2 ^ 64), and a theorem that needs a sequence number not to have
-- wrapped says so. A negative count in a configuration, which the source replaces by a default, is
-- 0 here.
--
-- Not modelled: what calls Kubernetes, SQLite, the file system, the browser or the desktop shell,
-- since that is code of other packages; HTTP routing and encoding; logging and metrics. The watch
-- manager and its workers, the other strategies that read pages of a list, the execution of
-- actions, and the dashboard are not modelled either.
pub mod Base
pub mod Actions
pub mod Api
pub mod Namespaces
pub mod Resources
pub mod Selection
