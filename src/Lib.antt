-- ===== src/Lib.antt =====
-- KumaBox runs sandboxes in small virtual machines. This library models the part of it that decides
-- what a sandbox is and which operation may touch it: the value types of internal/types, the
-- metadata engine of internal/metadata, the catalogs of internal/sandbox/catalog,
-- internal/snapshot/catalog and internal/images/catalog, the pool of TAP devices of
-- internal/network/tap, the choice of snapshots to evict of internal/core and the frames of the
-- guest channel of internal/agent. A service asks a catalog to move a record through its lifecycle;
-- the catalog runs each request as one transaction of the metadata engine, validates the record
-- with internal/types and stores it as JSON.
--
-- Files, each with the code that it models:
--   Prelude        what the other modules share: Go strings as byte strings (Text), maps as
--                  association lists (Dict), signed integers, 64-bit wrap-around (u64)
--   Errdefs        internal/errdefs/error.go: classes, codes and the committed mark of an error
--   Types.Ids      ParseSandboxID of internal/types/sandbox.go, Digest of internal/types/image.go
--   Types.Text     the name patterns of internal/types/sandbox.go, decimal numbers
--   Types.Network  internal/types/network.go
--   Types.Cpu      internal/types/resources.go; Cpu.Ranges is cpuRanges and CPUSetContains
--   Types.Disks    DataDiskSpec and ResolveDataDisks of internal/types/sandbox.go
--   Types.Sandbox  SandboxConfig, Sandbox and their Validate, SameGuest
--   Types.Snapshot internal/types/snapshot.go
--   Metadata       internal/metadata/memory.go; Scans and Newest are about a scan over all records and
--                  the order of a listing
--   Sandboxes      internal/sandbox/catalog/store.go: Records and Decode hold the stored form, Access
--                  the reads and writes within a transaction, Changes what each operation does to a
--                  record, Operations the methods of Store; Saved, Edits, Outcomes, Lifecycle, Fencing,
--                  Names, Reservation, Removal, Failing, Reachable, Refinement, Usage and
--                  Progress are about them; Listing is List
--   Snapshots      internal/snapshot/catalog/store.go: Records is the stored form, Operations the
--                  methods of Store; Effects and Release are about them; Listing is List, State,
--                  States and Usage; Access is
--                  internal/snapshot/catalog/access.go, its children are about it
--   Taps           internal/network/tap/pool_linux.go: what each call does while it holds the mutex;
--                  Steps is how concurrent calls interleave; Free, Sound, Local, Taken, Kept, Claims
--                  and Run are about the invariant, Fenced and Epochs about the epochs, Capacity about
--                  the number of idle devices; Alias is the mark of a device and its parser
--   Eviction       internal/core/gc_snapshot_policy.go: the policy and the choice of candidates; Marks,
--                  Totals, Limits and Idle are about what it picks and leaves
--   Agent          internal/agent/protocol.go: the encoder and the writer of frames; Terminal and Frames
--                  are about what they put on the wire
--   Images         the values of internal/types/image.go and internal/images/catalog.go; Selection is
--                  internal/images/boot.go, its children are about what it picks; Validate is
--                  ImportCommit.Validate; Records, Access, Listing and Operations are
--                  internal/images/catalog/store.go: the stored form, the reads and the two writes;
--                  Release, Loaded, Named, Writes, Imported and RoundTrip are about them; Retained
--                  is imageUsage of internal/core/images.go and what it protects
--   Examples       concrete sandboxes and stores on which the theorems are run
--
-- A Go error is a Failure: its class, its code and its committed mark, or `plain` where no boundary
-- has classified it. A method that changes the store takes the store and returns it beside its result.
-- Locks and the writer token order the updates of a store, so concurrent calls are a sequence of
-- calls; what can still come in between, a context that ends or a Close, is in the record Weather,
-- with one field for each place where the code looks. The lifecycle is a data type of edits (Edit), a
-- step relation on stores (Step), whose steps are calls that returned a result or an error, and what
-- calls can lead to (Reachable); Refinement states the same lifecycle without a store, for one ID, as
-- paths of Life. Concurrent uses of the access buffer are the
-- steps of Snapshots.Access.Steps: what a call does while it holds the mutex, or one transaction. So
-- are the calls on the pool of devices in Taps.Steps, where a job is a call that works on a device
-- between two critical sections; a pointer to an entry is the entry's name, and calls for one sandbox
-- follow each other, as the lock of the sandbox makes them.
--
-- JSON, net.ParseIP and net.ParseMAC, the image reader of a reservation and the clock are
-- parameters. Of JSON it is assumed that a value that was marshalled unmarshals to itself. Of the
-- guest channel it is assumed that a write that fails has put nothing on the wire.
--
-- Text, CPU lists and disks are followed by recursion on the lists that they read. The loop that
-- names a disk runs on one unit of fuel more than there are names in use, and returns `none` when
-- they do not suffice, which does not happen. The writer of frames runs on fuel, and the length of
-- its data is enough, since no frame is empty. The loop that records a use of a snapshot looks at a
-- context in each pass; it takes the list of these contexts, and two are enough when nothing else
-- comes in between.
--
-- A time is a number, its distance from Go's zero time. Nil receivers, messages of errors, logging
-- and locks are not modelled, nor is the retry of a read that a flush overtook, nor are the
-- services, VMM adapters, network devices, the files of images, the services of the guest agent, the
-- servers and the command line, which are input and output around this core.
pub mod Prelude
pub mod Errdefs
pub mod Types
pub mod Metadata
pub mod Sandboxes
pub mod Snapshots
pub mod Taps
pub mod Eviction
pub mod Agent
pub mod Images
pub mod Examples
