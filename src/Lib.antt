-- ===== src/Lib.antt =====
-- flanforge: ephemeral CI runners as virtual machines, with warm images and a pool of hot
-- machines.
--
-- The daemon turns a workflow's request into an allocation, clones or reuses a machine for it, and
-- destroys or keeps the machine when the job ends. A create checks the run's signed claims against
-- its profile, resolves a size, a mode and a boot source, asks whether the host has room, may
-- claim a pool machine, and commits the claim and then the allocation. The parts below decide all
-- of that, and this library models them; the rest of the repository moves their answers to and
-- from the host.
--
-- * Utils models crates/flanforge-utils/src/lib.rs: Utils/Glob the allowlist patterns, Utils/Refs
--   the Git refs, Utils/Uri the libvirt URIs, Utils/Bounded the texts cut to a length.
-- * Core models crates/flanforge-core/src. Core/Names is identifiers/names.rs, Core/Source the
--   values of allocation/{size,source,origin,outcome}.rs and image, Core/Sizing
--   allocation/sizing.rs, Core/Allocation the record and state machine of
--   allocation/{state,model}.rs, Core/Hot the pool's record of hot/*.rs, Core/Config the tables of
--   config/model that the manager reads and, in Validate and Limits, what
--   config/{profile,hot,runtime}.rs refuse of them, in Advice, what config/advisory.rs warns of, and
--   in Reload, which change of a profile drains its machines (config/reload.rs), Core/Claims the
--   claims and the policy of claims/forgejo.rs.
-- * Manager models crates/flanforge-manager/src. Manager/Service is service.rs: Decide the
--   request's authorization and admission, Commit the evictions before it and what it writes. Manager/Entries is state.rs: the
--   updates of the resident entries and the trim of the history. Manager/Admission is
--   admission/*.rs: what a host can still run. Manager/Warm is warm/source.rs: what a run boots
--   from. Manager/Pool is hot/{select,claim,model}.rs: which machine a create takes.
--   Manager/Pool/Drain is hot/evict.rs and the drain of hot/bounds.rs over the rows of
--   crates/flanforge-orm/src/stores/hot.rs, read as convert/hot_guest.rs there reads them, which
--   Table compares with a map. Manager/Pool/Recycle is the release and the gate of hot/recycle.rs,
--   Manager/Pool/Yield is hot/yield.rs. Manager/Pool/Bounds is the rest of hot/bounds.rs and hot/reload.rs: the passes over
--   the whole pool. Manager/Resolve is resolve.rs: a run's machine name. Manager/Reaper is
--   reaper/plan.rs: which machines a sweep deletes, and Manager/Reaper/Reap the deletions of
--   reaper/sweep.rs with a plan before each. Manager/Teardown is lifecycle.rs, teardown.rs,
--   shutdown.rs and worker/{budget,error}.rs: the end of an allocation and of the daemon.
--   Manager/Recovery is recovery/{allocations,hot}.rs: a start on durable records, which goes through
--   the same teardown. Manager/Operator is operator/{control,status,token}.rs: cancellation, the
--   list, and the comparison of the operator's credential.
-- * Wire models crates/flanforge-libvirt-wire/src: Wire/Pointer is image/pointer.rs and
--   validation.rs, Wire/Warm the document of warm/*.rs that names a profile's warm volumes.
-- * Base holds numbers, lists, texts and results; Samples the records that the examples use.
--
-- A method that changes its receiver is a function that returns the new record; the clock that it
-- reads is its argument `now`. Machine integers are natural numbers under their types' bounds:
-- saturating sums name the bound, and a wrapping conversion writes its modulus. Maps are lists of
-- their entries in iteration order, sets are lists that are only asked for membership, a string is
-- the list of its bytes, an identifier the text that it wraps, and a UUID its number. Every
-- function is structurally recursive; a teardown's attempts are counted down from the source's own
-- bound, one under a shutdown and three otherwise. Two count down fuel: `to_string` one more than
-- its number, of which each digit takes one, and the glob matcher one more than the pattern's length for each
-- byte of the value and for the end, since between two resumptions a round moves on in the pattern
-- and a resumption moves on in the value; neither runs out.
--
-- The interleavings are sequences of steps, each taken under the entries lock: a create, or an
-- update by another task. A create sees whatever machines and records the host and the stores last
-- returned.
--
-- The backend, the stores and the worker are the records `Answers`, `WarmAnswers` and `Host` of
-- their answers, of which only hypotheses assume anything; what other tasks do while a release or an update
-- waits is a function that its caller gives. A teardown waits at nine points, and the answers of
-- Manager/Teardown number them: `meanwhile k` is what the other tasks made of the entries by then.
-- Durations and instants there are milliseconds. A cancellation that waits for another is given the
-- entries at the end of that one.
--
-- Not modelled: HTTP, SQL, the virtualization backends, serialization, logging, the events, and
-- the tasks that wait on them: the worker's own run, the guard that starts its teardown on an
-- unwind, the sweep of image records, the retention of warm images and of the machines that runs
-- leave to the pool, the status snapshot, and of the libvirt documents their JSON and the
-- ownership, checkpoint and helper messages.
pub mod Base
pub mod Utils
pub mod Core
pub mod Wire
pub mod Manager
mod Samples
