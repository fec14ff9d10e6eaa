-- ===== src/Lib.antt =====
-- A verification library for the core of RusticOS: the kernel's capability tables, message broker,
-- process table, block queue, memory maps and timers, with the message format and exchanges of its
-- SDK, the line editor and parser of its shell, and the volume of its file system.
--
-- How the parts interact: a process holds handles, entries of the table of kernel/src/handles. The IPC
-- broker and the block broker keep one such table each; a handle of the first stands for one side of a
-- channel, a handle of the second for a range of sectors. A message leaves a program through the SDK,
-- is checked and stamped with the sender by the kernel, waits in a channel and is read by the SDK of
-- the receiver. The process table decides who runs; the timers keep the deadlines that a
-- process waits for.
--
-- Files and sources:
--   Base: what the parts share. Slots are the arrays of optional records, Bits and Words the machine
--     arithmetic, Bytes the little-endian fields.
--   Handles: kernel/src/handles/table.rs (Table, grant, resolve, remove, transfer, first). Cases,
--     Invariant, Resolve and Transfer are about it.
--   Ipc: Abi is crates/abi/src/ipc.rs; Message, Channel and Broker are the files of kernel/src/ipc;
--     Sdk is crates/sdk/src/ipc/message.rs. Wire and Identity follow a message through these.
--   Process.Lifecycle: kernel/src/process/lifecycle.rs.
--   Block: Abi and Wire are crates/abi/src/block, Broker is kernel/src/block/access, Budget
--     is kernel/src/block/deadline.rs, Hold is kernel/src/block/observation.rs.
--   Time: kernel/src/time. Boot: kernel/src/boot/map.rs and region.rs.
--   Memory: kernel/src/memory/page.rs and frames.rs, kernel/src/process/heap.rs. Bitmap is what the
--     bitmaps of these and of crates/fs share: Laws reads bits, Runs is about runs and the two ways to
--     search one, Counts counts. Heap.Ownership and Frames.Contiguous are about what is handed out.
--   Fs: crates/fs/src. Extent is extent.rs; Checksum, Namespace, Recovery and Format are the encoders of
--     checksum.rs, namespace.rs, recovery, admission/codec.rs and format; Storage is the disk's traits;
--     Volume is volume.rs and references.rs, Publication is publication, Mutations is mutations.rs.
--     Publication.Plan is about the sector that each step writes, Isolation about the state between two
--     steps, Drive, Settle and Runs about the calls, and Mutations.Outcome and Progress about the calls on
--     a replacement. Admission is admission: its queries and, in Prepare, the publications it makes.
--     Operations is recovery/operations.rs and scoped.rs.
--   Sdk.Rpc: crates/sdk/src/rpc/state.rs.
--   Shell: apps/shell/src/editor.rs and parser.rs.
-- Modules named Tests apply the theorems to concrete states.
--
-- Conventions: a method on `&mut self` returns the state that it leaves with its result. A number of
-- the source is a natural number; a checked, saturating or masked operation writes its bound out. An
-- `expect` or a failed assertion of the source is `none`. A fixed array is a list whose length an
-- invariant gives.
--
-- Fuel: `close_owner` loops while its owner has a handle, and each round removes one, so one round
-- more than the quota of an owner is enough. The scan of a bitmap and of a scheduler's round has as
-- much fuel as there are frames, pages, sectors or slots; the climb to a scope has the 32 rounds of the
-- source. The parser has one round
-- more than the line has bytes, each of its words taking one. The polls of Budget run on any fuel.
--
-- The disk of the file system is a parameter, an implementation of the traits Disk and PollDisk: a
-- command changes no sector but the one it writes, and a write that succeeds has put its bytes there.
-- A write that fails may have changed its sector.
--
-- Not modelled: hardware access, interrupts, the kernel's system call glue, the mount of a volume and
-- its decoders, replace_tracked, the migrations between formats, the volume formats 6 and 7, the file
-- service, the applications and the tools.
pub mod Base
pub mod Handles
pub mod Ipc
pub mod Process
pub mod Block
pub mod Time
pub mod Fs
pub mod Memory
pub mod Boot
pub mod Sdk
pub mod Shell
