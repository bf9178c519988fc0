-- ===== src/Lib.antt =====
-- kobako: the wire between a host and a sandboxed guest, and the pieces of both ends that this
-- library models.
--
-- Conventions. Bytes and machine integers are native numbers; a cast that wraps is written out, and
-- the range of a value is a hypothesis. `usize` is 64 bits wide, and a slice holds fewer than 2 ^ 63
-- bytes, as Rust guarantees of every allocation. Text is its UTF-8 bytes; `Common/Utf8.antt` models
-- `core::str::from_utf8` of the standard library. `Result` is Common/Outcomes.antt.
--
-- crates/kobako-transport/src:
--   envelope/bytes.rs: Transport/Bytes.antt. A `Reader` method is an action of the state and error
--     monad `Read`; `Writer` methods take and return the accumulator. Below it, Cursor has the cuts of
--     a slice, Parses the postconditions `Reads`, `Ends` and `Fails` with a rule for each way to build
--     an action, Takes the converse, and Fields, Texts, Writes and TakesFields the fields of messages.
--   abi.rs: Transport/Abi.antt. envelope/tag.rs: Transport/Tag.antt.
--   envelope/call.rs, run.rs, error_record.rs, fault.rs, unsupported.rs, compile_reply.rs, outcome.rs:
--     Transport/Call.antt and so on, `decode` and `encode` under the source's names. envelope/reply.rs
--     is Reply.antt and YieldReply.antt; envelope/request.rs is Request.antt, whose `Downcall` and
--     `Upcall` have `decode_downcall`, `decode_upcall` and so on.
--   envelope/preamble.rs: Transport/Preamble.antt, with the bodies of records in Preamble/Bodies.antt
--     and what one record adds to the loop's variables in Preamble/Records.antt.
--   Loops run over the declared count, which is checked against the bytes left before they start, so
--   no fuel is needed.
--
-- crates/kobako-codec/src/msgpack:
--   codec/value.rs and codec/error.rs: Codec/Values.antt; a float is its bit pattern. codec/decoder.rs is
--     Codec/Decoder.antt, codec/encoder.rs Codec/Encoder.antt, payload.rs Codec/Payload.antt. The crate
--     `rmp` is a parameter: Codec/Rmp.antt is the record of what the codec calls, Rmp/Laws the behaviour
--     it documents, with nothing said of a malformed input, and Runs/Wide a concrete `rmp` for which
--     the laws hold. Where the source counts `depth` up to MAX_NESTING_DEPTH, `levels` counts down from
--     MAX_NESTING_DEPTH + 1 to 0, so no fuel is needed. Sizes, Legal and RoundTrip/Sendable say what a
--     value costs, what a decoded one is like, and what can be encoded.
--
-- crates/kobako-runtime/src/endpoint:
--   memory_cap.rs: Endpoint/MemoryCap.antt; capture.rs: Endpoint/Capture.antt. buffer.rs is
--     Endpoint/Buffer.antt: the guest instance is a record of functions on an arbitrary state (its
--     memory, a store through the memory's slice, its allocator), for which `IsGuest` says that the
--     next borrow of the memory sees a store.
--   dispatch.rs: Endpoint/Dispatch.antt, an action of the instance's state for each function, with the
--     words of its failures in Endpoint/Replies.antt. A handler is what it does with the Yielder it is
--     lent (`Answering`). Endpoint/Instance.antt has the trait `GuestInstance` of ../endpoint.rs with the
--     state of the Calls, in which a handler stands by its identity, as behind an `Arc`.
--   invoke.rs: Endpoint/Invoke.antt. The errors of ../error.rs are in Endpoint/Errors.antt.
--
-- crates/kobako-runtime/src:
--   vfs/openat2.rs: Security/OpenFlags.antt; vfs/cred.rs: Security/Creds.antt, a Cred being the list of
--     its modules, with the memory count in Creds/Committed.antt; security.rs:
--     Security/MountPolicies.antt. The types they use from vfs/errno.rs, vfs/stat.rs, vfs/inode.rs,
--     vfs/file.rs and mount.rs are in Security/Files.antt. Mounts and dentries are their identities,
--     a Policy is a function, and what another module keeps on a file is an arbitrary type.
--
-- crates/kobako-runtime/src/vfs:
--   namei.rs: the walk of a path is Vfs/Names.antt, Vfs/Walk.antt and Vfs/Lookup.antt. A dentry is its
--     identity; what a walk asks of dentries, Filesystems and security modules is the record
--     Vfs/Tree.antt over an arbitrary state, whose every operation returns the state anew, with what
--     other writers did meanwhile. An action (Vfs/Actions.antt) answers, refuses, or is unfinished where
--     fuel ran out: `link_path_walk` takes the links it may follow, MAXSYMLINKS + 1, and one more than the
--     names to walk, anew behind each link; `lookup_last` takes MAXSYMLINKS + 1 rounds. This is enough,
--     since every round but the last follows a counted link or takes a name. Vfs/Entries.antt is the
--     change of one entry, Vfs/Calls.antt the calls on a path, with Vfs/Calls/Pairs.antt for those on two
--     paths and mounts, Vfs/Rename.antt the move, which no other is assumed to cross, and Vfs/Open.antt
--     the open behind a walk with `do_dentry_open` of file.rs, over the record Vfs/SuperBlock.antt of what
--     a Filesystem and its locks do.
--   dentry.rs: Vfs/Dentries.antt, the parents, names and hash table of dentries with `d_ancestor`,
--     `move_dentry` and `exchange`; the walk up the parents recurs on the proof that it reaches a root.
--
-- crates/kobako/src:
--   handles.rs: Host/Handles.antt. snippet.rs and the name tests of catalog.rs: Host/Names.antt and
--     Host/Snippets.antt. catalog.rs: Host/Catalog.antt, over an arbitrary type of receivers; in
--     Catalog/Setup.antt, `Filled` is the relation of what the registrations reach. An argument error
--     is a constructor with the name it quotes, not its text; what the runtime compiles is an argument.
--   dispatch.rs: Host/Dispatch.antt, and yielder.rs with the trait of receiver.rs: Host/Yielder.antt. A
--     receiver is what it does with the block and the Handles it is lent (`Running`), which can call a
--     block only where there is one. The engine's side of a yield is a parameter (`Nesting`): how the
--     block answers, and what the Calls nested in it bind in the Handle table that they share.
--   A Catalog's `preamble` is the `Preamble` that Transport/Preamble.antt encodes for the guest.
--
-- Not modelled: the Sandbox and the run of an invocation by an engine; the lookups of an open,
-- the dentry cache, the files and mounts of the virtual filesystem with the guard on where a
-- walk starts; the engine; and the guest's side in mruby.
pub mod Common
pub mod Transport
pub mod Vfs
pub mod Security
pub mod Codec
pub mod Endpoint
pub mod Host
