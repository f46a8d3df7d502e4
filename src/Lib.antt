-- ===== src/Lib.antt =====
-- A model of the fgtw crate, the client substrate of a fleet: several devices share one identity,
-- held together by a hash-linked chain of signed ops that every reader folds for itself. Paths are
-- from the repository's root.
--
-- What the parts are, and which file models which:
--   Base        numbers, lists, bit masks, i64 values, little-endian bytes, results.
--   Primitives  what the crate takes from its dependencies (BLAKE3, Ed25519, Falcon, SLH-DSA, the vsf
--               codec of egg lists, the clock's rate): a record `Primitives` that every definition
--               takes as an argument, with the documented laws as records of their own.
--   Pq          src/pq.rs: scheme masks, `KeyBundle` with its checks and its codec, and the rules for
--               lists of eggs (one egg is one signature under one scheme).
--   Fleet.Op, Fleet.Signing
--               src/fleet.rs: `FleetOp`, its kinds and versions; `signing_bytes`, `chain_hash`, the
--               consent and departure requests, `verify_sigs`, `BindRequest::verify`.
--   Fleet.Fold  src/fleet.rs `fold_inner`. `Walk` holds the loop's variables and `FoldState` what the
--               fold returns; `check_shape` is the structural checks, `record_plate` the plates,
--               `check_authority` the bundle's owner, the lock, the floor and the signatures,
--               `apply_kind` the match on the kind, and `finish` the floor's ratchet and the link.
--               `fold_step` is one round and `fold_ops` the loop, which ends at the first error.
--               The children are named for what they show: Inversion and Effects say what an accepted
--               op has passed and changed, Changes which op changes the members, Authority what the state
--               before an op grants its signer, Trace splits a run, and
--               the others use these.
--   Fleet.Query src/fleet.rs: the accessors of `MembershipBlob`, which fold the chain each time.
--   Fleet.Adoption
--               src/fleet.rs `extends`, `adoption`: a fetched chain against the last adopted one.
--   Fleet.Succession
--               src/fleet.rs `SuccessorRecord`: `new`, and `verify_for_pin`, by which a contact moves
--               its pin to a new chain.
--   Fleet.Wire  src/fleet.rs `op_field_values`, and in Parse `parse_op`, over the forms of `VsfType`
--               that they tell apart; `from_vsf_type`, which reads the others, is an argument
--               (`VsfReads` of Values). The index `i` into the values is the list of those still
--               ahead. Carries says which ops are written whole; Stages and Kinds are the parts.
--   Fleet.Build src/fleet.rs: the builders, over the trait `FleetSigner` of src/pq.rs. A builder that
--               mutates the chain in place is a function to the new chain; one that would panic on an
--               empty chain gives `none`.
--   Attest      src/attest.rs `attest_verdict`: the loop over the chains seen, and the decision.
--   Traverse    src/traverse: Address the address classes, Candidate the candidate set, Gather its
--               sources, Reflexive how a device learns its own public address.
--   Fstate      src/fstate.rs: the merges. Order the comparisons, Merge `merge_by_key`, Roster the
--               rosters and global settings with their rules, over the bytes that `flatten` gives.
--   Phonebook   src/phonebook.rs. Keys the keys and the slice and slot they name, Layout and Record the
--               256 bytes of a record and its accessors, Mint its constructors and the bytes that
--               signatures cover, Eggs the blobs of signatures, Verify their checks. Slice is `Slice`
--               with `lookup`, `insert` and `remove`, Slice.Body its raw form and `check_invariants`;
--               Registry is `RegistryView` and `registry_plan`. The other modules are named for what
--               they show: Slice.Run the order of the slots and the abstract `find`, Slice.Refine what
--               lookups see of the operations, Slice.Unique that no slot remembers the past,
--               Registry.Land the storage that a plan is written to, which refuses a record that is
--               not newer than the one under its key, and Registry.Rule that this is the rule of
--               `Slice::insert`; Slice.Checked what `check_invariants` finds.
--   Tests       stand-in primitives, small chains, and the runs of the definitions on them.
--
-- How the code is rendered. A chain is the list of its ops, oldest first. A byte is a number, a
-- [u8; 32] a list of 32. An i64 is an integer over the native numbers, written to bytes in two's
-- complement. Masks are numbers under the bitwise operators; a scheme's bit is `2 ^ tag`, and
-- `egg_mask` drops tags from 16 on, as the u16 does. `Result` with `?` is a bind. Errors carry the
-- index of the op, as in the code. Loops are structural recursion on the list they walk. The
-- exception is the pop-and-swap loop of `registry_plan`, on fuel: each round takes one device off the
-- list, so its length is enough, which is proved. A slice's buffer is the list of its 4096 slots, and a
-- walk to the right from a slot is a recursion on the slots from there on. The keys' digest has 32
-- bytes, and a slice index at most 32 bits: the code panics beyond. A sort is insertion sort, stable
-- as the library's is. A v6 socket address carries its flow label and scope, which the code's
-- comparison reads. A usize is taken to have 64 bits.
--
-- What is not modelled: the vsf sections and documents of chains, succession records and the fleet
-- state, key generation, the client's transport and sealing, the phonebook's address sets and
-- transport documents, the fleet state's device maps, the fan-out and scoped blobs, the pairing words
-- and the protocol frames. They are calls of other crates for the most part.
pub mod Base
pub mod Primitives
pub mod Pq
pub mod Fleet
pub mod Phonebook
pub mod Tests
pub mod Attest
pub mod Traverse
pub mod Fstate
