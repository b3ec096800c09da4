-- ===== src/Lib.antt =====
-- A verification library for edet, a mutual-credit ledger replicated by its members' validators.
--
-- The program: crates/kernel is the economic kernel, pure functions over integer amounts;
-- crates/state is the ledger's state machine, which calls the kernel for every question of
-- capacity; crates/node keeps blocks, the mempool and the replicas that apply the state machine;
-- crates/view serves what a viewer may see. A member may owe what the maximum flow from the
-- underwriters carries to them over the stakes of those whom they paid back. An insured
-- obligation reserves the flow that justified it, and settling it gives that flow back.
--
-- What is modelled, and where:
--   Base, Map, Bytes  lists and Boolean tests over the native numbers, BTreeMap as a list of entries
--                     in ascending key order (Map/Keys, Map/Strings: the orders of the keys;
--                     Map/Laws; Map/Sizes; Map/Amounts: maps of amounts without empty entries), and byte
--                     strings with u64::to_be_bytes
--   Kernel            crates/kernel/src/flow.rs, every function of it
--     Cursor          ReservedCursor: new, at
--     Held, Routes    Held, Path (here Route), decompose, from_paths
--     Network         Network::build with one function for each of its loops, arc, index, out
--     Search          Network::levels and Network::flow with one function for each branch of its
--                     inner loop
--     Capacity        capacity, capacity_of, conferrable, reserve, release, supply_floor, totals
--     Standing        stake, decay
--   State             crates/state/src
--     Journal         journal.rs: Dirty, Journal with its operations under their own names, but
--                     insert (put), remove (delete) and retain (keep); a function that hands out a
--                     reference takes what the caller writes through it
--     Ledger          state.rs: the fields and the functions on standing, in minor units:
--                     capacity_of_set_minor, conferrable_minor (conferrable_by), seed_reach_minor,
--                     seat_reach_minor, can_seat_minor, reserve_seat, release_seat, fits_capacity,
--                     insurable_minor_after_release, reserve_capacity_minor, release_capacity,
--                     supply_floor (floor_of), record_stake
--     Replay          state.rs and apply.rs: the clock of begin_block, is_applied, record_applied,
--                     forget_applied, prune_expired_applied_ids (prune), and apply_with_cache
--                     (apply_tx) as the window of applied ids sees it: what the bond gate and the
--                     transition decide is an input, the Verdict
--     Loss            loss.rs: allocate, split_edges and shrink, which divide a hold
--     Root            root.rs, with SHA-256 as a parameter: its domains, tags and hashes, under
--                     their own names (fold_level, merkle, fold_path in Root/Tree; SectionTree with
--                     built, refold and path in Root/Levels; verify in Root/Proof; the leaves'
--                     encodings in Root/Leaves, with an encoder of bincode for each type of value
--                     as a parameter; section_leaves, sections and state_root in Root/Sections;
--                     prove and record_value in Root/Prove; RootCache in Root/Cache and, with
--                     refresh, full_build, rebuild, patch and its prove (prove_cached), in
--                     Root/Refresh)
--   Node              crates/node/src
--     Mempool         mempool.rs: push, contains (has), batch, remove_committed; the content hash of
--                     a transaction and the order of a walk over a HashSet are parameters
--     Block           block.rs: time_is_monotonic, time_is_plausible, deterministic_validity and
--                     tx_digest, with authorises, SHA-256 and the encoding of an envelope as
--                     parameters
--   View              crates/view/src
--     Party           Party of crates/state/src/types.rs
--     Pending         pending.rs: PendingPool with prune and tombstone; invite_message and
--                     invited_by in Pending/Invitation; sign and decline in Pending/Sign, the room
--                     in a full pool in Pending/Reclaim; live_count, for_party and awaits in
--                     Pending/Inbox. The signing scheme and SHA-256 are parameters; a transaction is
--                     its kind, the sides of its trade and the rest; the ledger is its chain and
--                     its index of keys
-- The children of a module hold its proofs, and Tests its tests and the theorems at concrete
-- inputs.
--
-- How state and integers are read. A function that writes through `&mut` returns what it wrote.
-- Amounts, account ids and arc ids are natural numbers. The build keeps overflow checks on, so an
-- addition that does not fit 64 bits stops the node instead of wrapping: the model covers the runs
-- in which none stops. Subtraction on the naturals stops at 0, as saturating_sub does; where the
-- source subtracts plainly the amount is there. A cast that can lose bits is written `% 2 ^ 64`. A
-- read past the end of a vector stops the node in the source and gives a default here. The mark
-- u32::MAX of a node without a slot or a level is `none`.
--
-- Loops. The queue of levels runs on the number of nodes, since a node joins it once; a phase runs
-- on (2 * arcs + 2) * (nodes + 2) turns; the phases run on the limit, since a phase finds a unit;
-- a walk of decompose runs on the number of held edges, since it enters a node once. The loop of
-- begin_block runs as often as the epoch is short of its target. The loops over the levels of a
-- tree run on the number of its leaves, since every level above the first is shorter than the one
-- below; so does the loop of fold_path, on the leaf count that the proof claims.
--
-- The state root. record_leaves collects one list in order on either of its branches; where its
-- rows fail to encode in more than one place, the parallel branch may return another of the errors
-- than the first, which is the one returned here. An error ends a run: what a refresh that failed
-- leaves in its cache is not kept. The counters of the cache are natural numbers.
--
-- The ledger calls the kernel through Kernel/Capacity and Kernel/Standing, on the rows of its
-- journals, and the journals report to the state root what a block wrote.
--
-- Not modelled: the floating-point allocation and risk score of the kernel, the conversion between
-- wire amounts and minor units, the transitions of crates/state, the encodings of bincode, what begin_block does to members,
-- stakes and bonds, the rest of crates/node, disclosure in crates/view, the other crates, the wallets and the simulator.
pub mod Base
pub mod Map
pub mod Bytes
pub mod Kernel
pub mod State
pub mod Node
pub mod View
