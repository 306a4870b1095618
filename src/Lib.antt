-- ===== src/Lib.antt =====
-- Courier sends a file over UDP as a bundle of chunks, with XOR parity chunks for the lost ones.
-- This library models the Python package `courier`: each of its classes that is modelled is a
-- module, its state a record, and each method a function that takes the state and returns the new
-- one.
--
-- Chunk is the dictionary of one chunk, Config the configuration records (courier/config.py). Fec
-- holds the XOR loops of `SendEngine._xor_chunks` and `ReceiveEngine._xor_bytes`. Layout is
-- `ReceiveEngine._infer_block_and_data_count`. Protocol is courier/protocol.py with the window of
-- a SACK. Storage is `SQLiteStorage` (courier/storage.py): tables are lists of rows in rowid
-- order, and a method is the statements it runs. Chunking is `SendEngine._create_chunks` with
-- `_generate_fec_chunks` (courier/send_engine.py). Receiver is `ReceiveEngine`
-- (courier/receive_engine.py): `handle_data` with all that it calls; Receiver.Chunks has what it
-- does to the receive state of one bundle. Transfer joins the two: the messages of the chunks
-- reach `handle_data` as an arbitrary list of arrivals, in which chunks may be lost, repeated and
-- reordered.
--
-- Wire is courier/network_io.py: the messages to bytes and back, with Wire.Struct for what it
-- uses of Python's `struct` and Wire.Utf8 for the coding of text. The module `json`, in which it
-- writes the ranges of custody messages, is a parameter (Wire.Json). A message that
-- `send_message` refuses is `none`.
--
-- The receive engine is proved against Receiver.Contract, which says what a bundle is laid out
-- like and what its payloads are good for; Transfer.Bundle shows that what Chunking makes meets
-- it.
--
-- Custody is `CustodyManager` (courier/custody_manager.py), with the calls of its methods as a
-- step relation (Custody.Step, Custody.Steps); its points of time are a parameter
-- (Custody.Clock). Storage is not changed by others between the calls.
--
-- Sender is the rest of `SendEngine` (courier/send_engine.py): the window, the acknowledgements,
-- the timers and the retransmissions, with the calls of its methods as a step relation
-- (Sender.Calls). Python's floats are a parameter, the operations of Sender.State.Floats; a
-- property that needs one of their laws has it as a hypothesis. The order in which Python runs
-- through a set is an argument too.
--
-- Node is courier/node.py: the engines over one storage and one network, which are fields of the
-- node and are handed to an engine for each call. Node.Windows has what happens to a node as a
-- step relation, and Node.Delivery joins two nodes: what one hands to its network reaches the
-- other as an arbitrary list of arrivals. Node.Confirmation adds the way back of the DELIVERED
-- message, and Node.Resending is about a round of the event loop. Cli is courier/cli.py by its
-- exit codes. Config also has `load_config`, for which what `yaml` reads from the file is an
-- argument.
--
-- Storage.Refinement has the view of a storage as three finite maps, which forgets the order of
-- the rows. What a column or `json` changes of a value is in the model: a checksum comes back as
-- a text, ranges as lists.
--
-- Common holds the shared types and lemmas: tests on ℕ, lists with Python's indexing and slices,
-- dictionaries, the sorted sets of ids, CRC-32, decimal numbers, integers.
--
-- Bounds: numbers are natural numbers, as the program's counters and ids are never negative; the
-- watermark of a SACK, which may be -1, is an integer. The search for a block count runs over
-- `range(1, total_chunks + 1)` and has that many rounds of fuel, so it is the loop of the source.
-- The loops over bytes have the number of rounds that their `range` gives them.
--
-- Outside: the time, the disk, and the random numbers are arguments of a step
-- (Receiver.State.Env). The time to live of a bundle is compared in milliseconds. What
-- `network_send` returns is not read by the receive engine; to the send engine it is an argument,
-- by the number of the messages before. Its effect is a list of messages. The loop that moves the
-- start of a window has the number of chunks left as fuel, which is the most that it can pass;
-- the queue of retransmissions is a structural recursion.
--
-- Not modelled: argparse, printing and logging, the sockets, threads and signals (but for the
-- exit code of `send` after one), and the check of a checksum (the program has none). Each
-- handler, each call of the command line and each round of the event loop is one step of the
-- node, although the program's threads may interleave within them.
pub mod Common
pub mod Chunk
pub mod Fec
pub mod Storage
pub mod Layout
pub mod Protocol
pub mod Config
pub mod Chunking
pub mod Receiver
pub mod Transfer
pub mod Custody
pub mod Wire
pub mod Sender
pub mod Node
pub mod Cli
pub mod Examples
