-- ===== src/Lib.antt =====
-- rsticulum: a Rust implementation of the Reticulum network stack with named data on top.
--
-- The program is a stack of crates. A packet (crates/packet) is a flags byte, a hop count, one or
-- two 16-byte hashes, a context byte and a payload. Interfaces (crates/interface) carry packets
-- over byte streams in HDLC or KISS frames. A link (crates/transport) is a handshake between two
-- addresses and then two queues of sealed packets; a channel (crates/channel) numbers the messages
-- of a link and puts them back in order, and a buffer makes a stream of them. The named-data layer
-- (crates/icn) forwards interests by name prefix and returns data to the faces that asked. A mesh
-- router (crates/mesh) keeps the best route to each destination and discovers routes by requests
-- and replies.
--
-- Which file models what:
--   Prelude and its children: shared names, lists over native numbers, byte strings with Rust's
--     indexing and slicing (a bad index is `panic`), results, bits, hash maps as association lists.
--   Identity/RnsAddress: crates/identity/src/rns_address.rs (RnsAddress).
--   Identity/Encryption: crates/identity/src/crypto.rs and the public keys of keys.rs;
--     Encryption/Tokens and Delivery hold the proofs.
--   Packet: crates/packet/src/packet.rs (pack_flags, unpack_flags, Packet::to_bytes, from_bytes, the
--     constructors); Packet/Flags, Codec, Parsing and Hops hold the proofs.
--   Interface/Framing: the loop of crates/interface/src/tcp.rs that feeds bytes to a decoder.
--   Interface/Hdlc: crates/interface/src/hdlc.rs. Interface/Kiss: crates/interface/src/kiss.rs.
--   Interface/Serial: the framing of crates/interface/src/serial.rs and its read loop.
--   Crypto/Hkdf, Token: crates/crypto/src/hkdf.rs and token.rs, over Crypto/Cipher.
--   Transport/Proof: crates/transport/src/proof.rs. Transport/LinkData: encrypt_link_data and
--     decrypt_link_data. Transport/Link, Link/Fields, Link/Handshake, Link/Messages:
--     crates/transport/src/link.rs (Link); Link/Agreement, Delivery and Carrying hold the proofs.
--   Transport/Resource: crates/transport/src/resource.rs (Segment, SegmentTracker, Resource), with
--     ResourceConfigBuilder and ResourceAdvertisement in Resource/Config; Resource/Presence, Tracker,
--     Chunks, Transfer, Delivery and Integrity hold the proofs.
--   Transport/PacketTransport: crates/transport/src/packet_transport.rs (PacketTransport), with the
--     proofs in PacketTransport/Fragments, Arrivals, Reassembly, Delivery and Sizes.
--   Transport/Suspendable: crates/transport/src/suspendable.rs (SuspendableLink), the calls that
--     change its state, with those that send and receive in Suspendable/Messages;
--     Suspendable/Replay, Validity, States and Losses hold the proofs. A call is a function on one
--     record; States makes a step relation of the calls.
--   Channel/Envelope: crates/channel/src/message.rs. Channel: crates/channel/src/lib.rs (Channel);
--     Channel/Window, Ordering and Sending hold the proofs.
--   Buffer/Message, Buffer: crates/buffer/src/lib.rs; Buffer/Streaming, Crossing and
--     Delivery hold the proofs, over the runs of calls in Buffer/Runs.
--   Icn/Name: crates/icn/src/name.rs. Icn/Fib: crates/icn/src/fib.rs. Icn/Pit: crates/icn/src/pit.rs.
--     Icn/Varint, Selector, Interest, Metadata, Data: crates/icn/src/interest.rs. Icn/Strategy:
--     crates/icn/src/strategy.rs. Icn/ContentStore: crates/icn/src/cs.rs;
--     ContentStore/Lookup and Keeps hold the proofs, and ContentStore/Toy is a cache for tests.
--     Icn/Forwarder: crates/icn/src/forwarder.rs (Forwarder), the tables and their small
--     operations, with express, forward_and_wait, multicast_and_wait and receive_data in
--     Forwarder/Pipeline; Settled, Completion, Routes, Verified, Runs and Produced hold the proofs.
--   Mesh: crates/mesh/src/routing.rs and path_request.rs; Mesh/Routes and Replies hold the proofs.
--     Mesh/Udp: the peers of crates/mesh/src/udp.rs; Udp/Takeover holds the proofs.
--   A module named Tests applies the theorems at concrete inputs.
--
-- A state is a record with the fields of the Rust struct, and a method returns the new record
-- beside its result. A `panic` of the Rust code is the third case of a result. A machine integer
-- is a natural number with its wrap-around written out; arithmetic that Rust checks for overflow
-- panics. Time and randomness are arguments.
--
-- Loops are recursions on a list. Some take a number of rounds: the expansion of HKDF, which
-- counts its blocks, the writer of variable-length integers, where ten rounds are enough for 64
-- bits, the chunks of a blob and the calls that write a stream, at most as many as there are
-- bytes, and the drain of a channel's reorder buffer, whose rounds are as many as the buffer has
-- entries: each round takes one out, so the loop ends by its own test before they are used up. The
-- loops over the segments of a resource or the fragments of a message count to its total. A call
-- of the forwarder that waits on a channel is `waiting`, and a run of calls in which one waits for
-- ever is `stuck`.
--
-- What is a parameter: the MAC, the block cipher, SHA-256, Ed25519 and the end-to-end encryption
-- of a key pair where a link uses it, the curves below that encryption, the f64 qualities of the
-- mesh with their comparisons, the LRU cache of the package lru, the codec of a saved session
-- (bincode), the file it is written to, and what a face answers when it is sent to. The records
-- IsCipher, IsCurve, IsSigner and IsLru state what their documentation promises, and toy values
-- show that the promises can be kept.
--
-- Not modelled: sockets, tasks and the daemon around the crates, the text forms of names and
-- addresses, the manifests, the peers and announces of the mesh, and the announces and ratchets
-- of an identity.
pub mod Prelude
pub mod Identity
pub mod Crypto
pub mod Packet
pub mod Interface
pub mod Transport
pub mod Channel
pub mod Icn
pub mod Buffer
pub mod Mesh
