-- ===== src/Lib.antt =====
-- FrameMC, a proxy for Minecraft servers: a model of its protocol core and of a player's session.
--
-- A client connects, sends a Handshake and a LoginStart, is authenticated, and is joined to a
-- backend server. Everything travels in packets: a VarInt length, a VarInt id and a payload, which
-- is compressed above a threshold once the server says so. The proxy logs in at the backend in the
-- player's name and forwards the player's profile by one of three modes; in the Configuration state
-- it keeps a copy of the registries that the backend sends, to replay them after a transfer.
--
-- Files, and the code that they model:
--   Prelude        shared names, tests, lists, machine words, lemmas on bits
--   Error          src/error.rs: `ProxyError` without message texts, and `Result`
--   Varint         src/protocol/varint.rs: `read_varint`, `decode_varint`, `encode_varint`,
--                  `varint_size` and the same for VarLongs; one loop over a `Format`
--   Wire           the reading of a cursor that all decoders share, as a monad `Reader`; UTF-8
--   Packet         src/protocol/packet.rs: `RawPacket`, `frame`, `is_protected_plugin_channel`
--   Codec          src/network/codec.rs: `read_packet_with_compression` and
--                  `encode_packet_with_compression`; SetCompression, Disconnect
--   Profile        src/crypto/mojang_auth.rs: profiles, and their properties on the wire
--   Handshake      src/protocol/handshake.rs
--   Login          src/protocol/login.rs: one module per packet
--   Config         src/config.rs: the settings' records
--   Stream         a connection to a peer as a state: the bytes that come, the bytes written
--   Forwarding     src/protocol/forwarding.rs: payloads, plugin packets, `dispatch_forwarding`
--   Configuration  src/protocol/configuration.rs: registry packets, `SessionRegistryCache`
--   Digest         src/crypto/mojang_auth.rs: `mojang_sha1_digest`, `offline_profile`
--   SessionServer  src/crypto/mojang_auth.rs: `verify_session_with_url`, `urlencoding`
--   Status         src/protocol/status.rs: `handle_status_with_version`
--   Polls          a stream that is polled: its answers are a list, and the list's end is Pending
--   Aes            src/crypto/aes.rs: `EncryptedStream` and its polls; Pending is about
--                  `flush_pending_write`, Order about every run of a stream
--   Play           src/routing/state_machine.rs: the packets of commands and completions, those that
--                  reset a client before a transfer, Respawn and the Respawn that is cut out of a
--                  Login (FromLogin), SystemChatMessage, and the injection into DeclareCommands
--   Script         src/script: the values of scripts, the events and hooks of events.rs (Events,
--                  Hooks), the host of engine.rs (Host) and its store (Store)
--   Machine        src/routing/state_machine.rs: `PlayStateMachine` as a record, and its methods:
--                  Tracking and Backend for `handle_backend_packet` and `handle_backend_eof`,
--                  Client for `handle_client_packet`, Teardown, Configure and Switch for
--                  `switch_server`, Run for the loop `run`; Connector for `TcpBackendConnector` and
--                  `connect_and_forward` of src/protocol/forwarding.rs; Invariant about every state
--                  that the loop reaches
--   Listener       src/network/listener.rs: `handle_login_auth`, `handle_login`, `constant_time_eq`
--   Samples, and the modules called Examples: inputs, tests, and an instance of each result
--
-- State and operations. A byte is a number, a `String` the list of its UTF-8 bytes, a `Uuid` a list
-- of 16 bytes. An `i32` is its bit pattern, a number below 2 ^ 32, and `as_usize` extends its sign
-- to 64 bits, as the code's casts do. A reader is the list of bytes that it still gives; a read
-- past its end is an `UnexpectedEof`, which is what `read_exact` gives at the end of a stream. A
-- `BTreeMap` is a list of entries in the order of their keys. `&mut self` is a state that is passed
-- on: a method that fails returns the state with its error.
--
-- How the parts interact. The loop of `Machine.Run` reads a packet from one of two streams with
-- `Codec` and gives it to a handler. The client's handler asks the hooks of `Script` and may call
-- `switch_server`; that connects by the connector, which uses `Forwarding`, configures the new
-- backend into the cache of `Configuration`, and swaps the streams. The backend's handler tracks
-- what the client shows, and after a transfer turns the Login of the new backend into a Respawn of
-- `Play`. A `HashSet` is the list of its members, each once.
--
-- Loops. The readers of VarInts recurse on their input. The writers recurse on the word that is
-- left, which a shift by seven makes smaller, and the loop that reads a body in chunks of 64 KiB on
-- the count that remains: both by accessibility of `<`, so that no fuel is needed. The loop that
-- flushes pending bytes uses up one answer of the stream below per round. The loop that configures a
-- new backend has one round more than the backend has bytes left, and each packet takes at least one;
-- in the source it has ten seconds for each packet and no limit on the whole, and what a backend sends
-- is a finite list only in the model;
-- the loop over NBT tags has a round per byte. The loop of a session takes one event of a list per
-- round, which says what woke it, and is unfinished where the list ends.
--
-- Parameters: the zlib of flate2 (`Zlib`, with the law that inflating what was deflated gives it
-- back up to the limit, `IsZlib`), HMAC-SHA256, the texts of UUIDs and JSON (`Crates`, `UuidText`,
-- `Json`), SHA-1 and hexadecimal digits (`Digests`), and AES in the mode CFB8 (`Cipher`, with the
-- laws `IsCipher`: blocks are worked on in order, and a decryptor undoes an encryptor).
-- A time limit is an argument that says whether it passed. A session is given a `World`: zlib, JSON,
-- the Rhai engine (compile, the functions of a script, a call that returns a value and a new store),
-- the texts of errors, and the orders of hash maps; and in every step a `Chance`: what a connection
-- to a backend gives, and whether ten seconds pass before a packet. A login is given an `Authority`:
-- the RSA keys, the random token, the HTTP client (`Http`), and the cipher.
--
-- Not modelled: message texts of errors, logging, buffer capacities, the zeroizing of secrets, the
-- failing of writes of the operating system; that `select!` drops a read of which a part was done;
-- what other sessions write to the scripts' store between two calls; the limits of the script
-- engine, the listing of its directory and its clock; the rest of src/network/listener.rs, and
-- src/network/bridge.rs, which build on the parts above; the RSA keys of src/crypto/mod.rs, which
-- are calls of a crate; the files and TOML of src/config.rs; src/main.rs, which is start-up and I/O.
pub mod Prelude
pub mod Error
pub mod Varint
pub mod Wire
pub mod Packet
pub mod Codec
pub mod Profile
pub mod Handshake
pub mod Login
pub mod Config
pub mod Stream
pub mod Forwarding
pub mod Configuration
pub mod Status
pub mod Digest
pub mod Polls
pub mod Aes
pub mod Play
pub mod Script
pub mod Machine
pub mod Samples
pub mod SessionServer
pub mod Listener
