-- ===== src/Lib.antt =====
-- A verification library for road-1337, an end-to-end encrypted messenger over a blind relay, in Go.
--
-- Two clients share a key by ECDH and talk over a relay that knows only hashes of public keys. A
-- client frames each application payload (internal/protocol/protocol.go), pads and encrypts it into a
-- packet of 4096 bytes (internal/crypto/cipher.go), puts the recipient's key hash before it and
-- writes that to the relay (internal/client/client.go). The relay reads frames of 4128 bytes and
-- forwards the packet to the connection registered under the hash (internal/relay/relay.go). Public
-- keys are shown and typed in Base58 (internal/crypto/base58.go).
--
-- Files
--   Base            names of the libraries, Boolean tests, results, lists, tables, big-endian words
--   Protocol        internal/protocol/protocol.go: WireHeader, BuildMessage, BuildFileChunk,
--                   BuildFileEOF, FileHeaderPayload and HandshakePayload with their codecs;
--                   Header, File and Handshake hold the proofs on each of them
--   Crypto/Base58   internal/crypto/base58.go: EncodeBase58 and DecodeBase58; Digits and Alphabet
--                   prove facts on radix digits and letters, RoundTrip those on the two functions
--   Crypto/Cipher   internal/crypto/cipher.go: NewSession, Seal, Open, Zeroize; proofs in RoundTrip
--                   and Opening
--   Crypto/Keys     internal/crypto/keys.go: key pairs, ECDH, the Base58 form of public keys. Disk has
--                   the paths and files, Store the encrypted key file, with its proofs in Stored,
--                   Reload and Manual; Standins instances of its parameters
--   Crypto/Hex      the package encoding/hex, as keys.go uses it
--   Crypto/Standins small instances of the AEAD and the random source, for runs only
--   Relay           internal/relay/relay.go: New, the accept loop's body (accept), handleConn,
--                   doHandshake, register, evict, a round of relayLoop (relay_round), sweepStale,
--                   isFull, PeerCount and the part of Stop on the table. Steps interleaves them;
--                   Table, Invariant and Gone prove lemmas on single operations, Reachable, Sweep,
--                   Routing, Evicted and Silence what follows; Written is what one connection got;
--                   Directory states what the relay does to its table of routes, and no more;
--                   Capacity how large the table can get, Shutdown what Stop reaches
--   Relay/Listener  internal/relay/relay.go: Run, Stop and sweepLoop around the server, with the
--                   listener; Early is on a Stop that comes before Run has its listener
--   Relay/Snapshot  internal/relay/relay.go: Snapshot
--   Client          internal/client/client.go: the session, Zeroize, abortWithMsg, sendPacket and
--                   sendChunkFragmented; proofs in Send, Chunks and Teardown
--   Client/Connect  internal/client/client.go: NewSession (new) and connect; Outcomes has the ways in
--                   which connect ends
--   Client/Outgoing internal/client/client.go: rounds of sendLoop (send_line) and pingLoop (ping),
--                   sendFile, getSavePath. Pieces, SendFile, Sent and WholeFile follow a file from the
--                   sender's disk to the receiver's; Header, Paths and Lines hold further
--                   proofs
--   Client/Incoming internal/client/client.go: a round of recvLoop, dispatch, recvFile, appendChunk;
--                   Transfer follows a file from its header to its last chunk, Delivery from the
--                   sender to the receiver; Torn and Loop are on the whole of recvLoop
--   Client/Goroutines  internal/client/client.go: the session's goroutines as steps that interleave
--   Client/Races    internal/client/client.go: sendPacket in the pieces between which Zeroize can run,
--                   one call in Interrupted, many in Held and Silent
--   Client/Terminal internal/client/client.go: peerDisplayKey, and the model that Run starts with
--   Client/Events   internal/client/client.go: the messages for the interface, with their texts
--   Conversation    two connected clients and the relay between them; Messages and Spoken have many
--                   messages, Lines the lines that the send loop takes, Screens what is typed here and
--                   shown there, Files a file from the one disk to the other
--   Onboard         internal/onboard/onboard.go: IsFirstRun, MarkDone and the sentinel file; Run and
--                   its guides in Guide, English and Russian, over the console of Console
--   Command         cmd/road-1337/main.go: run, generate-keychain, restore-key, the start of a chat,
--                   the hidden prompts. Target has lemmas on a chat's target, Keychain on what
--                   generate-keychain leaves, Chat and Restore the properties of whole commands;
--                   Usage the banner and printUsage, Server the commands server and tui
--   Tui             internal/tui/tui.go: the model, pushMessage and renderHistory; Styles the palette,
--                   Update holds New and Update, Program the program around them, View the screen,
--                   Progress RenderProgress; proofs on the history in History and Typing, on the
--                   locked input in Lock; Standins has widgets that are plain texts, for runs only
--   Runs            beside the component each is about: concrete runs
--
-- Modelling
--   Byte slices and strings are lists of numbers; IsBytes says that each is below 256. Words keep
--   their wrap-around (% 2 ^ w). An error is a constructor of the package's own type. `copy` into a
--   slice, `make` and slicing are functions of Base with the behaviour that Go gives them.
--   The AEAD, the random source and SHA-256 are parameters. The AEAD's laws are the documented ones:
--   sealing adds a tag of 16 bytes, and opening what was sealed under the same key and nonce gives the
--   text back. Nothing is assumed on forging. Reading n random bytes gives n bytes or fails.
--   X25519, HKDF and Argon2id are parameters: the shared secret is the same from both sides, and a
--   derived key has the length asked for. So is JSON: what was printed is parsed back, for ASCII text
--   and for what parsing gave. The disk is a table from paths to files; a write can end before or
--   within the data.
--   A file that is sent is its size, what each read gives, and how reading ends. Paths are those of
--   systems other than Windows.
--   A command is a function from a host (its environment, and the parameters above) and a world (disk,
--   random source, the lines to be typed, what was shown) to a result and a new world; what it goes
--   on to run (the relay, the demo, a chat) is the result. strings.TrimSpace is a parameter.
--   A relay connection is a number, the peers live in a heap, and the table maps key hashes to
--   numbers, as the source's map holds pointers. The network, the disk and the clock enter as
--   arguments: how a write ends, how creating a file ends, what time it is. Goroutines are sequences
--   of steps, one for each section that the source runs under its lock. A client file is the sequence
--   of bytes written through its handle.
--   sendPacket is modelled twice: whole, as one step of a session, and in pieces with the teardown
--   between any two, where a call holds the pointers that it took. The cipher session is one object
--   then, out of which Zeroize takes the AEAD. Setting a deadline on a closed connection fails, and so
--   does writing to it. An eviction of the relay is one step, or closes the connection in a step
--   before. A round of recvLoop is one step, without the teardown inside it.
--   le_digits and alphabet_digits run on fuel n for a number n: a round divides it by 256 or 58, so
--   it reaches 0 first. send_fragments runs on the length of the data, of which a round takes a byte
--   at least.
--
-- Not modelled: the rendering of a style and the widgets, which are parameters of internal/tui; in
--   cmd/road-1337 the parsing of flags, which is a parameter, the exit code, and the clearing of a key
--   pair at the end of a command; the relay's pool of buffers (a buffer is cleared before it goes
--   back) and its log (which is discarded); the waiting in the client's loops and on a full channel,
--   and the start of the Bubble Tea program in Run.
pub mod Base
pub mod Protocol
pub mod Crypto
pub mod Relay
pub mod Client
pub mod Conversation
pub mod Onboard
pub mod Command
pub mod Tui
