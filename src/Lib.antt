-- ===== src/Lib.antt =====
-- goet, a reconnectable remote terminal in Go (cmd/goet and internal/).
--
-- A client (internal/client) relays the terminal's input to a session (internal/session), which runs
-- a shell on a PTY and sends back what it prints. Both sides speak the messages of
-- internal/protocol over a connection of internal/transport, batch small writes
-- (internal/coalesce), number the payloads that they send, and keep the last of them in a ring
-- (internal/catchup), from which a reconnect sends again what the other side has not received.
--
-- Files, and the code that they model:
--   Protocol           internal/protocol: Message (the structs, constants and errors), Encode
--                      (WriteMessage), Decode (ReadMessage, DecodePayload), Stream (readStreamLoop of
--                      internal/client/client.go and readStream of internal/session/session.go).
--                      Bytes is encoding/binary's BigEndian; Frame, RoundTrip and Faults are proofs.
--   Catchup            internal/catchup/buffer.go. Spec is the queue that the ring holds; Window,
--                      Refine, Store, Replay and History are proofs.
--   Coalesce           internal/coalesce/coalesce.go, with the proofs in Batch.
--   Session            internal/session/session.go: the state and each handler; Loop is the select loop of
--                      Run, with a step for each case, and Pty is internal/session/pty.go. Calls,
--                      History, Runs, Replay, Conns, Guards and Open are proofs.
--   Client             internal/client/client.go: the state, the flush and the handshake; Relay is ioLoop,
--                      with a step for each case of its select, and Run is Run. Handshake and History
--                      are proofs.
--   Client.Escape      internal/client/escape.go; Buffers and Detect are proofs.
--   Transport          internal/transport: the authentication of tcp_listener.go, tcp_dialer.go,
--                      session_listener.go and client_dialer.go, with internal/auth; Demux is tcp.go.
--                      Accept, Honest and Demux.Order are proofs.
--                      Demux.Life is a tcpConn from its making on. TcpListener is the Accept of
--                      tcp_listener.go, with the proof in Settled; Sockets is what the listeners and
--                      diallers open and close, with the proof in Clean: the Close of a transport of
--                      quic-go, which the repository does not hold, leaves the socket that it was given.
--                      Transport.Dual is dual_listener.go, with the proofs in Dual.Account and
--                      Dual.Proved.
--   Session, Client    Silent, Stream, Stream.Held, Stream.Accept and Stream.Steps say what a session sends on one
--                      connection; Client.Shown and Client.Receipt what a client shows, and Client.Sent with
--                      its children what it sends on one connection.
--   Client.Stdin       readStdin, and what the stdin cases of ioLoop let through of its chunks.
--   Session.Exit       the deferred calls of Run, and readPTY. Session.Shell is a proof.
--   Link               the client and the session joined by connections, as a step relation; Round,
--                      Joined and Output are the proof. Idle and Typed say what a session writes to
--                      the PTY. Link.Input is the relation for what is typed, with the proof in
--                      Kept, Fed and its children, and Order.
--   Bootstrap          internal/client/ssh.go: the destination, the arguments and the port; Install is
--                      the parsers of install.go, Spawn is SpawnSSH with installRemote and what they call.
--                      Destination, PrintedPort, Current, Clean and Agreed are proofs.
--   Command            cmd/goet/main.go; Flags is the package flag of Go, and Handover
--                      and Bootstrapped are proofs.
--   Text               strings, bufio and fmt of Go on ASCII texts, encoding/hex and strconv.
--   Prelude            shared names, Boolean tests on numbers, and lists.
--
-- How values are modelled. A byte, an unsigned integer and a Go int are numbers of ℕ, with the
-- conversions that wrap written out; int64 and the replay size are integers ℤ. A slice is a list.
-- A struct is a record, and a method takes it and returns it with the results. A result that Go
-- returns as a value and an error is a data type with both, and with `panic` where the code can
-- panic. An io.Reader is the bytes that it gives and the error that ends them; an io.Writer is a
-- parameter, any function that returns the new state and perhaps an error.
--
-- What a session or a client does outside itself (writes to a connection, the PTY or stdout, the start of
-- the shell) is a list of effects, the newest first. Whether a call succeeds is said by `fate`, a
-- function of that list, so a statement for every `fate` is one for every environment. What comes from
-- outside (messages, output of the PTY, input, timers, new connections) is an event of a step.
--
-- Fuel. The eviction loop of Store has as much as there are entries, and drops one each round. The
-- reading loop of Stream wants more than the bytes of the reader, since each message takes five.
--
-- The clocks and the connections of Link. An event of the client or of the session can come at any time that its case
-- is ready. A connection gives the client the data that the session wrote to it, in order and as far as it arrives; a
-- session may accept it late, or not at all, or close it while the client still reads. Link.Input takes it as one step when
-- the session accepts a connection and the client reads the SequenceHeader there: before it the client writes no
-- data to the connection. The session may read what was written to it also after the client has given it up.
--
-- An int is of 64 bits. Bootstrap takes what ssh, the network and the local files answer from a record of
-- results, and lists the calls in order, with the processes that are started and killed and the files that are made and
-- removed. strconv.ParseInt with base 0 is a parameter of Command, of which Handover uses that it reads what Itoa
-- writes.
--
-- HMAC-SHA256 is a parameter of Transport, any function of the key and the message.
--
-- Not modelled: the mutex of the ring (each method runs whole under it), logging, the text on stderr, the
-- profile (statistics of quic-go, formatted with floating-point numbers), TLS, quic-go, signals, the deadlines of
-- reads (one that passes is a read that fails), the methods of a quicConn that only pass a call on to one of its
-- streams, and the shells that take the words of a command on the remote host.
pub mod Prelude
pub mod Protocol
pub mod Catchup
pub mod Coalesce
pub mod Client
pub mod Session
pub mod Transport
pub mod Link
pub mod Text
pub mod Bootstrap
pub mod Command
