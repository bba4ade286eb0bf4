-- ===== src/Lib.antt =====
-- clipbeam-cli: the receive side of a clipboard and file transfer tool in Go (internal/), and the
-- client's reading of its replies (cmd/clipbeam).
--
-- A request reaches internal/ingest over HTTP or, as a CB01 frame, over SSH. Ingest counts its
-- payloads and hands them to the receive store (internal/store), which names each file through the
-- sanitizer (internal/sanitize), writes it atomically, and keeps the last path, the recents, the
-- queue of agent items with its parked receivers, and the journal of agent items for receivers
-- that run without a daemon. Tokens (internal/auth) and the class of the caller
-- (internal/classify) decide who may send.
--
-- Files:
--   Prelude    the shared names, byte strings, tests, and the lemmas on lists
--   Go         what the source uses of package strings, unicode/utf8, path/filepath, time,
--              strconv and of the varints of encoding/binary
--   Sanitize   internal/sanitize/sanitize.go
--   Disk       the file system: the entries by path
--   Waiters    internal/store/waiters.go; Waiters/Steps has its interleavings as a step relation
--   Store      internal/store/fsutil.go, and the save pipeline of internal/store/concrete.go
--   Receive    the operations of internal/store/concrete.go, internal/store/recents.go and the
--              write side of internal/store/agentjournal.go
--   Drain      the drain side of internal/store/agentjournal.go
--   Ingest     internal/ingest/ingest.go
--   Cb01       internal/sshx/cb01.go and internal/sshx/cb01_map.go
--   Auth       internal/auth/auth.go
--   Wire       internal/wire/ceiling.go
--   Classify   internal/classify/classify.go
--   Httpd      internal/httpd: JsonString is jsonstream.go, Json, Clip, Envelope, Decode and Clips are
--              clip.go (helpers, items, envelope, decodeAndIngest, handleClip with
--              singleflight.go), Gate is gate.go, Response is response.go, Routes is routes.go;
--              Clips/Flight has the requests at the same time as a step relation
--   Config     internal/config/alias.go
--   Cli        cmd/clipbeam/cli: RecvParse is recvparse.go, Exit is exit.go and errors.go
--   Tests      the theorems at concrete inputs, here and in the modules of that name below others
--
-- Functions keep their names in snake_case: CleanLeaf is Sanitize.clean_leaf, saveStream is
-- Store.save_stream, DecodeCB01 is Cb01.decode. A string is the list of its bytes. State is passed
-- and returned as a record (ReceiveStore, Fifo, PathWaiters, Disk). The outcome of a system call
-- that can fail, the clock and random names are arguments (Os, Create, Fault, Call); the removal of
-- the temporary files of a request is taken to work. The JSON codec, filepath.EvalSymlinks,
-- netip.ParseAddr, strings.TrimSpace, crypto/rand, crypto/subtle and the base64 decoder are
-- parameters. A
-- function that reads a request's body returns a value with the bytes left, or an error (Outcome);
-- a body ends with io.EOF or with an error that is an argument, http.MaxBytesReader's among them.
--
-- Bounds: the search for a free name (Store.probe) has as many rounds as the disk has entries,
-- which is enough because the candidates differ; a decimal numeral has 20 digits, a varint 10
-- groups, and a Base32 step gives up two groups at most. Numbers are unbounded but where the
-- source's width matters: the varints are uint64, a payload size of 2^63 or more reads nothing, the
-- Base32 accumulator wraps at 2^32, and the raw ceiling of a request is an int of 64 bits. The
-- loops of the request parser take a byte off the body in
-- each round, and each level of nesting takes one off, so they have as many rounds as there are
-- bytes and one more; a read of a JSON string has as many as its buffer has bytes. The stack of a
-- goroutine is not modelled: the program ends where a body nests brackets deeper than it holds.
--
-- Not modelled: file modes, timing, the marshalling of JSON, the listeners of internal/httpd and the
-- drain of a body after a 413, the files of the configuration (the rest of internal/config), the SSH
-- session (the rest of internal/sshx), internal/tailscale and the verbs of the command line
-- (cmd/clipbeam), which are mostly calls of the operating system and of libraries.
pub mod Prelude
pub mod Go
pub mod Sanitize
pub mod Disk
pub mod Waiters
pub mod Store
pub mod Receive
pub mod Ingest
pub mod Cb01
pub mod Auth
pub mod Classify
pub mod Wire
pub mod Drain
pub mod Httpd
pub mod Cli
pub mod Config
pub mod Tests
