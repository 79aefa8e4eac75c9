-- ===== src/Lib.antt =====
-- Robby, an AT Protocol personal data server: accounts and their sessions in accounts.db, one repository
-- per account, and the firehose of events that relays read.
--
-- The parts and the files that model them, with paths from the repository's root:
--
--   Accounts/  internal/store/store.go, the tables of accounts.db. Rows has the records (Account,
--              RefreshToken, …) and the database itself, Users the operations on accounts, Tokens
--              those on tokens, app passwords and reserved keys, Calls every mutator as one type,
--              Versions how the auth version of an account moves, AppPasswords when one is gone.
--   Auth       internal/auth/auth.go, the issuing and parsing of tokens.
--   Session/   internal/xrpc/session.go, apppassword.go and optionalAccessToken of proxy.go. Principal
--              has the checks of a bearer token, Handlers the XRPC handlers; Authorization, Entitlement,
--              Revocation, AppPasswords and Rotation prove what they guarantee.
--   Firehose   internal/firehose/event.go and internal/carutil/car.go, events and their frames.
--   Sequencer/ internal/sequencer/sequencer.go and internal/xrpc/subscribe.go. Stamp is the text of a
--              time, Log the table of events, Broadcast the channels, Subscribe one subscribeRepos
--              session; Order, Window, Splice and Race prove what they guarantee.
--   ActorStore/ internal/actorstore, the database of one actor: Blocks and Records and Blobs are the methods
--              of store.go and blockstore.go, Manager the stores by DID and their lock; Index, Locking
--              and Listing prove how they read back.
--   Repo/      internal/repoops/writer.go. Indigo has what the code takes from other packages, Batch one
--              operation and a batch, Writer ApplyWrites; Laws is what is relied on in indigo, and Step,
--              Agreement, Replay, Commits and Atomic prove what ApplyWrites guarantees. Owner and Errors
--              are requireOwnRepo and writeWriteError of internal/xrpc/repo.go.
--   Network/   internal/xrpc/clientip.go and safedial.go. Addr is what they use of Go's net/netip, ClientIp
--              the address of a client, Limiter and Buckets the limiter of login attempts, SafeDial
--              and Public the guard of outbound connections.
--   Server/    the state of the Server of internal/xrpc/server.go that the handlers share: accounts.db, the
--              actors' stores and the sequencer. Events appends #sync, #account and #identity events (admin.go,
--              identity.go), Writes is signingKeyFor and the call of ApplyWrites, SigningKey
--              what signingKeyFor reads, Effects what the events leave alone, Toy a concrete server for the examples.
--   Admin/     internal/xrpc/admin.go. Guard is requireAdmin, Accounts and Signup the handlers; LockOut and
--              Approval prove what they guarantee.
--   Identity/  internal/xrpc/identity.go and internal/plc/plc.go. Json is the JSON that a PLC operation is
--              made of, Plc the client of the directory, Handlers the handlers; Operation, Renaming and SignedOnce
--              prove what they guarantee.
--   Migration/ internal/xrpc/migration.go. Car is the transaction of importRepo, Import its handler, Checks and
--              Signup createAccount and reserveSigningKey, Account the other handlers; Paths, Walk, Loaded,
--              Replaced, Atomic and Outcome prove what an import does, Deletion and Reserved the rest.
--   Records/   internal/xrpc/repo.go and preferences.go. Entries and Writes are the handlers that write, Lookup and
--              Reads those that read, Blobs uploadBlob and the preferences; Uploads and Owned prove what they do.
--   Sync/      internal/xrpc/sync.go. Hosted, Blobs and Repos are the endpoints; Paging, Sorting, Pages and
--              Skipped prove what a client gets that follows the cursors.
--   Proxy/     internal/xrpc/serviceauth.go and proxy.go. ServiceAuth is getServiceAuth, Target where a request is
--              passed on to, Forward the request that is sent, Outgoing what it may carry.
--
-- A method or handler of the source keeps its name in this spelling: ConsumeRefreshToken is
-- consume_refresh_token. A handler reads and changes the store in the source's order, and gives an
-- error as a value: the HTTP status and the name of an XRPC error, without its message.
--
-- Conventions. Times are nanoseconds, and one handler runs at one instant `now`; a time that the
-- database keeps as text with whole seconds is cut to the second. A SQL statement fails only on a
-- constraint; a failing disk is not modelled. Auth versions, sequence numbers and cursors are natural
-- numbers without a bound, where the source has int64 and SQLite integers. What is drawn at random
-- (token ids, passwords and their hashes) and a decoded body are arguments. golang-jwt, the verdict
-- of scrypt on a password, SHA-256, indigo's tree, clock, codecs, keys, syntax and identity directory,
-- go-car's reader, Go's parsers of addresses and of HTTP Basic credentials and golang.org/x/time's limiter
-- are parameters, in the records Jwt, Env, Indigo, Parsers, Rate, Syntax, Keys, Signing,
-- Directory, Importing, Validator, ProxyEnv and AdminEnv and in the type Signer. The functions that
-- follow the source need no fuel: every loop of the modelled code runs over a list or a text. Only `follow`, a
-- client of listBlobs, has fuel: one request more than there are blobs, which Sync.Pages shows to be enough.
-- The client of listRepos, `walk`, makes a number of requests that a theorem on it leaves open.
--
-- An actor's store is a value: handlers that open it without the lock of its DID follow one another here as
-- those do that hold it. A request's body is either decoded or malformed, and its size is
-- checked where the handler checks it.
--
-- Not modelled: the layout of CBOR and CAR, opening and closing of databases and sockets, logging, the
-- text of scrypt hashes, the sending of a proxied request, routing and CORS, the catalog of lexicons,
-- the configuration, requestCrawl, and the command line.
pub mod Prelude
pub mod Accounts
pub mod Server
pub mod Admin
pub mod Auth
pub mod Session
pub mod Firehose
pub mod Sequencer
pub mod ActorStore
pub mod Repo
pub mod Identity
pub mod Migration
pub mod Records
pub mod Sync
pub mod Proxy
pub mod Network
