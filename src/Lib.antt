-- ===== src/Lib.antt =====
-- Scrigno: an encrypted document vault. The clients encrypt everything; the server keeps opaque
-- blobs, opaque metadata and wrapped keys, and orders the changes of documents. This library
-- models the Rust crates under crates/ by functions, and proves what makes them correct. Paths
-- are from the repository's root.
--
-- Codec (crates/scrigno-core/src/codec.rs). Codec.Base64 has `base64_encode` and
-- `base64_decode`, Codec.Crockford `crockford_encode` and `crockford_decode`. Text and bytes
-- are lists of numbers. The shift registers are `u32`: the Crockford decoder and encoder keep
-- the wrap at 2 ^ 32 written out. `emit` takes its digits on fuel, as much as bits wait, of
-- which each digit takes five; the round trip shows that nothing is cut off.
--
-- Core (crates/scrigno-core/src). Core has the errors, identifiers, keys and the random
-- generator (error.rs, ids.rs, keys.rs, rng.rs); Core.Kdf is kdf.rs, Core.Recovery recovery.rs,
-- Core.Wrap wrap.rs and Core.Meta meta.rs. Argon2id, XChaCha20-Poly1305, serde_json and the
-- random generator are not part of the repository: they are parameters, `Argon2`, `Aead`,
-- `Json` and the bytes drawn, with the laws of their documentation as the records `AeadLaws`
-- and `JsonLaws`.
--
-- Core.Blob is blob.rs: the encryptor gathers chunks of 1 MiB and seals them, the decryptor reads
-- a segment and one byte more to tell the last one. Core.Stream has what they take from others,
-- as parameters with their laws: the STREAM cipher, a writer and a reader of `std::io`. The loop
-- of `write` has one round more than there are bytes, the reading of a segment as many rounds as
-- the segment has bytes, each of which takes a byte at least.
--
-- Server (crates/scrigno-server/src). Server has the rows, the errors and the database of
-- models.rs, error.rs and the migration; a handler is a function from the database to its
-- answer and the database that is left. Server.Rows has the queries by key, Server.Headers the
-- parsing of `If-Match`, Server.Docs routes/docs.rs, Server.Changes routes/changes.rs,
-- Server.Vault routes/vault.rs, Server.Access auth.rs and json_extractor.rs, Server.Gc gc.rs
-- and Server.Blobs routes/blobs.rs, whose state has the objects of the object store beside the
-- database. Server.Invariant says what is well formed. SHA-256 is a parameter, `Digest`, with
-- the law that a digest does not depend on the chunks; which calls of the object store succeed,
-- the time and the locks of other transactions are arguments. Requests follow one another: what
-- two overlapping transactions do to each other is not modelled. A version is an `i32` in the
-- source; the model refuses the update that would overflow it, as the CHECK of the table does.
--
-- Client (crates/scrigno-client/src). Client has the errors, the rows and the types of
-- error.rs, store.rs and types.rs, Client.Store the tables of store.rs, Client.Vault the
-- unlocked vault of vault.rs and its index, Client.Vault.Cache the cache of blobs,
-- Client.Vault.Edit the methods that change documents (Client.Vault.Edit.Rows lists, field by
-- field, the rows and metadata that they write), Client.Vault.Thumbnail the thumbnails,
-- Client.Vault.Bootstrap the creation, the joining and the unlocking of a vault and its
-- recovery keyslots, Client.Sync the steps of sync.rs and Client.Sync.Rounds its loops. The
-- local database and the directory of blobs are one record, `Store`, and do not fail; a `Uuid`
-- and its text are one number, and so are times. A method gives its answer and the vault it
-- leaves, also on an error. The HTTP client, the clock and the random generator are an
-- `Environment` with a state of its own; the blob cipher and BLAKE3 are `BlobWriter` and
-- `BlobReader`, which Client.Vault.Sealed fills with Core.Blob, the texts of identifiers and
-- keyslots `Texts`. A pull follows pages on fuel, and ends where the server's changes dwindle;
-- a sync has the three rounds of the source.
--
-- Client.Http is http.rs: the calls with their retries and the mapping of error responses, over a
-- `Transport` that answers a call and the `Wire` that parses JSON; Client.Http.Transfers has the
-- uploads and downloads of blobs. A retry loop has the three attempts of the source.
-- Client.Http.Wired makes of them the environment that the vault and the sync engine take, and
-- Client.Served puts the server's handlers behind the transport, so that client and server are one
-- model.
--
-- Mobile (apps/mobile/src-tauri/src). Mobile has the errors and the directory of the application,
-- Mobile.QuickUnlock is quick_unlock.rs, Mobile.Session has the slot of the vault and, in its
-- modules, the commands of commands.rs, the auto-lock of state.rs and the focus handler of
-- lifecycle.rs;
-- Mobile.Session.Events puts them into sequences. Stronghold, the biometric prompt and the
-- methods of the vault are parameters, `Strongholds`, a Boolean and `VaultOps`. The files of
-- quick unlock can all be written or none.
--
-- Sizes of blobs and the limit of the cache are natural numbers, where the source has an `i64`: a
-- negative `blob_size` in a request, a negative limit, and lengths or limits whose number of
-- bytes is 2 ^ 63 or more are not modelled.
--
-- Not modelled: of the HTTP client, progress callbacks, timeouts and failures of local files; of
-- the mobile application, adding documents from files, thumbnails, sharing and the user
-- interface; the command line (crates/scrigno-cli); of the server, the health check,
-- the configuration and the deletion of swept objects; debug output, zeroizing and the JSON text of
-- records, which are glue.
pub mod Client
pub mod Codec
pub mod Core
pub mod Mobile
pub mod Prelude
pub mod Server
