-- ===== src/Lib.antt =====
-- zerostash: an encrypted, deduplicating store of files, its library and its command line tool.
--
-- A commit cuts each file into chunks (Splitter, with the offsets of Rollsum), looks the hash of a
-- chunk up in the chunk index (Chunks), and stores a new chunk compressed (Compress) and encrypted
-- (Crypto) in the object that is being filled (Storage, over the buffers of Objects), which goes to
-- a backend (Backends) when it is full. The entries of the files (Files) and the chunk index are
-- then written as compressed fields of metadata objects that link to one another (Meta), and read
-- from there (Stash). A checkout extracts the chunks of each file from their objects (Restore). The
-- command line tool (Tool) opens the stashes of its configuration and runs these.
--
-- Files and sources, from the root of the repository:
--   Rollsum         libzerostash/src/rollsum.rs: `SeaSplit`, `BupSplit`
--   Splitter        libzerostash/src/splitter.rs: `FileSplitter`
--   Compress        libzerostash/src/compress.rs: `block`, `decompress_into`
--   Objects         libzerostash/src/objects.rs: `ObjectId`, `Object<T>`
--   Storage         libzerostash/src/objects.rs: `Storage<C>`, `NullStorage`
--   Crypto          libzerostash/src/crypto.rs: `ObjectOperations`, nonces and keys; the traits are
--                   Crypto/Provider, `StashKey` is Crypto/StashKey
--                   and Crypto/Sealing what the metadata relies on
--   Backends        libzerostash/src/backends.rs: `Backend`, `InMemoryBackend`, `NullBackend`;
--                   `Directory` is Backends/Directory
--   Chunks          libzerostash/src/chunks.rs: `ChunkStore`
--   Files           libzerostash/src/files.rs: `Entry`, `FileStore`
--   Meta            libzerostash/src/meta/mod.rs; Meta/Encoding and Meta/Writer are meta/writer.rs,
--                   Meta/Reader is meta/reader.rs, Meta/Reopened joins the two, Meta/Frames and
--                   Meta/Fields are about the frames that fields are written as
--   Stash           libzerostash/src/stash/mod.rs: `read` and `commit`, of records; Stash/Stores has
--                   them with the stores, Stash/Checkout `list`, Stash/Adding `add_recursive`;
--                   Stash/Written, Stash/Contents and Stash/RoundTrip join the two
--   Store           libzerostash/src/stash/store.rs: what a worker of a commit does with a file;
--                   Store/Pool is `recursive`, with threads that interleave over the channel;
--                   Store/Held, Store/Kept and Store/Queue tell what the chunk
--                   index points at
--   Restore         libzerostash/src/stash/restore.rs: the worker of a checkout; Restore/Queue is
--                   its loop over the files it receives, and the loop of `from_iter` that sends them;
--                   Restore/Stored joins it to Store
--   Tool            zerostash/src/: config.rs, application.rs and commands/ are Tool/Config,
--                   Tool/Application and Tool/Commands
--   Prelude         what the parts share: lists, slices, dictionaries, outcomes
--   Tests           the results at concrete inputs
--
-- A method on `&mut self` is a function from a state to an outcome (a value, an error or a panic)
-- and a state, so that what was written before an early return stays written. The shared backend,
-- the shared indices and the system's randomness are states that are passed along; what others do
-- to them in between is a parameter (`Chunks.push`) or a step of a relation (Storage/Keeps).
-- Sizes are natural numbers, and each conversion to `u8`, `u32` or `usize` that can wrap is written
-- out. A hash map is an association list.
--
-- Fuel: `Splitter.split` runs for as many rounds as the file has bytes, which is enough, since every
-- chunk has a byte. `Rollsum.sea_loop` runs for the rounds of its range. `Stash.read_chain` has the
-- fuel as an argument: the objects of a commit may link in a circle, where the program does not end.
--
-- What a backend promises is the record `Backends.IsLawful`, relative to a `Contract` that tells the
-- states and the sizes of objects for which it is asked: all of them for the memory, and one size of
-- all objects for the directory. The users of a backend take both as parameters.
--
-- Parameters, with what is used of their documentation as hypotheses: ring, blake2bp, argon2 and
-- getrandom (`Crypto.Primitives`), liblz4 (`Compress.Lz4`), the LZ4 frames (`Meta.Encoding.Encoder`,
-- `Meta.Reader.Codec`, with `Meta.Frames.IsFrame`), CBOR (`Meta.Writer.Cbor`, `Meta.Reader.Codec`,
-- `Stash.Stores.Items`), seahash (`Rollsum.Hasher`), the metadata of the operating system (`Files.Metadata`), the file system and memory mappings
-- (`Backends.Directory.Disk`, `Restore.Queue.Host`, `Restore.Access`, and `Restore.Queue.Names`,
-- which tells the names that lead to one file), the lru crate (`Backends.Directory.Lru`), the
-- glob crate (`Stash.Checkout.Glob`), and the terminal (`Tool.Config.World`). The library that the
-- commands of Tool call is an interface (`Tool.Config.Library`).
--
-- That hashes do not collide is a function from hashes to chunks that agrees with the hashes of the
-- chunks at hand, and that ids are drawn afresh is stated of the draws that a run makes.
--
-- Threads: in Store/Pool each step is one thread's, and a push of a chunk with the flush it may need
-- is one step, as the entry of the chunk index is locked. A panic ends its worker. In Restore one
-- worker of a checkout runs alone: nobody else writes its files meanwhile.
--
-- Not modelled: the threads of a checkout and the channel between them; the directory walk of
-- `process_path`; a thread that takes part in the middle of another's push, beyond what
-- `Chunks.push` has of it; argument parsing, loading of the configuration and output, which the
-- abscissa framework does; the benchmarks.
pub mod Prelude
pub mod Objects
pub mod Chunks
pub mod Crypto
pub mod Compress
pub mod Backends
pub mod Storage
pub mod Restore
pub mod Rollsum
pub mod Splitter
pub mod Files
pub mod Store
pub mod Meta
pub mod Stash
pub mod Tool
pub mod Tests
