-- ===== src/Lib.antt =====
-- gemini-worker-go: the Rust proxy (rust-sync-proxy/src).
--
-- The proxy takes a Gemini request, fetches the images that it names by URL, writes the request anew
-- with the images in base64, and sends it upstream. Bodies and images are blobs, held in memory
-- within budgets or spilled to files; fetched images are cached.
--
-- * Blob (blob_runtime.rs): `BlobRuntime` is a record of the counters, the removal flags and the
--   files. `store_bytes`, `store_stream`, `remove` and the others are functions from it to a result
--   and the next one. What the file system does to an operation is an argument (Files).
--   Blob/Budget accounts for the hot bytes over any run, Blob/Content says what a handle reads,
--   Blob/Stream compares the two ways to store, and Blob/Reserve lets any number of tasks run the
--   compare-exchange loop of `try_inline_reserve` in any order.
-- * Cache (cache.rs): the memory cache. The map of the crate `lru` is the interface `LruCache` of
--   Cache/Lru, which an association list fills. Cache/Disk is the directory of the disk cache, its
--   files by name; Cache/Lookup puts both caches together as `fetch` and `store_in_caches` do.
--   Cache/Inflight is `fetch` behind the caches, run by many callers at once: `Step` of
--   Cache/Inflight/Run has a constructor for each use of a lock, a counter, the notification or the
--   abort handle, by a caller (its number is an argument) or by a spawned task. What a fetch brings is
--   an argument of its step; Cache/Direct is one fetch with its time limit and its second attempt, and
--   Cache/Service has the two services that the settings give.
-- * Request (request_scan.rs, request_encode.rs): the walk that finds image URLs, JSON pointers by
--   RFC 6901, and the JSON writer with its base64 over chunks. What is called of `serde_json` and
--   `base64` is the interface `Codec` of Request/Codec, which Tests/Codec fills. Request/Rewrite
--   (request_rewrite.rs) has the form of a request that one provider takes.
-- * Materialize (request_materialize.rs): the fetches of a request by distinct URL, in any order of
--   completion, and ImageIo (image_io.rs): one fetch with its limit, MIME types and compression. The
--   HTTP client, `url::Url` and the image codecs are arguments.
-- * Config and Env (config.rs): the settings, from a map of variables; Upstream (upstream.rs): which
--   upstream the headers of a request choose. Url holds what is read of a parsed URL.
-- * Response (response_rewrite.rs, response_materialize.rs): what is taken out of a response, and the
--   images that are uploaded and named by URL instead. Upload (upload.rs): the image hosts, and
--   `Base64DecodedReader`, whose loop is a function from the reader to the next one, in turns;
--   Upload/Sign has what signs a request to R2; Upload/R2/FromBytes, FromBlob and FromBase64 each
--   have one of the three uploads to R2, with its own copy of the signature and the answer, as the
--   source has them. The loop that hashes a blob runs over the reads of its file; an argument answers
--   the requests.
-- * OpenaiImage (openai_image.rs): requests for images in the form of another API.
-- * Router (http/router.rs): the loop `poll_aiapidev_task`, over functions that give what each round
--   meets and what the clock says there; Router/Output has the output mode and the query that goes
--   upstream.
-- * Admin (admin.rs): the log of the last requests. Admin/Log has the tasks that call `record` take
--   their ids and the lock in any order.
-- * Json is the tree of `serde_json::Value`; a map keeps the order of its keys. Text is UTF-8 text
--   as a list of code points. Prelude holds lists, options, results and numbers.
--
-- Numbers are naturals; counters of 64 bits wrap at `u64_mod`. The eviction loop runs on one round of
-- fuel for each entry and one for the last test, since each round takes an entry out, and so does
-- the loop of `push_locked`. The reader has fuel for the bytes that the buffer takes and those of its
-- text, since every turn uses one of either; the poll of a task has its fuel as an argument, and 451
-- rounds are enough for 450 seconds. The other loops are recursion on what they read. Locks are held
-- for a whole operation in the code, so an operation is one step; the lock-free reservation, the
-- record of a request and the fetches in flight are split into smaller steps.
--
-- Not modelled: HTTP, TLS, the image encoders, the handlers of the router, the HTML of the admin page,
-- and the Go programs of the repository.
pub mod Admin
pub mod Blob
pub mod Cache
pub mod Config
pub mod Env
pub mod Files
pub mod ImageIo
pub mod Json
pub mod Materialize
pub mod OpenaiImage
pub mod Prelude
pub mod Request
pub mod Response
pub mod Router
mod Tests
pub mod Text
pub mod Upload
pub mod Upstream
pub mod Url
