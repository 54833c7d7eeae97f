-- ===== src/Lib.antt =====
-- Avar, a download manager in C: a model of its core and theorems about it.
--
-- The program keeps, for each download, the byte ranges that are on disk (src/download_state.c),
-- cuts the file into segments and chooses the next ones to fetch (src/download_segment.c). A
-- connection may go through a proxy, whose settings and handshake are src/http_proxy.c, driven by
-- the event handler of src/download.c. src/http.c reads names and addresses out of URLs and
-- header fields, and src/stream_hls.c turns the playlist of a stream into the segments of one
-- file. The settings, the queues and the list of downloads are one JSON document (src/config.c),
-- in which src/queue.c keeps the queues and from which it starts downloads.
--
-- Ranges is the array of completed ranges of src/download_state.c and its loops; State is the
-- record `DownloadState` with the operations on it; Segment is src/download_segment.c. Proxy is
-- src/http_proxy.c: Proxy/Credentials, Proxy/Base64, Proxy/Bypass (NO_PROXY), Proxy/Resolve, and
-- Proxy/Socks, where the calls of `proxy_socks5_handle_read` on replies are in Handshake. Http is
-- src/http.c. Hls is src/stream_hls.c, with the parser of media playlists in Hls/Media, what it
-- is to read in Hls/Media/Outcome, and the writing of segments in Hls/Segments. ThreadPool is
-- src/thread_pool.c, a step relation whose steps are what runs under the lock of the pool. Config
-- is src/config.c: a key is walked in Config/Paths, Config/Values is about single values and
-- Config/Arrays about the arrays of objects. Queue is src/queue.c, with `queue_edit` in
-- Queue/Edit and the starting and stopping of downloads in Queue/Dispatch. State/Saved is the
-- reading of a state from its file and State/Saved/Writing the writing. Download is what
-- src/download.c keeps in the list of downloads, with the identifiers of new downloads in
-- Download/Snowflake, the slots of a job in Download/Slots, and what clients ask of a download in
-- Download/Control. Bookmark is src/bookmark.c. CString is the C library's strings. Base holds
-- shared names, tests on numbers, lists measured by native numbers and wrapping 64-bit
-- arithmetic. Tests holds runs of the definitions and an instance of each theorem that has
-- hypotheses.
--
-- Correspondence. A function of the model has the name of the C function; a loop of it is a
-- function of its own, named for what it computes. `uint64_t` and `size_t` are numbers, and each
-- operation that can wrap is written with its wrap-around (`add64`, `sub64`, `mul64`). An array
-- with its count is a list. A pointer that must not be NULL is the value that it points to, so
-- the checks of such arguments against NULL have no counterpart; a `char *` that may be NULL is
-- an optional text, a list of its bytes. A function that returns 0 or -1 returns an optional
-- state, `none` for -1, which leaves the state as it was. Bytes that are sent are part of a
-- result. Locking, logging and freeing have no counterpart.
--
-- Config carries the document in memory, the one in the file and the number of writes so far; an
-- operation on it takes and returns it. `update_parent` is `resolve_parent` with what the caller
-- does to the object that it finds, `update_array` the same for `resolve_array_parent`.
--
-- Parameters. cJSON is the record `Cjson`, an instance argument of Config, Queue, State/Saved,
-- Download and Bookmark; `IsLawful` has what theorems rely on, and Tests/Documents an instance
-- that meets it. Which write of the configuration file succeeds is a test on the number of the
-- write; what the system allows when a state is written is the record `Writable`. The clock is
-- the list of its readings. `download_start_scheduled` and `download_stop` are arguments in
-- Queue/Dispatch, and `spawn_download_by_id` and `sync_queue_started_for_item_id` in Download.
-- The allocator of the arrays in State is a test that says which requests succeed; the allocation
-- of texts is taken to succeed. mongoose's functions on URLs, the environment and the
-- configuration are the record `Environment` in Proxy and arguments in Http; AES, `sscanf` and
-- the fetching of a URL are arguments in Hls.
--
-- Fuel. The doubling loop of `ensure_range_capacity` has fuel for 64 rounds, and one of these
-- suffices for every capacity that the callers ask for. `decimal` writes up to 20 digits, as many
-- as a number of 64 bits has. The other loops recur on a list, or on the number of rounds that
-- the C loop has left. The loop of `slot_prepare_write` has the size of the file as fuel, since
-- each round moves a reservation forward inside the file. The loops of Queue/Dispatch and
-- `queue_detach_items` take the number of items that the C code reads before the loop.
--
-- Not modelled: network and file I/O, the event handlers of src/download.c (what they find in a
-- receive buffer is up to mongoose), what happens to a slot at the end of its range, the
-- scheduling of chunks, the daemon and the command line.
mod Base
pub mod CString
pub mod Ranges
pub mod State
pub mod Segment
pub mod Proxy
pub mod Http
pub mod Hls
pub mod ThreadPool
pub mod Cjson
pub mod Config
pub mod Queue
pub mod Download
pub mod Bookmark
mod Tests
