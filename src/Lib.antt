-- ===== src/Lib.antt =====
-- The media library finds the media files of a user's folders, extracts their metadata, and keeps
-- both in a database. One thread discovers: it takes the tasks of its queue, asks the file system
-- and adds files. For each file a task goes through the pipeline of the parser, with a worker thread
-- for each service: extraction, analysis, and linking. The connections to the database share a lock.
-- Paths and MRLs are passed between all of them as texts.
--
-- Which file models which part; paths are those of the repository:
-- - Common: lists, options and tests over the native numbers; a text is its list of bytes.
-- - Filename: src/utils/Filename.cpp, as on a system whose separator is a slash. An index that is
--   `npos` is `none`. `split_path` has fuel for its loop, which need not end in the source either.
-- - Url: src/utils/Url.cpp, as on a system other than Windows, and toMrl of Filename.cpp. An
--   exception is `none`. The position of `std::find` is a number, and the end of a text its length.
-- - Utf8: src/utils/Strings.cpp in the C locale; commonPattern is in Utf8/Patterns. `nb_chars` and
--   `common_start` have a unit of fuel for each byte, and a character takes one byte at least; the
--   bits of a leading byte are eight at most.
-- - Lock: src/utils/SWMRLock.cpp. Each function is a critical section, and a state holds the threads
--   that sleep on the condition and those that were notified and did not get the mutex yet. `Step`
--   is the relation of the steps of all threads, spurious wake-ups included.
-- - Discoverer: src/discoverer/DiscovererWorker.cpp. Discoverer.antt has the queue (filter,
--   enqueue and the requests of the clients), Discoverer/Loop the thread (run and the functions that
--   it calls), and Discoverer/Threads the interleavings of both. What FsDiscoverer, Folder and Device
--   answer is the parameter `Backend`. `drive` runs the loop on fuel, one unit for a turn.
-- - FsDiscoverer: src/discoverer/FsDiscoverer.cpp. FsDiscoverer.antt has checkFiles for the files of one
--   folder, FsDiscoverer/Folders checkFolder and checkRemovedDevices for a tree of folders, and
--   FsDiscoverer/Roots reloadFolder. Which extensions are supported is a parameter, what the database
--   answers the parameter `Database`. An interruption is the number of tests of it that still pass,
--   which is also the fuel of the loop.
-- - Playlist: src/Playlist.cpp, the rows of the items of one playlist with the two triggers on their
--   positions, and the requests on them. SQLite selects the rows of a DELETE first and then runs the
--   trigger after each row that it deletes; `delete_marked` has a unit of fuel for each row.
--   Playlist/Counters has the counters, Playlist/Listing the query of the media.
-- - Notifier: src/utils/ModificationsNotifier.cpp and .h. `step` is a step of a client or of the
--   thread, and `run` any sequence of them: `advance` takes the thread through the test of its
--   condition, the sleep, the wait for the time-out, the check of each queue and the callbacks. Time
--   is an argument of the steps.
-- - Progress: src/Media.cpp, the progress and the play count of a medium in its row and its instance.
--   The positions, which are floating-point numbers, are a parameter with their comparisons.
-- - Cache: src/CacheWorker.cpp, evictIfNeeded and doCache. Sizes are words of 64 bits.
-- - Analyzer: src/metadata_services/MetadataParser.cpp, parseAudioFile and what it calls. The tables are
--   in Analyzer/Tables, findOrCreateArtist and findAlbum in Analyzer/Search, handleTrack and link in
--   Analyzer/Storage. How SQLite compares names, the order in which it gives the tracks of an album and
--   the year that gmtime finds are parameters; `Writes` tells which writes succeed,
--   those among them whose results handleTrack and link ignore.
-- - Thumbnailer: src/thumbnails/ThumbnailerWorker.cpp. `run_all` takes the clients and the thread through
--   any order of their steps; a function that takes the lock is one step, and `stop` has four.
-- - Thumbnails: src/Thumbnail.cpp, the rows and the links of the thumbnails with their triggers, and
--   setThumbnail of an entity, which reads its thumbnail first. Whether the entity updates a thumbnail
--   that it has is the parameter `should_update`.
-- - MediaGroup: src/MediaGroup.cpp, the rows of the groups with the triggers of the last model of
--   the database.
--   The groups are a function on identifiers. A trigger is what it adds for the medium as it is, and
--   what it takes away for the medium as it was; a counter below 0 is left out.
--   MediaGroup/Naming has assignToGroup and what it calls. The requests to the database succeed there, the
--   rows come in the order of their identifiers, and names are well-formed UTF-8.
-- - Parser/Task: src/parser/Task.cpp, how a task keeps its progress in memory and in its row.
-- - Parser/Worker: src/parser/ParserWorker.cpp, the queue of a worker and its turn on a task. What
--   the turn meets (the answer of the service, exceptions of the file system, updates that fail) is
--   the parameter `Visit`.
-- - Parser/Queue: what clients and the thread of a worker do, in any order.
-- - Parser/Pipeline: done of src/parser/Parser.cpp, and the way of a task through the services.
--   `follow` runs it on fuel, one unit for a turn.
-- - Parser/Stats: the counts and reports of src/parser/Parser.cpp.
-- - Parser/Link: src/metadata_services/LinkService.cpp, the status for every outcome of its look-ups.
--
-- The number of attempts is a 32-bit word and wraps around. The counts of the parser and those of
-- the lock are unbounded here.
--
-- The analysis of a file leaves out its title, its genre and its thumbnail, numbers below 0, and an
-- artist that the medium is linked to already. Instances of a medium or an album that keep an older
-- copy of a thumbnail, and the thumbnails that are embedded in files, are left out of Thumbnails.
--
-- Not modelled: the other entities over SQL (genres, the rest of the albums and of the media, and
-- others), the analysis of videos and of playlists, requests of playlists that fail, the database
-- itself and its migrations, the groups that users make, change or destroy, the addition of roots
-- and the reload of all, the file systems, the services that call libvlc, the generation of
-- thumbnails and the downloads of the cache. Pausing and the start of the discovery thread and
-- exceptions that are not of the file system are left out too.
mod Common
pub mod Filename
pub mod Discoverer
pub mod Parser
pub mod Lock
pub mod Url
pub mod Utf8
pub mod Playlist
pub mod FsDiscoverer
pub mod Notifier
pub mod Progress
pub mod Cache
pub mod Analyzer
pub mod Thumbnailer
pub mod Thumbnails
pub mod MediaGroup
