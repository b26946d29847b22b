-- ===== src/Lib.antt =====
-- TTObserver: a crawler that looks for new torrents on a tracker, stores them and announces them to
-- producers, on one node of a cluster.
--
-- A crawler (`Observer`) asks at each tick for the pages of the next offsets, stores the torrents that
-- it finds in a database (`Database`: SQL or Redis) and hands each to an announcer (`Announcer`), which
-- calls all its producers: messages of Telegram and VK, a file, subjects of NATS and STAN, and the hashes
-- in LMDB, Redis and an SQL table. A program beside it copies one database into another. In a cluster,
-- each node asks for a master; a node that finds none stands for it, and the crawler runs on the master.
--
-- Files and what they model:
--   Base           names of the libraries; Boolean tests, lists, maps, effects, signed numbers, and the
--                  decimal texts of strconv
--   Shared/Errors  the error values
--   Shared/Database  shared/database.go: `Database`, `RegisterFactory`, `Connect`; `Offsets`: what a
--                  client of the crawl offset sees
--   Shared/Stores  the two databases as implementations of that interface
--   Shared/Torrent shared/torrent.go: `TorrentInfo`, `GetTorrent`, `GenerateTorrentInfoHash`;
--                  `Files`, `Fetch`, `Aside`: theorems; `Poster`: `GetTorrentPoster`, with `Bounds`
--   Producer/Announcer  producer/producer.go and producer/announcer.go; `Start`, `Restart`,
--                       `Missing`, `Retried`, `Closes`: theorems
--   Producer/Registry   the packages under producer/: the factories that they register
--   Producer/FileSize   producer/shared.go: `FormatFileSize`
--   Producer/Indexes    producer/shared.go: `GetNewFilesIndexes` and the messages; `Order`: theorems
--   Producer/Values     producer/shared.go: the values of a message
--   Producer/Telegram   producer/tg/telegram.go: `Commands`, with `Answers`; `Sending`, with `Delivery`;
--                       `Setup`
--   Producer/Vk         producer/vk/vkcom.go: the tags; `Sending`, with `Posts`; `Setup`
--   Producer/FileStore  producer/file/file.go
--   Producer/Lmdb       producer/lmdb/db.go; `Keys`, `Opening`: theorems
--   Producer/Stream     producer/nats/nats.go; `Replicas`: theorems
--   Producer/HashStore  producer/redis/redis.go; `Replaces`: theorems
--   Producer/SqlStore   producer/sqldb/db.go; `Transaction`, `Atomic`: theorems
--   Producer/Stan       producer/stan/stan.go; `Retry`: theorems
--   Observer/Settings   observer.go: the fields of `Observer`, `ReadConfig`; `Aside` beside it: what the
--                       crawler's other calls leave as it was
--   Observer/Notify     observer.go: `notify`; `Picture`, `Aside`: theorems
--   Observer/Check      observer.go: `CheckTorrent`; `Known`, `Found`, `Faulty`, `Aside`,
--                       `Sends`: theorems
--   Observer/Engage     observer.go: `Engage`; `Advance`, `Announced`, `Runs`, `Calm`,
--                       `Ends`, `Sends`, `OnSql`: theorems
--   Observer/Life       observer.go: `Init` and `Close`; `Ready`, `Retried`, `Channels`: theorems
--   Cluster        cluster.go: `Start`, `asMaster`, `Stop`; `Misses` and its child `Leads`,
--                  `Stopped`: theorems; `Election`: several nodes
--   SqlDb          shared/sqldb/db.go: `Queries`, `Methods`, `Open`; `Scans`, `Offsets`,
--                  `OffsetStore`, `Torrents`, `Aside`: theorems
--   RedisDb        shared/redis/db.go: `Keys`, `Ints`, `Open`; `Migrated`, `Added`,
--                  `OffsetStore`: theorems
--   Cmd/Migrate    cmd/migrate.go: `migrate`; `Newest`, `Facts`, `Stored`: theorems
--   Cmd/Entry      cmd/ttobserver.go: `main`, `start`, `startClustered`; `Sound`, `Retried`,
--                  `Closing`: theorems
-- A file named Tests has runs of the code and the theorems at concrete inputs; one named Doubles has
-- what several of them share.
--
-- How code is written: code with effects is a function of a world, `M W A`, and the world is a
-- parameter. HTTP, bencode, the image codecs, the connections and clients of all services and the files
-- are records of operations on the world; a theorem that needs what they do takes it as a record of
-- laws. A method returns Go's value and error, both; `none` is nil. A map is an association list with
-- unique keys; the order of its entries is that of a `range` over it, and the posts of VK draw it anew
-- for each group. A database that is a nil pointer has the flag `is_nil`. A goroutine that the announcer
-- starts is an entry of the list of calls that the function returns. Numbers of type uint and uint64
-- wrap at 2^64, uint32 at 2^32, and the int of the thumbnail is its bit pattern.
--
-- Fuel: the loop of `Engage` over the window has the threshold as fuel, which is the number of rounds
-- when the window does not pass 2^64, and more than it where the end wraps around; the loop of
-- `FormatFileSize` has 6, more than a 64-bit size needs; a decimal text has 20 digits at most. The
-- waiting loops of `Engage` and `Start` run on a list of events and on a number of rounds, and a node
-- of the cluster on a list of what it meets. The loops of STAN and of the replicas of NATS have the
-- bound that the code gives them.
--
-- Not modelled: log messages, locks, closing of bodies and rows, the decoding of the configuration
-- files, and a signal that comes in the middle of a tick: `start` takes it after the last tick. What a
-- node of the cluster meets ends before the signal; `Stop`, which runs then, is in Cluster. The
-- methods of producers that do nothing have no definition.
pub mod Base
pub mod Shared
pub mod Producer
pub mod Observer
pub mod Cluster
pub mod SqlDb
pub mod RedisDb
pub mod Cmd
