-- ===== src/Lib.antt =====
-- A time-series store (tffiles) with a TCP server, and a small kit for backends (gobackendkit),
-- both in Go.
--
-- The store. A client sends frames over TCP (tffiles/tcp_server.go). A write request names a device
-- and its points; the storage engine (tffiles/storage.go) groups them by day and appends each group
-- to the buffer of the writer of that device and day (tffiles/writer.go). A writer flushes its
-- buffer as one block, compressed or not, to a data file, and one entry to an index file. A query
-- reads both files of each day (tffiles/reader.go, and readIndex of tffiles/storage.go). The batch
-- encoders of tffiles/encoder.go stand by themselves, as do the packages of gobackendkit.
--
--   Base       the names and lemmas that the other modules share; Base.Dict is a Go map
--   Bytes, Bits, Int64, Text, Crc
--              encoding/binary, bit operations, int64 as its bit pattern, text as its code points
--              with what is used of package strings, and hash/crc32
--   Zstd, Float64
--              parameters: the compression of klauspost/compress, and the arithmetic of float64,
--              each with the laws that the code relies on
--   Varint     encodeVarint and decodeVarint of tffiles/encoder.go
--   Encoder    EncodeBatch and Decode of tffiles/encoder.go, with the raw mode, Encoder.Delta and
--              Encoder.DeltaDelta
--   Point      EncodeSimplePoint and DecodeSimplePoint of tffiles/simple_datapoint.go;
--              Point.Device has CreateDevicePoint and ParseDevicePoint, Point.Fields ToMap
--   Index      the entries of an index file: as flush of tffiles/writer.go writes them, as readIndex
--              reads them, and binarySearchIndex of tffiles/reader.go
--   Reader     parsePoints, parseLegacyFormat; Reader.Query has Query and QueryWithIndex
--   Writer     DayWriter of tffiles/writer.go, its two files being the lists of their bytes;
--              Writer.Stats has GetStats
--   Tcp        the parsing of handleWrite and handleQuery; Tcp.Wire has readMessage, Tcp.Server the
--              handlers, the responses and the loop of handleConnection, Tcp.Accept the loop over
--              new connections, Start, Stop and GetStats
--   Storage    StorageConfig, the schemas, grouping and WriteBatch; Storage.Query has queryFile,
--              Storage.Days Query, Storage.Cleanup cleanupExpiredData, Storage.Tiering
--              recompressCold, Storage.Moving moveColdData, each with the calls that may fail as
--              an argument; Storage.Engine is the engine
--              as a whole, a sequence of batches and of turns of the writers' goroutines, Close,
--              and Query over the files that are left
--   Auth       ExtractToken, Principal, the errors and Middleware.Handler of gobackendkit/auth;
--              Auth.Options has NewMiddleware
--   Regexp     package regexp, as far as gobackendkit/dialect uses it: a matcher by the first choice
--   Dialect    the fragments, the kinds and itoa of gobackendkit/dialect; Dialect.Patterns has the
--              expressions of gobackendkit/dialect/postgres_render.go, and Dialect.Render what is
--              made of them: Render and ConvertDDL
--   Db         connections, the type of database, convertPlaceholders, GetTableNames and
--              ListenForNotifications of gobackendkit/db, over what the drivers answer; Db.Calls
--              has Exec, Query and QueryRow
--   Web        the HTTP handlers of gobackendkit/examples/quickstart/main.go
--   Excel      ReadFile, from the sheets of the workbook, and BuildMSSQLDDL of
--              gobackendkit/schema/excelddl; Excel.Command is the loop of main in
--              gobackendkit/cmd/excelddl/main.go that creates the tables, Excel.Main the command
--   EnvFile    loadEnvDB of gobackendkit/cmd/excelddl/main.go, and in EnvFile.Quickstart loadConfig
--              of gobackendkit/examples/quickstart/main.go; EnvFile.Printed writes such a file
--   Redis      the keys and the clearing of the caches of gobackendkit/redis/redis_cache.go, over
--              what SCAN and DEL answer
--   Tests      the theorems applied to concrete data
--
-- State is passed on explicitly. An error is a value of a result type, and a run-time panic is a
-- constructor of its own. A writer's life is a list of events: the calls of other goroutines and
-- the cases of the select in flushLoop, with what the disk does in each. A connection's life is a
-- list of rounds over the bytes that the client sends. The day loop of Query is taken for times
-- from 1970 on.
--
-- Loops whose bound is not in a list run on fuel: the parsers and decoders on the number of bytes,
-- of which each round takes one at least (`parse_loop_fuel`); the binary search on the number of
-- entries; the day loop on the number of days in the range and one; the scan of Redis on the
-- number of rounds that the server needs. The theorems on them state that the result is reached.
--
-- There is taken to be memory enough for every slice that the code makes, also for one whose length a
-- client or an index file gives; only a length that `make` itself refuses is a panic.
--
-- Not modelled: tffiles/main.go, timers, deadlines, logs, file handles and locks; of the rows and
-- results of gobackendkit/db what only calls the driver; of gobackendkit/redis,
-- gobackendkit/schema/excelddl and the commands what only calls other packages.
pub mod Base
pub mod Bytes
pub mod Bits
pub mod Int64
pub mod Varint
pub mod Float64
pub mod Encoder
pub mod Point
pub mod Crc
pub mod Zstd
pub mod Index
pub mod Reader
pub mod Writer
pub mod Tcp
pub mod Storage
pub mod Text
pub mod Auth
pub mod Dialect
pub mod Db
pub mod EnvFile
pub mod Web
pub mod Excel
pub mod Redis
pub mod Regexp
pub mod Tests
