-- ===== src/Lib.antt =====
-- The Ultipa Go driver talks to a graph database over gRPC. It turns Go values into bytes and back
-- (sdk/utils), checks and converts the rows of nodes and edges that are inserted (sdk/api), reads
-- the tables of a reply (sdk/http, sdk/structs), merges the records of a stream into one reply
-- (sdk/utils/merge.reply.go), and keeps a pool of connections to the hosts of a cluster
-- (sdk/connection), each request with the settings of sdk/configuration.
--
-- - Prelude and its children: lists, texts, results, maps, machine integers, decimal numerals. A
--   Go string is the list of its bytes; a map with string keys is an association list.
-- - Types, Runtime: the types of rpc/ultipa.proto and sdk/structs that the driver reads, and a
--   record of what the driver calls and does not implement: protobuf, regular expressions,
--   floating point texts, calendars and time zones. Nothing is assumed of it but what a theorem
--   names.
-- - Time (Pack, Layouts, Parse): sdk/utils/time.go. A time is 64 bits; shifts are taken modulo 2 ^
--   64.
-- - Serial (BigEndian, Null, Encode, Decode, RoundTrip, Sentinel, Lists, Zone, Recursion,
--   GoTypes): sdk/utils/serilizer.go, null.go and sdk/types/point.go. A float is its IEEE 754 bit
--   pattern. An element of a list is converted with nil sub-types, so two levels are all that the
--   recursion has; no fuel is needed.
-- - Config (Laws): sdk/configuration and NewContext.
-- - Pool (Slices, Refresh, Rotation, Race): sdk/connection/connection.pool.go. A refresh takes the
--   events of its goroutines in any interleaving; a greeted one reads the slice of active
--   connections in one event and writes the longer one in another. Race is the smallest case of it
--   as a step relation. The counter of requests is the bits of an int64.
-- - Reply (Header, Family, Round, Merge, Lookup, Found): sdk/utils/merge.reply.go and find.go.
-- - Stream (Statistics, Response, Receive, Collect, Delivery): sdk/http/response.query.go,
--   responseStream.go, statistic.go, explainPlan.go and status.go. A stream is the list of what
--   its calls of Recv give; a callback is a function on a state of the caller's.
-- - Api (Request, Queries): sdk/api/api.go. Dialling and the two attempts of a call are
--   parameters.
-- - Insert (Replies, Grouping, Sending, Calls, Texts, Rounds, Sound, Numbers, Entries, Answers):
--   the requests of insert.nodes.go and insert.edges.go, sdk/http/response.insert.go and
--   response.insert.batch.auto.go. Calls joins them with the listing of the schemas. The batches
--   are sent in the order of a list, since Go's order on a map is its own.
-- - Items (Paths, Tables, System, Graphs, Listings, Admin, Summary, Attrs, ListAttrs, Closed,
--   Columns, Same, Fuel): sdk/http/dataitem.go, sdk/structs/attr.func.go, table.go and path.go.
--   The parser of attributes is on fuel, two more than the length of the longest value, because
--   each message is longer than its fields.
-- - Client (Statements, Graphs, Targets): sdk/api/property.go, schema.go, index.go, graph.go,
--   lte.go: the statements that the calls write. Session is what the calls see of Api: a statement
--   is sent and a response comes back. Schemas, Readers, Listings: the calls that send through a
--   session, read a listing, and create what it lacks. Models, Quiet: sdk/api/model.go and
--   sdk/models. Accounts, People: sdk/structs/user.go and policy.go, sdk/api/user.go, policy.go,
--   privilege.go, job.go. Started, Jobs: sdk/http/job.go and the calls that return a job. Files,
--   Downloads: sdk/api/download.file.go; the loop over the keys of a job's result is on fuel, one
--   more than its entries, because each key that is found is an entry of its own. Tasks, Algos:
--   sdk/api/task.go, hdcGraph.go, projection.go, top.go, kill.go, stats.go, algo.go and
--   authenticate.go.
-- - Rows (Check, Compare, Fits, Latest, Accepted, Collected, Texts, Converted, Write, Read,
--   RoundTrip, Batch): sdk/api/check.rows.go, insert.nodes.go, insert.edges.go,
--   sdk/structs/property.go, values.go, node.go, edge.go, and the tables of sdk/http/dataitem.go.
--   Batch has the goroutines that convert the rows as a step relation.
-- - OrderedMap: sdk/utils/orderedmap.
-- - PropertyNames: the names of property types in sdk/structs/property.go. The two regular
--   expressions of SetTypeByString are parameters.
-- - Names: sdk/utils/validators.go and sdk/api/utils.go.
-- - Tests: a concrete Runtime, and the theorems at concrete inputs.
--
-- Not modelled: the calls of sdk/api on backups, licences, exports and settings, which ask the
-- server once or copy a stream to a file; InstallHDCAlgo, which streams files;
-- sdk/utils/uql.maker.go, which collects the clauses of a text; the reading of JSON, which is a
-- parameter; printers, loggers and generated code; NewConnection, which dials; LoadConfigFromYAML,
-- which reads a file; sdk/connect.go and utils/format.go, every line of which is a comment.
pub mod Prelude
pub mod Types
pub mod Runtime
pub mod Time
pub mod Serial
pub mod Config
pub mod Pool
pub mod Reply
pub mod Rows
pub mod Names
pub mod Stream
pub mod Api
pub mod Client
pub mod Insert
pub mod Items
pub mod OrderedMap
pub mod PropertyNames
pub mod Tests
