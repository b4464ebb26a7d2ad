-- ===== src/Lib.antt =====
-- A model of the core of toolchain-cpp, a C++ toolkit with libraries for common utilities, image processing,
-- networking and video, and theorems on its behaviour.
--
-- The parts and their files (paths are from the root of the repository):
--   Common: lists and tests over the native numbers, integers (Common/Int), and how a call ends (Common/Calls):
--     with a value, an exception (af_exception), an abort (af_assert) or undefined behaviour.
--   Base64: class Base64Encoding of common/stringutils.cpp. encode, decode, the tables.
--   Median: class IntStreamMedian of common/stream-median.cpp. push, reset, set_nums_set_size.
--   Grid: class ImageGrid of imgproc/image-grid.cpp. Its constructors are divide and cover.
--   Mesh: common/state-events.cpp. Mesh/Queue is StateEventQueue; Mesh is EventsMeshNode over a World of nodes and
--     shared queues, with the log of what the callbacks were called with.
--   Cache: CacheManager of common/cached-vector.cpp, a vector of samples in a file. Cache/Octets has the octets of a list
--     of samples, Cache/Vector the relation to the list, Cache/Window and Cache/Reading the two ways of reading.
--   Images: MatCache of imgproc/mat-cache.cpp, the images of a frame and their conversions, made on demand.
--   Scales: ScalesHandler of imgproc/scales-handler.cpp, the list of weak pointers to the caches of Images in each size.
--   Records: common/state-records.cpp and .hpp. Records has the kinds of parameters, Records/Builder the class
--     MonParamBuilder, Records/Store the table MonitoredRecords of shared parameters.
--   Http: network/http-common.cpp. Http/Splitter is HttpStreamSplitter, the state machine that the sessions feed with
--     the octets that they read; Http/Text has the text functions that it calls.
--     Http/Request is HttpRequestParser; Http/Split is split_by_substr of common/stringutils.cpp, which it calls.
--   Text: endswith, the trims, is_in and hamming of common/stringutils.cpp.
--   Paths: splitext, path_split and filename of common/fileutils.cpp.
--   Tcp: network/tcp-server.cpp. Tcp/Session is TcpSession, Tcp/Server is TcpServer, which keeps a list of sessions.
--     Tcp/Server/Loop is main_loop as a step relation, in which the two halves of stop, the sessions and
--     exceptions of the handlers interleave with the loop.
--   Web: HttpSession and WebApiSession of network/netserver.cpp, a Tcp session that feeds the octets that it reads to an
--     Http splitter, parses the URL of a complete request and sends what the handler of the path returns.
--   Connection: network/network-connection.cpp and the timers of network/asio-timer.cpp. Connection has the state and the
--     error status, Timers, Session, Handlers and Lifecycle the operations of NetworkConnection, Loop its main_loop as a
--     step relation in which the handlers run and a stop from another thread interleaves.
--   Adjacency: AdjacencyMatrix of common/adjacency-matrix.cpp, a square of weights with names for its rows and columns.
--     Adjacency/Whole has += and ==, Adjacency/Sort the sorts; Adjacency/Swaps and Adjacency/Sums follow
--     the exchanges of sort_columns, Adjacency/Names the maps of names.
--   Config: common/conf-parser.cpp. Config has line_read and line_strip, Config/Parser the reading with include_parse,
--     Config/Write the writing, Config/Args the command line. The variables that the maps of the parser point to are lists.
-- In each component the file of its name has the state and the operations, its child modules the proofs, and Examples
-- the values on which the theorems are applied. A method that changes its object takes the object and returns it.
--
-- Numbers: int and int64_t are integers, and a bound is written where the code depends on one: the lengths in Base64,
-- the number of samples in Cache, the distance of Text and the corners of Grid are undefined where an int overflows; size_t wraps modulo
-- 2 ^ 64 in the counter of Records, and is a natural number elsewhere. Loops are structural recursion; the fuel
-- is the number of writes in Tcp/Session/Transfer, where one write for each 512 octets is shown to be enough, and the
-- rounds of the loops in Http/Split, where one more than the length of the text is shown to be enough for a delimiter
-- that is not empty. The rounds of sort_columns in Adjacency/Sort are at most one more than the square of the size.
-- The fuel of Config/Parser is a unit for each line that is read, those of included files as well, and the theorems on
-- it say how much is enough.
-- Maps: the parameters of a URL are kept in the order of their keys, as std::map iterates them; the other maps are
-- functions or association lists in any order.
-- Locks: a method that holds a mutex is one step; TcpServer::stop holds none and is two.
-- Build: the library is taken with libswscale (HAVE_SWSCALE), of which Images has the conversion as an argument.
--
-- Not under this repository, and so arguments: boost::algorithm (an interface of three functions), what boost::asio
-- reports to the handlers, curl's unescape, the contents of files, the conversions of numbers with a fraction, the clock,
-- and the order of the doubles.
-- Not modelled: the other text and file utilities, a cache opened over existing elements, the
-- profiler, the network client, image filters, media, logging and random numbers, the frames per second and
-- the channel features of Scales, and the pixels that the cells of a grid copy.
pub mod Adjacency
pub mod Base64
pub mod Cache
pub mod Common
pub mod Config
pub mod Connection
pub mod Grid
pub mod Http
pub mod Images
pub mod Median
pub mod Mesh
pub mod Paths
pub mod Records
pub mod Scales
pub mod Tcp
pub mod Text
pub mod Web
