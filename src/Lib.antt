-- ===== src/Lib.antt =====
-- barbacoa-server-lib: a verification library for its network layer, its web layer and its helpers.
--
-- A peer's messages become units (`unit`), a builder (`unit_builder_i`) turns them into bytes and back, a
-- manager (`unit_builder_manager`) drives the builder of one connection over the bytes that arrive, and
-- `connection` stands between the manager, the transport and the callbacks of the user. Handlers of a
-- transport take a lock of its `scope_runner`, which a disconnect stops. The web layer parses the texts
-- of HTTP. Definitions are translated from the sources; paths are those of the repository.
--
-- Network (include/server_lib/network, src/network)
--   LogicUnit                unit: data, nested content, both printed forms (unit.h, unit.cpp)
--   UnitBuilder              unit_builder_i as a record of operations, with the laws of a stream: it may
--                            be cut anywhere (IsIncremental), and units take bytes (IsConsuming)
--   IntegerBuilder(.Pack)    integer_builder: pack, unpack, operator<< (integer_builder.cpp)
--   StringBuilder            string_builder: a text of known size (string_builder.cpp)
--   MsgBuilder               msg_builder: a size and then that many bytes (msg_builder.cpp)
--   DstreamBuilder           dstream_builder: units behind a delimiter (dstream_builder.cpp)
--   RawBuilder               raw_builder: a chunk is a unit (raw_builder.cpp)
--   Manager                  unit_builder_manager: build_unit, operator<<, get_front, pop_front. Its
--                            children are about any builder that follows the laws of UnitBuilder
--   Connection               connection with asio_connection_impl: post, commit, on_raw_receive,
--                            disconnect and its handlers, and the handler of a read (connection.cpp,
--                            transport/asio_connection_impl.h). Callbacks of the user are parameters
--   Server                   server: start_impl, on_new_client, on_client_disconnected and stop over its
--                            table of connections (server.cpp)
--   ScopeRunner              scope_runner: continue_lock, ~shared_lock and stop as steps of threads
-- Web (include/server_lib/network/web, src/network/web)
--   Percent, QueryString, HttpHeader   the classes of web_entities.h
--   Request, Response        __http_request_message::parse, __http_response_message::parse
--                            (http_utility.h)
--   StatusCode               http_status_code, its table and lookups (status_code.h)
--   Fields, Numbers          case_insensitive_equal and lookups in a multimap; stoull and stoul
--   HttpSession              the reads that the sessions of the server and of the client have in common:
--                            their handlers (Session, Chunks), what boost::asio does for them (Asio) and
--                            the reads in turn (Reading)
--   HttpServer               http_server_impl.h: __http_response (Response), the handler of a header
--                            (Session), find_resource (Dispatch), the end of write (KeepAlive)
--   HttpClient               http_client_impl.h: the text of a request (RequestText), the handler of a
--                            header (Session), the connections (Pool)
--   TextStream               std::getline and find, which these parsers call
-- Observer                   observable (include/server_lib/observer.h)
-- ProtectedMutex             protected_mutex (include/server_lib/protected_mutex.h): lock and unlock as
--                            steps of threads (Marks, Exclusion, Owner); std::mutex is whether it is locked
-- Ifconfig                   ifconfig: the selection of hosts and addresses (src/network/ifconfig.cpp)
-- Version                    version, version_ext (version.h, src/version.cpp); Istream is the standard
--                            library's operator>> on a stringstream
-- Options                    remove_quotes and get_approximate_relative_time_string
--                            (src/options_helper.cpp)
-- LogFilesWatchdog           log_files_watchdog_config, match_file (Matching) and base_max_files_strategy
--                            (Excess) of src/log_files_watchdog.cpp
-- EventLoop                  event_loop over base_queuered_loop, with a thread of its own: the queue, start,
--                            stop (include/server_lib/event_loop.h, src/event_loop.cpp,
--                            src/base_queuered_loop.cpp)
-- EventPool                  event_pool: how its threads begin, its start and its stop
--                            (include/server_lib/event_pool.h, src/event_pool.cpp)
-- Prelude                    native numbers with Boolean tests, lists measured by them, std::string as a
--                            list of bytes, results of calls that may throw, decimal printing
-- Tests                      concrete runs
--
-- How the source is translated. A char is its byte below 256. A call that may throw gives a Result, or an
-- Outcome with the object as the throw leaves it. A point at which C++ leaves the behaviour undefined is
-- the error `undefined`. Unsigned arithmetic has its wrap-around written out where the code can reach it.
-- The loop of unit_builder_manager::operator<< runs on fuel, and two rounds more than the buffer has bytes
-- are enough for every builder that takes bytes for its units; `enough` is that number. The loops of
-- http_header::parse and of connection::on_raw_receive run on fuel too: more than the header has fields,
-- and more than there are units. Steps of ScopeRunner and ProtectedMutex are single accesses to what the
-- threads share, in any order of the threads, and compare_exchange_weak may fail without a reason.
--
-- The reads of an HTTP session go on until its message is there; their fuel is the number of reads, two for a
-- header and a content, and two for a chunk. What the peer sends is a list of bytes; a read until a delimiter
-- takes any more of them that the transport likes. Which of several values of a name find gives, and
-- the order of equal_range, which std::unordered_multimap leaves open, are parameters. Handlers have their locks of the scope_runner there.
--
-- Not modelled: sockets, resolvers and timers of boost::asio, partial writes, the life cycles of the clients
-- and of the HTTP server, the actions and the timer of the log files watchdog, the timers and waits of the
-- loops, the logger, processes, signals, configurations and options of boost::program_options.
pub mod Prelude
pub mod Network
pub mod Version
pub mod Options
pub mod LogFilesWatchdog
pub mod EventLoop
pub mod EventPool
pub mod Web
pub mod Observer
pub mod ProtectedMutex
pub mod Ifconfig
pub mod Tests
