-- ===== src/Lib.antt =====
-- A model of epic_miner, a CPU miner in C++ for the RandomX and ProgPow algorithms, and the theorems
-- about it.
--
-- The program. The executor (executor.hpp, executor.cpp) owns the pools, two datasets and the miners,
-- and runs the libuv loop. A pool (pool.hpp, pool.cpp) speaks JSON lines with a server over a network
-- interface (net/net_interface.*): it logs in, gets jobs, sends shares and matches the replies with
-- its calls. A new job makes the executor adjust the datasets (rx_dataset.*, pp_dataset.*), which
-- threads compute, and give the miners (miner.*, rx_miner.*, pp_miner.*) a new current job. A miner
-- hashes until the current job changes, and queues what it finds; the executor passes it to the pool.
--
-- The files.
--   Misc: misc.hpp. Misc/Hex is the hex codec (hex2bin, bin2hex), Misc/RingBuffer the ring buffer,
--     Misc/HumanTs the durations.
--   Vector32: vector32.hpp, the 32-byte vectors. Json: json.hpp over rapidjson's values. Job: job.hpp.
--   Pool: pool.hpp and pool.cpp. Pool/Calls is the table of calls (register_call, find_call), Pool/Fill
--     process_pool_job as stages over my_job, Pool/Wire the texts that are sent, Pool/State the members
--     and the handlers of the connection, Pool/Setup the constructor and init_pool, Pool/Messages
--     process_json_doc and what it calls, and Pool/Receive net_on_data_recv.
--   Config: jconf.* and jconf_p.hpp. Config/Values is the table of values and its constraints,
--     Config/File the reading of the file, Config/Parse parse_config and the getters.
--   Net: net/net_interface.* and net/tls_interface.*. Net/Address is set_hostname and the
--     choice of a record, Net/Receive consume_loop, Net/Send the members and the four send buffers,
--     Net/Cycle the life of a connection, Net/Tls the interface behind TLS: Net/Tls/Errors its error
--     texts, Net/Tls/Write the loop of its do_socket_write.
--   Console: console/. Console/Printer is the printer, Console/Numbers its arguments that are
--     numbers, Console/Windows the colours on Windows, Console/Input the terminal's handle.
--   Dataset: dataset.hpp, rx_dataset.*, pp_dataset.*, as step relations on what the threads share;
--     Dataset/Rx/Alloc is the constructor's allocations.
--   Miner: Miner/Nonces is the choice of nonces in rx_miner.cpp and pp_miner.cpp, Miner/Record the hash
--     log of miner.hpp, Miner/Loop the hashing loops and the waiting loops, and Miner/Queue the way of a
--     result to the executor, as a step relation of two threads.
--   Executor: executor.hpp and executor.cpp. Executor/Errors is the error log and the counters,
--     Executor/State the handlers, Executor/Heartbeat the timer, Executor/Hashrate the rates of the hash
--     log, Executor/Report the reports and on_key_pressed, Executor/Run the start of the program.
--   Program: the components put together. Program/Link is a pool without TLS with its network
--     interface: what the pool asks of the interface, and what the interface notifies it of.
--     Program/Link/Cycle is its life as a step relation on the executor's calls and the callbacks of
--     libuv, with modules for what each kind of handler keeps (Kept, Reads, Moves), for the invariant
--     (Laws, Sound), for the handlers that run to their end (Runs), and for the ways in which a
--     connection ends (Ends, Lost, Stranded). Program/Session is the executor with its pool, on a share
--     that a miner has found and on a message of the server: Laws for shares, Jobs for jobs, Known and
--     Served for the miners that the pool's replies name.
--   Common: shared names, lists over the native numbers, signed integers, bytes and bit masks.
--
-- How it is modelled. A handler is a function from the object's state and the arguments to the new
-- state and a list of actions: the calls of other objects, in order. Clocks, rand() and what
-- uninitialised memory holds are arguments. A failed assertion is `none`. Texts are lists of bytes;
-- machine words keep their wrap-around; a write of hex2bin past the end of a buffer makes the buffer's
-- list longer. consume_loop runs on fuel, one more than the bytes in the buffer:
-- each round but the last consumes one at least, and the theorem about it says that the fuel
-- is enough. flush_tls_pending, which calls itself through do_shutdown, runs on one round more than there
-- are send buffers: each call takes one, and the theorem about it says that more rounds change
-- nothing. The loop of the TLS do_socket_write has a round for each byte, enough where SSL_write makes
-- progress; where it does not, the loop is said to be running. The decimal printer
-- has ten rounds for 32 bits and twenty for 64, the digits of the largest such number.
--
-- Parameters. rapidjson's parser is a parameter of Pool/Receive and Config/Parse, the epoch of a block
-- (ethash) one of Dataset/Pp and Executor/State, the hash functions of randomx, ethash and progpow
-- parameters of Miner/Loop; randomx's and ethash's datasets are given by what they are computed from;
-- OpenSSL is a record of operations on a session; libuv's requests are actions; what strftime and
-- snprintf print is an argument, and so is the arithmetic of doubles.
--
-- In Program/Link a handler of the pool runs where the interface notifies it; in a read, what the
-- messages make the pool ask for is done when the loop over the messages has ended. uv_shutdown and
-- uv_close each have one callback, the first only where there is a connection. A first lookup that
-- fails makes the pool call uv_shutdown on a socket that was never initialised: libuv does not take
-- it, so the model ends there.
--
-- Not modelled: the rounding of doubles, the frames and colours of the reports, the terminal's modes in
-- get_key, the contents of random memory, a pool with TLS as one object with its interface, and main.
pub mod Common
pub mod Config
pub mod Console
pub mod Dataset
pub mod Executor
pub mod Job
pub mod Json
pub mod Miner
pub mod Misc
pub mod Net
pub mod Pool
pub mod Program
pub mod Vector32
