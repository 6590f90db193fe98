-- ===== src/Lib.antt =====
-- A model of the uart daemon: a process that carries messages between a serial line (a bluetooth
-- chip), a named pipe, sockets and the duer_linux process.
--
-- An event loop (`epoll_start` of src/uart_start.c) hands each readable descriptor to a thread pool
-- (src/thread_pool.c). The pool's workers run the receiving handlers, which read the bytes and put
-- them, as one message with their descriptor, into the receive queue, a linked list
-- (src/linklist.c). The thread `data_process` takes the messages out and gives each to
-- `data_parse`, which finds the handler whose word the message begins with in the table of its
-- descriptor (src/uart_protocol.c); a handler answers by `ready_send_data`, which puts the answer
-- into the send queue. The thread `send_out_handler` takes the answers out and writes each to its
-- port. Beside these stand a byte queue (src/data_fifo.c), the formatting of messages for
-- duer_linux (src/dueros_handle.c), the report of keys to a server (src/report_key.c) and the
-- broadcasts of a test mode (src/uartd_test_mode.c).
--
-- Base         the shared names: tests, lists and integers over the native numbers
-- Fifo         src/data_fifo.c. The struct is the record Fifo; `none` is a fault (an index out of
--              the buffer, or past the end of int). Fifo/Inv has the invariant, Fifo/Refine the
--              bytes that a queue holds, Fifo/Transfer the two loops, Fifo/Session sequences of
--              calls against a list of bytes; Fifo/Graph is the drawing, Fifo/Rows what it reads.
-- Heap         the memory: typed objects at addresses, with loads, stores, frees, and faults.
--              `calloc` takes the address that it returns as an argument, null where it fails.
-- Linklist     src/linklist.c over that memory. Linklist/Shape says what a queue looks like in it;
--              Alloc, Insert, Add, Pop and Dequeue, Destroy, and Round and Clear take the
--              operations.
-- ThreadPool   src/thread_pool.c: the sections under the mutex as functions on a pool.
--              ThreadPool/System is the step relation of any number of workers, callers and
--              destroying calls; Invariant and Progress are about its reachable states.
--              ThreadPool/Memory has the same sections as commands on the memory, with
--              `threadpool_init` and the freeing behind the joins; Memory/Shape says what a pool
--              looks like there, Add and Take go through the two larger sections, Sections relates
--              all of them to the functions on a pool, Init and Release are about what is allocated
--              and freed. Memory/Run has the sections, and the workers' running of jobs, in any
--              order: Flow and Held are about the queued and the held jobs, and Ran about every
--              reachable memory.
-- Daemon       src/uart_start.c and src/uart_protocol.c: the state that the threads share, with the
--              two queues as lists of messages. Read is `whole_read`, Receive the receiving
--              handlers, Text the message with the time, Reply `ready_send_data`, Parse
--              `data_parse` with its tables and handlers, Rounds a round of each of the two
--              threads, Pipeline a request's way through all of them, Wakeup the interleavings of a
--              queue's producers and consumer. Start is `main`, `epoll_start` and a round of the
--              event loop; Line the steps of the loop and of the handlers that it starts for the
--              serial line, Exclusive what holds between them; Pipe the steps on the pipe. Traffic
--              has what the handlers and the two threads do to the messages, and System the step
--              relation of all of them, with the tests, waits and signals of Wakeup around the
--              rounds; a parameter says whether a wait may return unasked and whether a signal may
--              come between a test and a wait. Parse/Words says which answers a text asks for and
--              Parse/Outcome that `data_parse` queues these, Ready puts this into a round of
--              `data_process`, Delivery has what holds in every reachable state, Awake which
--              signals are still to come, and Drain how the queues come to be empty. Refine
--              relates the queue of messages to the linked list in memory for a consumer, Produce
--              for a receiving handler. Send is `ready_send_data` on that memory; Store has the
--              calls of the producers and the consumer of one queue as steps on it, Stored, Takes
--              and Kept say what each leaves, and Both has the two queues in one memory.
-- Format       src/dueros_handle.c: the three formatting functions.
-- Report       src/report_key.c: `WriteMemoryCallback`, which collects an answer's body. Answer is
--              `curl_init_and_reportdata`; Event is `report_key`, `get_duercfg` and `get_cur_time`,
--              and Posted what they post; Command is `excute_cmd`, and Output the loop in it.
-- Serial       src/uart_start.c: `set_opt` and the opening of the serial line and the pipe.
-- Files        src/uart_protocol.c: the helpers that read files, on a file's bytes; Files/Lines is
--              about the search for a line.
-- Sockets      src/socket_server.c and src/epoll_server.c: the helpers that make a server, accept a
--              client and set a descriptor's flags; Sockets/Results is about them, and
--              Sockets/Select is the loop that the source calls discarded.
-- TestMode     src/uartd_test_mode.c: the broadcasts of the test mode; Sockets is about one
--              interface, Commands about both.
--
-- Numbers are the native ones. The int indices of the byte queue fault where they would pass
-- 2^31, its unsigned count and the handlers' counters wrap at 2^32; sizes of messages, buffers
-- and job counts are unbounded. What the kernel and the C library return is an argument: the
-- chunks that `read` gives, whether an allocation succeeds, the local time, the bytes of an int,
-- what `vsprintf` prints, the block that `realloc` gives, the output of a command, the objects of
-- json-c. Fuel is used in four places: the loop of `destory_singlelinklist`, which takes a round
-- for each message and one for the test behind the last, and is shown to end with that; the loop
-- of `threadpool_destroy` that frees jobs, with a round for each and one more, likewise; the loop
-- of `excute_cmd`, for which a round for each byte of the output and one more are shown to be
-- enough, where it ends at all; and the digits of a number, at most ten, of which the fields of a
-- time need four.
--
-- Not modelled: `get_duercfg_volume`, which is under `#if 0`; the demonstration `test` of
-- src/linklist.c; logging and delays; the options that curl is given.
pub mod Base
pub mod Fifo
pub mod Heap
pub mod Linklist
pub mod ThreadPool
pub mod Daemon
pub mod Format
pub mod Report
pub mod Serial
pub mod Files
pub mod TestMode
pub mod Sockets
