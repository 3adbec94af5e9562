-- ===== src/Lib.antt =====
-- FlexPS, the parameter server: its key ranges, its stores and its consistency protocols.
--
-- The program trains models on a cluster. Workers push updates to servers and pull values from
-- them; every server holds the keys of one range.
--
-- Kvstore models kvstore/:
--   Kvstore/RangeManager   kvstore/range_manager.hpp and range_manager.cpp: which server owns which
--                          keys and chunks (SetMaxKeyAndChunkSize, GetServerFromKey, GetLocation).
--                          Kvstore/Ranges is ps_lite/range.h.
--   Kvstore/Handles        kvstore/handles/basic.hpp: `update` and `retrieve`, which apply a push
--                          to a store and answer a pull from it.
--   Kvstore/Messages       what the servers share: a request, a reply, and the interface `Handle`
--                          of a store behind them. Handles/Interface gives the one for map stores.
--   Kvstore/SspServer      kvstore/handles/ssp_server.hpp: stale synchronous parallel.
--   Kvstore/BspServer      kvstore/handles/bsp_server.hpp: bulk synchronous parallel.
--   Kvstore/DefaultServer  DefaultUpdateServer of kvstore/handles/basic_server.hpp, which has no
--                          consistency control.
--   Kvstore/KvWorker       kvstore/kvworker.hpp and workercustomer.cpp: how a worker slices a request
--                          over the servers, counts the replies and puts them together. Its children
--                          are Chunks (the chunk requests) and Replies (the receiving thread).
--
-- Scheduler models parts of cluster_manager/task_scheduler/:
--   Scheduler/HistoryManager   history_manager.hpp and .cpp: how often a task visited a process, and
--                              get_preferred_proc of task_scheduler_utils.cpp.
--   Scheduler/TaskManager      task_manager.hpp and .cpp: status, priority and anger of the tasks.
--   Scheduler/AvailableWorkers available_workers.hpp and .cpp: the free threads, and the ways to
--                              select some of them. Its child Selection says what a selection does.
--   Scheduler/SelectThreads    task_scheduler_utils.cpp: the threads for an instance of a task, and
--                              the test that the cluster is large enough for all tasks.
--   Scheduler/Pool             what the schedulers share: free threads, running threads, history.
--   Scheduler/SequentialScheduler, Scheduler/GreedyScheduler
--                              sequential_task_scheduler.cpp and greedy_task_scheduler.cpp.
--
-- Consistency models ml/consistency/:
--   Consistency/BspController  bsp_consistency_controller.hpp: the threads of one process, which
--                              alternate pulls and pushes, as a step relation.
--   Consistency/SspController  ssp_consistency_controller.hpp: the threads of one process, which may be
--                              some pushes ahead of the slowest. Its clocks are those of SspServer.
--
-- Ml models parts of ml/:
--   Ml/ChunkBasedModel     model/chunk_based_model.hpp: the parameters of one process in chunks, which
--                          are fetched when they are first pulled, with Load and Dump.
--   Ml/PsWorker            PSWorker of mlworker/ps.hpp, which waits for every request, and Ml/Batch, the
--                          values and sums of its second interface, shared by other workers.
--   Ml/PsMapNoneWorker     PSMapNoneWorker of mlworker/ps.hpp, with a cache that may be some pulls old.
--   Ml/PsMapChunkWorker    PSMapChunkWorker of mlworker/ps.hpp, with a cache before that of the process.
-- What stands behind a worker, the kv store or the cache of the process, is a function from the
-- number of the pull and its keys to the answer, so that nothing is assumed of what others push in
-- between; behind ChunkBasedModel it is a function from chunk ids to chunks. KvWorker cuts only
-- ascending keys and chunk ids up rightly, so that the answers are assumed right for these alone.
--
-- Common holds Boolean tests, lists under native numbers, outcomes of code that may throw, and
-- `std::vector`s that grow by `resize`; Common/Members is sets and Common/Maps is maps. The tests
-- stand in an Examples module of each part.
--
-- The workers of an instance have any distinct ids: a sender's id is the number of workers of the
-- cluster plus its thread (kvstore/kvstore.cpp), and an instance may use some of the threads only.
-- Their number is what the servers know, from the last round of init messages.
--
-- A server is a record of its member variables, and `process` a function from a request and a
-- state to a state and the replies in the order in which they are sent. An exception, a failed
-- assertion and an access behind the end of a vector are errors as values; only a store that is a vector
-- is taken to be long enough. `uint64_t` arithmetic
-- wraps around modulo 2^64. `int` clocks and counters are natural numbers, with differences that
-- may be negative compared by moving the subtrahend to the other side. Every loop is over a
-- list, but two of the scheduler: the draws of get_workers, whose fuel is the number of free
-- threads, each draw taking one, and the loop of SelectThreads, whose fuel is the number of
-- threads asked for, each round finding one at least. An unordered container of the scheduler is
-- a list in an order of iteration.
--
-- A kv_id for which no range is set reads 0 as its sizes, where the source is undefined. Condition
-- variables are left out of Consistency: a thread that waits goes on when its test passes, and that
-- it is woken up then is not shown.
--
-- Not modelled: streams (third-party; a request is what its reads yield), the mailboxes that
-- carry messages, the threads and sockets of worker/ and cluster_manager/, the scheduler by
-- priorities, whose parts are modelled, input in io/, floating-point code in lib/, and the
-- programs in examples/ and exp/. Of ml/, the workers of one process and the models that threads
-- share are left for later.
pub mod Common
pub mod Kvstore
pub mod Scheduler
pub mod Consistency
pub mod Ml
