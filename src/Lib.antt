-- ===== src/Lib.antt =====
-- Verification of Gudov, a C++ server framework built on fibers.
--
-- The program's parts: a ByteArray is the buffer of typed reads and writes that streams and messages
-- use; a TimerManager keeps the timers of an IOManager, which asks it how long epoll_wait may block and
-- collects the callbacks that have come due. The IOManager itself keeps, for each file descriptor, what to
-- schedule when it is readable or writable, and counts the events that are registered. What it schedules goes
-- to the queue of its Scheduler, whose workers resume Fibers. The hooks turn blocking system calls into a wait
-- for an event with a timer. Streams, HTTP messages, servlets and the pool of connections stand on these, and
-- the log and the environment serve all of them.
--
-- Files and code:
-- * Common, with Common/*: Boolean tests, lists, integers and bit operations on the native numbers, and
--   64-bit subtraction that wraps (sub64).
-- * ByteArray models gudov/bytearray.h, gudov/bytearray.cpp and gudov/endian.h. The chain of blocks is the
--   list `nodes`, `cur_` an index into it (none is nullptr), and a byte that was never written is none. A
--   call is a function from the object to an Outcome: it returns, throws std::out_of_range, or is
--   undefined, with the reason. ByteArray/Cursor and ByteArray/Raw are the operations on blocks (Write,
--   Read, SetPosition, AddCapacity, Clear, ToString), ByteArray/Values the typed ones (fixed-width
--   integers, varints, zigzag, strings). The number of new blocks is that of the
--   code's division of doubles, which is exact for fewer than 2 ^ 52 bytes. ByteArray/File holds what the operations promise: a sequence of
--   bytes with a position, and the invariant IsValid. ByteArray/Ahead is about what typed values leave
--   ahead of the position. The loops of Write and Read run on fuel, one round for each byte and
--   one more, since each round copies a byte at least; out_of_fuel is a fault of its own.
-- * Timer models gudov/timer.h and gudov/timer.cpp. Timers live in a heap (a function from addresses), and
--   the std::set is the list of their addresses in the comparator's order; insert, erase, find and
--   lower_bound are written on that list with the comparator. The clock and the address of a new timer are
--   arguments. Times are numbers that wrap at 2 ^ 64. Timer/Valid holds the invariant, Timer/Expiry and
--   Timer/Laws the loop of ListExpiredCallbacks.
-- * IoManager models gudov/iomanager.h and gudov/iomanager.cpp: the contexts of the file descriptors, and the
--   operations AddEvent, DelEvent, CancelEvent, CancelAll and the handling of one reported event in Idle. The
--   two bits of `events` are two Booleans, and what the scheduler is given is appended to a list. A failed
--   assertion is an outcome. IoManager/Valid holds the invariant; IoManager/Add, IoManager/Laws and
--   IoManager/Loop are about the operations.
-- * FdManager models gudov/fdmanager.h and gudov/fdmanager.cpp: the context of a file descriptor and the
--   growing table of them, with the cast of its size to int. The loop that grows the table runs on
--   fuel 2, since one round does for a table of two entries, and the constructor makes 64.
-- * Fiber models gudov/fiber.h and gudov/fiber.cpp: the fibers of one thread, with the fiber whose context runs
--   as `control`, and whose code the
--   context of each continues as `saved`. Resume and Yield are modelled up to their context switch.
--
-- * Scheduler models gudov/scheduler.h and gudov/scheduler.cpp: the queue, what a worker takes from it, starting
--   and stopping. Scheduler/Steps has the workers as a step relation, a step being what a thread does under
--   the lock or the end of a task, with the tasks that callers asked for and those done as history; Scheduler/Reach is about the
--   states they reach, Scheduler/Drain about one worker at a queue, with a turn for each task, whose
--   fibers end or yield as a parameter says.
-- * Hook models gudov/hook.cpp: the retries of doIO, with what it does written down as a list of actions, and
--   connectWithTimeout. Hook/Laws is about doIO, Hook/Calls about the rest. A call of the
--   system is a function of the number of the try, and the loops run on
--   fuel, a turn for each try.
-- * Stream models gudov/stream.cpp, whose loops run on fuel too, a turn for each call of read or write.
-- * Address models gudov/address.cpp: Address/Order the order of addresses, Address/Masks bits and prefixes.
--   CountBytes runs on fuel, a turn for each bit; a value with no defined result is a constructor of its own.
-- * Http models gudov/http: Http/Method, Http/Status, Http/Message, Http/Request, Http/Response and Http/Print are
--   http.h and http.cpp; Http/Reader is an independent reader of lines, and Http/RoundTrip, Http/Dump and
--   Http/ReadBack bring the two together. Http/Servlet is servlet.cpp, Http/Dispatch is about it. Http/Pool and
--   Http/Client are http_connection.cpp, the pool of connections and the requests, which use each other as
--   doRequest uses GetConnection and ReleasePtr; Http/PoolLaws, Http/PoolAge and Http/ClientLaws are
--   about them.
-- * Log models gudov/log.h and gudov/log.cpp: Log/Level, Log/Pattern (LogFormatter::Init, on fuel, a turn for each
--   byte of the pattern), Log/Event, Log/Logger and Log/Config, where the use of a null pointer is none;
--   Log/Parsed, Log/Laws and Log/Changes are about them.
-- * Config models gudov/config.h and gudov/config.cpp: the variables with their listeners, and the table of them.
--   A YAML node is walked to a depth that is an argument, and the walk of a file needs the depth of its maps.
--   Config/Laws is about looking up and loading.
-- * Env models gudov/env.h and gudov/env.cpp; Env/Options is about its options and paths.
--
-- Maps with text keys are association lists in the order of their keys (Common/Dict), and texts are lists of
-- bytes (Common/Text).
--
-- Parameters: the byte order of the machine (host); epoll_ctl, of which only success is asked; fstat and fcntl;
-- what the hooked system calls answer, whether AddEvent fails, the errno it leaves, and whether a timer has gone off; fnmatch;
-- strftime; boost::lexical_cast; what YAML says of a node; what opening a connection, sending and receiving meet; the clock. A lock is
-- held for the length of a method, so a method is one step.
--
-- Not modelled: the floating-point and file functions of ByteArray and its iovec lists; the waiting and stopping
-- of the event loop; the conversions of configuration values and YAML; sockets, sessions and servers, which drive the
-- system and the generated HTTP parser; threads and locks, which wrap pthread.
pub mod Common
pub mod ByteArray
pub mod Timer
pub mod FdManager
pub mod Fiber
pub mod Scheduler
pub mod IoManager
pub mod Hook
pub mod Stream
pub mod Address
pub mod Http
pub mod Log
pub mod Env
pub mod Config
