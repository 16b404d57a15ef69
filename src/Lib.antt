-- ===== src/Lib.antt =====
-- cczoecpp, a C++ library of fibers, timers, an event loop, sockets, byte arrays, HTTP messages, loggers
-- and configuration, modelled in the parts below. The scheduler runs the fibers of its queue; a call
-- on a socket that would block (Hook) sets a timer, asks the event loop (IOManager) for the event and
-- gives the thread up; the event loop resumes it when the descriptor is ready, and takes the
-- callbacks of timers that are due. The table of descriptors says which of them are sockets and what
-- their timeouts are. A socket has its addresses; a stream reads and writes a fixed size over several
-- calls; a byte array holds what is read and written; HTTP messages are printed to a stream.
--
-- Common: the shared names, tests on numbers, lists, bits and masks, text as bytes, and Outcome, what a
--   run of C++ code comes to: a value, an exception, undefined behaviour or a failed assertion (`fault`),
--   or the end of the fuel (`stuck`).
-- ByteArray: cczoecpp/Net/ByteArray/bytearray.{h,cpp} and endian.h. The chain of blocks is a list of
--   lists of bytes, m_curr an index in it. Fixed, Varint and Text have the integers and strings, Buffers
--   the lists of iovecs, and Gather what they stand for. IsValid is the invariant; Write, Growth, Cut,
--   WriteRefines, Exhausted, Read, ReadRefines and Seek relate the blocks to the flat memory that they
--   stand for; Stream composes writers and readers; Wire, Groups, Zigzag, Signed and TextLaws have the
--   round trips. The loops run on the number of bytes, and the walk of setPosition on the number of
--   blocks: each round takes one at least.
-- Timer: cczoecpp/Timer. The set is a list in order (Order), getExpiredCb is in Expired, the handles
--   are in Handle.
-- IoManager: cczoecpp/Scheduler/iomanager.{h,cpp}. addEvent is in Register, delEvent and cancelEvent
--   in Trigger, what idle does with an event in Idle. epoll_ctl is a parameter.
-- Scheduler: cczoecpp/Scheduler/scheduler.{h,cpp}. The queue of one thread and the rounds of run (Queue);
--   what a fiber does between two switches is a parameter.
-- Hook: cczoecpp/Net/Hook/hook.{h,cpp}. The wait of do_io over the timers and the events of the loop is
--   in Wait, Fit and Suspend, do_io with its retries in Io, the other hooked calls in Control, what they
--   do to flags and timeouts in Flags. The functions of libc are parameters, and so is what runs between
--   a yield and the next resume. do_io has fuel, which the calls that give EINTR or EAGAIN use up.
-- FdManager: cczoecpp/Net/Hook/fdmanager.{h,cpp}. fstat is a parameter.
-- Socket: cczoecpp/Net/Socket/socket.{h,cpp} and socketStream.cpp. State has the descriptor over all
--   operations, Timeouts the timeouts through the hook. The calls of the system are parameters.
-- Address: cczoecpp/Net/Address. Networks and masks in V4, V6 and Broadcast, the order in Order, Unix
--   paths in Path, DNSLookup and GetNICAddresses in Lookup, Multimap and Nic.
-- Stream: cczoecpp/Net/Socket/stream.{h,cpp}. The virtual read and write are parameters, and keep to
--   moving one byte at least and no more than they are given. Fuel is the size: each round moves one.
-- Http: cczoecpp/Net/Http/http.{h,cpp}. Tables and Names, the maps in Headers, dump in Message and Dump.
-- Log: cczoecpp/Log. Patterns and what they print in Formatter, Pattern and Init (fuel is the length of
--   the pattern: each round takes a byte), loggers and appenders in Logger and Output, the manager in
--   Manager.
-- Config: cczoecpp/Config. Variables, listeners and YAML files in Vars and Load, the conversions of
--   containers in Cast and Trips. What yaml-cpp and boost do is a parameter.
-- Fiber: cczoecpp/Fiber/Fiber.{h,cpp}. The states of the fibers of one thread, over all runs (Run).
--
-- Runs in each part holds examples, at which the theorems are applied.
--
-- Not modelled: the machine context of a fiber, threads that run at the same time (every operation is
-- one step) with the start and the stop of the scheduler, the servers, the HTTP session, the vendored
-- HTTP parser, the files of the configuration and of the logs, and the files and debug strings of the byte
-- array.
pub mod Common
pub mod ByteArray
pub mod Timer
pub mod IoManager
pub mod Fiber
pub mod Scheduler
pub mod FdManager
pub mod Hook
pub mod Address
pub mod Socket
pub mod Stream
pub mod Http
pub mod Log
pub mod Config
