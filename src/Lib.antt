-- ===== src/Lib.antt =====
-- A server for classrooms: a teacher, a whiteboard and students are connected to it, and it passes
-- their messages on and keeps who is in which room, the pictures of the house-building game and the
-- times of the puzzle.
--
-- How the program works. The event loop puts a received message into a buffer of the pool and the
-- buffer into the receive queue. RecvTask::work takes it from there, looks its type up in the table
-- of handlers and calls the handler. A handler reads and changes the rooms, and either queues the
-- buffer for sending, with the receiver's descriptor and the message type of the server, or gives it
-- back to the pool.
--
-- Which file models which part:
--   Protocol            protocol.h: message types, client kinds, states, the head of a message
--   QueueT, Single      QueueT.h, PoolT.h, Buf.h, Single.h: queues, pool, buffers, each operation one
--                       step
--   Mutex               Mutex.h, over the pthread library; Mutex/Guarded what a lock gives to a class
--   QueueT/Threads      QueueT.h as its threads run it, with the lock and the condition variable
--   PoolT               PoolT.h as its threads run it, with the guard
--   Student, Course     content/student.cpp, content/course.cpp
--   Room                content/room.cpp: state and lookups; Room/Notify the messages when a client
--                       leaves; Room/Games and Room/Score the games (with content/puzzle.cpp),
--                       Room/Groups the groups of init_buildhouse_group
--   Manager             content/roommanager.cpp
--   House               content/makehouse.cpp: CNode and CMakeHouse; House/Layers the layers;
--                       House/Group CGroup
--   Database, Layout    the answers of the queries of SQL.h, with database.cpp in Database/Connection,
--                       and the packed structures of protocol.h, which Layout/Structs lists
--   Login               content/LoginCheck.cpp
--   Post                handler/HandleMessage.cpp: postMessage and the others; Post/Records the two
--                       that answer from the database, with what they send in the files below it
--   Handler             handler/*.cpp: Forward the handlers that pass a message on, Todo the empty
--                       ones, Classroom, Account, BuildHouse, Puzzle, Picture
--   Dispatch            handler/HandleMessage.h, handler/MSGHANDLE, RecvTask.cpp (in Dispatch/Work)
--   Evloop, SendTask    Evloop.cpp with recv_n of Sock.c, and SendTask.cpp
--   Sock                the other calls of Sock.c
--   System              the event loop, the receive task and the send task as steps of one system;
--                       System/Reach the states that come after one another, System/Holdings and
--                       System/Exhaustion what becomes of the buffers, and the files beside them
--                       what each handler keeps of the rooms
--   ThreadPool          ThreadPool.cpp
--   ProcessManager      ProcessManager.cpp
--   Config              Config.cpp
--   TwomapT, AtomicT    twomapT.h, AtomicT.h
--   Class               content/class.cpp
--   StdMap, Base        std::map, and what all files share
--   Server              the state that the handlers share, and what they get from outside
-- The other files hold theorems about the part they are under; Examples has concrete states, and
-- each theorem of the list below at one of them.
--
-- How the state is represented. A function of the program that changes the state takes it and gives
-- the new one; a name in the style of the source is the function with that name, in the spelling of
-- this library. A pointer to a buffer is its address, 0 is NULL. A Buf object and the memory behind
-- its pointer are apart, because copies of the objects make two of them share one memory. An answer
-- of type Option is none where the program has undefined behaviour: a NULL that is read, a copy past
-- the end of an object. Maps are lists of entries in the order of their keys; a room or a group is
-- written back under its key where the program writes through a pointer. Integers of a message are
-- their 32 bits, and the floats of a picture are their bit patterns, which the server only stores.
-- The order in which a compiler evaluates the arguments of std::swap in the two moves between layers
-- is a parameter, as are the time, the address of a new object, the picture file, the bytes on the
-- stack, the text that printf makes of a number, and the answers of the database.
--
-- Fuel. Picture.send_pieces has one more round than the pool has buffers, since each round takes one
-- from it and, within the step, none comes back (Handler/Picture/Fuel). The loops of recv_n
-- and of the send task recur on the list of what the system calls return.
--
-- Steps. A callback of the event loop, a round of the receive task and a round of the send task are
-- one step each, and a step that faults leads to no state. The threads of the program do interleave
-- inside these steps; what the theorems on runs say is said of runs whose steps do not overlap. In the
-- thread pool a step is what a thread does between two calls of `work`. A call of a queue or of the pool
-- is one step there; QueueT/Threads and PoolT take these calls apart into their accesses of the shared
-- queue and their calls of pthread, which any number of threads make in any order.
--
-- What is not modelled: an exception of the database in the middle of its rows, which comes before the
-- first one or not at all; the `int i` that recv_cb keeps of the count of recv_n, which a buffer's size
-- keeps below 2^31; the set-up of sockets and of libev and the log, which are calls of the system
-- and of libraries; the overlap of the steps of System, and the locks of the other classes (each
-- operation under one is one step); the accessors of classes that nothing reads; and the two handlers of
-- handler/HandleRainbowValley.cpp, which does not compile (it uses m_buildhouse_groups, a member of
-- another class): they are parameters of the table.
pub mod Base
pub mod StdMap
pub mod Protocol
pub mod QueueT
pub mod Single
pub mod House
pub mod Student
pub mod Course
pub mod Room
pub mod Manager
pub mod Mutex
pub mod PoolT
pub mod Database
pub mod Layout
pub mod Server
pub mod ThreadPool
pub mod Sock
pub mod TwomapT
pub mod AtomicT
pub mod Class
pub mod Config
pub mod ProcessManager
pub mod System
pub mod Login
pub mod Post
pub mod Handler
pub mod Dispatch
pub mod SendTask
pub mod Evloop
pub mod Examples
