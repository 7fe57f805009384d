-- ===== src/Lib.antt =====
-- Verification of the operating-system layer of this repository: a controller for card readers that runs on
-- Linux. The programs of app/sys (reader threads, a network client, configuration) stand on osal/, an
-- adapter layer of timers, threads, mutexes, semaphores, message queues, delays and debug output; osal/
-- stands on osal/linux, which wraps POSIX, and whose own large part is a library of per-process timers.
--
-- The parts and their files:
-- Base: native numbers, Boolean tests, lists of identifiers (Base/Lists), signed integers (Base/Int).
-- Timer: osal/linux/os_timer.c. Timer/Timespec has `struct timespec` and its arithmetic, and
--   Timer/Timespec/Laws reads it in nanoseconds; Timer/Timespec/Clock has the order, the sum and the
--   milliseconds that the contracts are stated with, which do not use the code's own helpers. Timer/Links
--   has the circular lists, on an explicit store of pointers; Ring, Append, Unlink and Walk relate them to
--   lists of nodes, and Family is about all the lists of a store at once. Timer/State has the globals: the
--   256 timers, the 16 thread nodes and the signal thread (node 16), the free and active lists, `errno`,
--   the wake-ups made and whether an assertion failed. Pool, Threads, Create, Settime, Gettime, Delete,
--   Service and Api have the functions, under their names in the source without the leading underscores.
--   Timer/Store relates the pointers to the lists of the state, and Timer/Spec is the contract of the
--   module: a table of timers, the events (what is called, or done by a serving thread) and the changes of
--   the table that an event may make (Spec/Change). Spec/Plan tells from the events alone when a timer is
--   to fire; Spec/OnTime, Oneshot and Served are about when and how often timers fire, and Spec/Limits
--   about when there is a timer to give. Order is about a thread's queue (Order/Stable and Order/Picked
--   about the order of many insertions), Period about the times of a periodic timer, Invariant about all
--   the states that the module can reach, and Behaviour about what each call does.
-- Osal: osal/*.c with what they call of osal/linux/os_core.c and osal/linux/os_pthread.c: Status (the
--   status codes), Deadline and Sleep (times), Sem, Mutex, Spinlock, Thread (with Thread/Naming and
--   Thread/Wrapper), Queue, Timers, Clock (with osal_get_systemtime of include/cv_osal.h) and Debug (with
--   Debug/Output for where messages go).
-- App: Net has the decoding of hexadecimal text (Hex), the frames that the network thread reads (Frame),
--   the state of the connection (Link) and a client that nothing calls (Client) of app/sys/eg_net.c; Usb
--   has the table of ports, the list of devices (Devices), the frame with the time of day (Clock) and the
--   timer callback of app/sys/eg_usbto322.c, and the threads that serve readers (Threads); Usb/Init has the
--   start of the program, `main` of app/sys/main.c and `eg_usbto322_init`, over the models of threads and
--   timers; Config and Ubus have the configuration file and the ubus client of app/sys/eg_9531.c; Bytes has
--   the byte order of include/cv_cms_def.h.
-- The modules called Tests run the parts on concrete data.
--
-- How the code is read. A function that changes globals takes the state and returns the new one with its
-- result; a pointer result that may be NULL, and an `int` result of which only 0 or -1 occur, is an
-- `Option` or a `Bool`. An `int` is a mathematical integer; conversions to `unsigned` are written out. A
-- timer or a thread node is its index in its array, and the lists of these are lists of indices: that the
-- pointer operations do what the list operations say is the subject of Timer/Store. A list node is on one
-- list at most, so unlinking a timer removes its index from every list. In the functions over the state the
-- functions called stay opaque in proofs until they are unfolded by name.
--
-- Concurrency: the mutex of the module is given back between the parts of `os_timer_add` and
-- `os_timer_start`. Timer/Spec/Sections takes each critical section as a step, in any order, whichever
-- thread runs it, and has the invariants of all the states that these reach. Timer/Invariant/Reach takes
-- whole calls as steps, each with its own answers of the system and its own calling thread, and the
-- contract of the module is about these: what the table of timers goes through when another call comes
-- between the parts of an addition or of a start is not stated. `__timer_delete` waits with the mutex
-- released, so it is two steps; a round of a serving thread is `thread_pass`, up to the release of the
-- mutex for the handler, and `expire_end` after it. `__timer_settime` with an old value wanted releases the
-- mutex to read the clock; it is modelled for one caller, and the API never asks for the old value. What
-- the system answers (thread creation, semaphores, queues, clocks, memory) is an argument. The message
-- queues of the system are a record of operations with the laws that Osal/Queue/Laws names.
--
-- Fuel: the loop that catches up with a periodic timer takes as many rounds as there are nanoseconds to
-- catch up, which is enough because every round gains at least one; and the walk through a queue on the
-- pointers takes one round more than the queue has nodes.
--
-- Endless loops are read in rounds: the model of a thread gives the calls of its first rounds, for any
-- number of rounds.
--
-- `__timer_gettime` and `__timer_getoverrun` (Timer/Gettime) are modelled though #if (0) leaves them out of
-- the build.
--
-- Not modelled: the signal masks of osal/linux/os_pthread.c, which are calls of the system, and how a
-- format makes a text; of app/sys, what is compiled out, such as the state machine of the reader threads,
-- msg_manager.c, which is empty, and test.c; the generic list, avl and blob headers, SQLite, hidapi,
-- libubus and the other libraries under include and library, which the models take as parameters where they
-- are called; the constants and structures of other products under include; and app/sys/key_list.c with
-- app/sys/tlv_box.c, a library copied into the repository that no other file calls.
pub mod Base
pub mod Timer
pub mod Osal
pub mod App
