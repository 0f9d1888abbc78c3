-- ===== src/Lib.antt =====
-- TécnicoFS, a small in-memory file system (fs/), and the message broker on top of it (mbroker/),
-- whose threads hand over work through a bounded queue (producer-consumer/). The broker keeps one
-- file per message box; publishers append to it with `tfs_write` and subscribers read it with
-- `tfs_read`, each call under one mutex, and every session takes a slot of the queue. The clients
-- (publisher/, subscriber/, manager/) send their requests through the register pipe, which the main
-- thread of the broker reads, and talk to their session through a pipe of their own.
--
-- Files and code:
--   Prelude      shared names; Prelude/Run: the commands on a state and the ways a C call ends (it
--                returns, exits, goes out of bounds, or waits for ever); Prelude/Returns: total
--                and partial correctness; Prelude/Bytes: slices of memory and the C string calls.
--   Fs/Types, Fs/Access, Fs/Blocks, Fs/Directory, Fs/Inodes, Fs/OpenFiles
--                fs/state.c and fs/state.h, one definition per function under the C name. The
--                state `Fs` holds the static variables; `fs_data` is a list of bytes, and directory
--                entries are read from and written to it as `dir_entry_t` lies in memory.
--   Fs/Operations  fs/operations.c, one definition per function and one per larger branch
--                (`open_existing`, `open_create`, `open_finish`, `write_block`, `write_bytes`).
--   Fs/Valid     the invariant; Fs/Scan, Fs/BlockLaws, Fs/Handles, Fs/Lookup, Fs/Directory/*,
--                Fs/Init, Fs/Open/*, Fs/Write/*, Fs/Read, Fs/Close, Fs/RoundTrip: its theorems.
--   Fs/Unlink    the state behind a removal, and Fs/Unlink/Spec: `tfs_unlink`.
--   Fs/Sound     the view of a state as a finite map from names to bytes, with handles at offsets;
--                Fs/Sound/*: each operation on this view. Fs/Calls: the calls as data, what each
--                promises on the view, and that the code keeps the promise; Fs/Calls/Runs:
--                sequences of calls from `tfs_init` on, as a step relation.
--   Pcq          producer-consumer/producer-consumer.c: the calls and the sequences of them;
--                Pcq/Bounds, Pcq/Lifetime, Pcq/Locks: its theorems.
--   Boxes        mbroker/mbroker.c: the array of boxes, and the functions that search and change it;
--                Boxes/Search, Boxes/Add, Boxes/Delete: its theorems.
--   Broker       mbroker/mbroker.c: the sessions that create, remove and list boxes, on the state of
--                the broker; Broker/Replies, Broker/Create, Broker/Remove, Broker/Listing: its
--                theorems.
--   Broker/Sessions  mbroker/mbroker.c: the sessions of publishers and subscribers, on the bytes that
--                come through and go to their pipes; Broker/Sessions/Publishing, /Serving, /Delivery
--                and /Refusal: their theorems.
--   Broker/Main  mbroker/mbroker.c: `main_thread_function` (one definition for the cases that read a
--                `register_request_t`), `mbroker_close` and `main`; Broker/Main/Dispatch: its theorem.
--   Wire         utils/utils.c and the sizes of utils/utils.h: the helpers on arrays and pipes;
--                Wire/Strings: their theorems. Wire/Requests: the request that the broker takes out
--                of a structure's bytes.
--   Client       what the clients share; Client/Publisher, Client/Subscriber, Client/Manager:
--                publisher/pub.c, subscriber/sub.c and manager/manager.c, with their theorems in
--                Client/Publisher/Frames, Client/Subscriber/Messages, Client/Manager/Sorting and
--                Client/Requests.
--   Fs/Samples, Fs/Sound/Samples, Broker/Samples, Client/Samples and the modules named Tests
--                sample states, and the theorems at them.
--
-- Modelling: a `size_t` or an `int` keeps its wrap-around where the code can reach it. A pointer
-- into a table is its index. `malloc` is a parameter of `tfs_init` and `pcq_create`: what lies in
-- the new memory is arbitrary. Every operation of fs/operations.c holds `g_library_mutex` from its
-- first line to its return, so a call is one step for other threads. Loops are structural
-- recursion over the number of rounds that the C loop makes, so no fuel can run out. A call of the
-- queue that waits on a condition variable ends as `waits`, and goes on as a second call
-- (`resume_enqueue`, `resume_dequeue`) when it is woken; a mutex that is never released again shows
-- as `blocked`.
--
-- In the sessions that create, remove and list boxes a string is its bytes before the terminator
-- and a `strcpy` checks the size of its target, but for the `error_message` of a reply; where arrays go through pipes, in Wire, Client,
-- Broker/Sessions and Broker/Main, they are lists of bytes of their full size, with whatever lay in
-- them. Whether a pipe can be made, opened and written is a parameter; so is what lies in variables
-- that the code leaves uninitialised.
--
-- A loop over a pipe or the standard input takes the bytes that come through it as a list, and fuel
-- for its rounds: every round takes a byte, so that one more than the length of the list is enough,
-- which the callers give. The loop of a subscriber's session reads the box's file byte by byte; one
-- round more than there are bytes behind its handle is enough, and it ends as `waiting` where it
-- would wait for its condition variable.
--
-- Not modelled: `insert_delay` (it takes time only), the text of warnings and panics, the failure
-- branches of pthread calls but for the inits in `pcq_create`, signals and their handlers, `strtol` (its result is a parameter), how
-- `qsort` sorts (it is a parameter, of which the C standard is the hypothesis), the publisher's pipe
-- that `delete_box` opens and closes, the
-- mutex of each box (a session holds it for the calls on one message, which are one step here), and
-- how the threads are scheduled: a thread that is created is noted with its argument, and that all
-- threads get the same variable `args`, which the main thread goes on to overwrite, is left out.
pub mod Prelude
pub mod Fs
pub mod Pcq
pub mod Boxes
pub mod Broker
pub mod Wire
pub mod Client
