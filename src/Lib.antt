-- ===== src/Lib.antt =====
-- EmbeddedLibrary: a C library of small components for bare-metal firmware. There are no threads and no
-- allocation: the application owns every object and every array, passes pointers to them, and calls
-- the components from one main loop.
--
-- Parts and files
--   libraries/mizu_status/mizu_status.h            Status: the status codes that all calls return.
--   libraries/mizu_fifo/mizu_fifo.c                Fifo: the ring of bytes; mizu_fifo_X is Fifo.X.
--   services/scheduler/scheduler.c                 Scheduler (slots and the sort) and Scheduler/Api
--     (scheduler_init, _update, _run, _get_stats as init, update, run, get_stats).
--   services/mizu_status_service/mizu_status_service.c   StatusService: mizu_status_service_X is X.
--   services/command/command.c                     Registry (groups of descriptors and the searches
--     over them) and Command: mizu_command_service_X is X.
--   services/parameter/parameter.c                 Parameter (values, descriptors, their validation),
--     Parameter/Adjust (mizu_parameter_adjust_value and _scale_step) and Parameter/Service (the calls
--     on the registry: mizu_parameter_service_X is X).
--   services/menu/menu.c                           Menu (configuration and state), Menu/Index
--     (mizu_menu_move_index), Menu/Steps (mizu_menu_find_step_index), Menu/Messages (the
--     feedback and mizu_menu_process), Menu/Events and Menu/Events/Handlers (a handler for each state,
--     and mizu_menu_handle_event), Menu/Init (mizu_menu_init) and Menu/View, Menu/View/Rows,
--     Menu/View/Query (mizu_menu_query_view). Menu/Shown watches what the user of the editor has been
--     shown, and Menu/Session runs a history of calls with it. The menu holds the two services and calls them; a confirmed command
--     runs through Command.execute, an edit through set_by_id.
--   libraries/pid/pid.c                            Pid (configuration, object, init and reset) and
--     Pid/Calculate (mizu_pid_calculate).
--   libraries/cascaded_pid/cascaded_pid.c          Pid/Cascade: mizu_cascaded_pid_X is X; it runs two
--     controllers of Pid on copies, and writes them back when both have succeeded.
--   archive/legacy_src/libraries/cobs/src/cobs.c   Cobs: cobs_X is X. Cobs/Stuffing says what the
--     encoding is, without indices.
--   archive/legacy_src/libraries/object_pool/src/object_pool.c   Pool: object_pool_X is X. Pool/Ledger
--     sets a client's ledger of the addresses lent beside it.
--   archive/legacy_src/libraries/snapshot_buffer/src/snapshot_buffer.c   Snapshot (the writer's calls)
--     and Snapshot/Readers: snapshot_buffer_X is X. Snapshot/Steps has the events of both sides.
--   archive/legacy_src/libraries/fixed_queue/src/fixed_queue.c   FixedQueue and FixedQueue/Queries:
--     fixed_queue_X is X.
--   archive/legacy_src/libraries/byte_order/src/byte_order.c   ByteOrder: byte_order_X is X.
--   Foundation holds the status codes of the archived libraries and the test for ranges that overlap,
--     which three of them declare alike.
--   Prelude holds the Boolean tests, the arrays as lists and the lemmas on both.
--
-- How the model is made
--   An object pointer is an Option, with none for NULL; a call returns its status and the object after
--   the call. An array pointer is the Option of its list, with the count beside it as in C. A static
--   function whose pointer was checked by its caller takes the object itself. A query returns its
--   status and the option of what it writes through its output pointer; a Boolean argument says
--   that this pointer is NULL. Words of 32 bits are natural numbers with the wrap-around written out;
--   size_t is taken as 32 bits wide, as on the target. Callbacks and handlers are functions of their
--   context (a number that names it) and of a state W, which stands for everything outside the
--   component and is threaded through the calls in program order; so a callback that calls the same
--   scheduler or service again is not modelled.
--   In the archived libraries, which test the ranges of their pointers, a pointer is its address, a
--   number of the flat 32-bit space, with 0 for NULL, and the bytes it points to stand beside it; sizeof
--   is that of the 32-bit target.
--   float and double are types of the record Floats, a parameter, with the operations that the code
--   applies to them; no property of them is assumed. The float of the controllers is SinglePrecision;
--   their theorems assume of it, as Laws, what the C standard says of fminf and fmaxf, and that zero
--   is a finite number. The tag and the union of a parameter value are one data type, so a value whose
--   tag is none of the four kinds is not modelled.
--
-- Fuel
--   The loop of scheduler_sift_down runs on fuel, one more than the number of slots; the theorem on
--   scheduler_init says that this is enough. The loops of cobs_decoded_size and cobs_decode run on the
--   size of the encoding, since each round reads a byte at least; the theorems on cobs_decode say
--   that this is enough. The search of object_pool_acquire runs on the capacity; the invariant of the
--   pool, which it keeps, says that this is enough. All other loops are bounded by their counts.
--
-- Not modelled
--   The other archived sources under archive/, which the build does not compile, the tests and the
--   build files. Arrays that overlap are modelled only for COBS; the pool, the snapshot buffer and the
--   fixed queue refuse them. Arrays shorter than the count passed with them, on which the C code reads
--   out of bounds, are outside the hypotheses.
pub mod Prelude
pub mod Status
pub mod Fifo
pub mod Scheduler
pub mod StatusService
pub mod Registry
pub mod Command
pub mod Parameter
pub mod Menu
pub mod Pid
pub mod Cobs
pub mod Foundation
pub mod Pool
pub mod ByteOrder
pub mod Snapshot
pub mod FixedQueue
