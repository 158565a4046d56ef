-- ===== src/Lib.antt =====
-- A verification library for this repository: the memory allocator with its free lists and its
-- preload shim, and the process monitor with its terminal and web interfaces.
--
-- The program has an allocator (src/allocator), a shim that puts it in front of malloc
-- (preload_shim.c), and a process monitor with a terminal and a web interface (src/monitor, src/ui).
-- The allocator takes blocks from the top of the heap with `sbrk`, or maps large ones. A block has
-- a header of 48 bytes, the payload, and a footer of 16 bytes. Free blocks are in one of eight
-- doubly linked lists by size. A block that is freed is merged with its free neighbours.
--
-- Memory: include/allocator.h and the static variables of src/allocator/allocator.c and
--   free_list.c. A state has the header and the footer at each address, each byte, the list heads,
--   the other statics, `errno` and the kernel. A command is a function of the state; it returns,
--   aborts with one of the messages of `fatal_abort`, or runs out of fuel.
-- Kernel: what sbrk(2) and brk(2) document, as a record of hypotheses on the system calls. Nobody
--   else moves the break.
-- FreeList: src/allocator/free_list.c, with the function names of the source. FreeList/Chain has the
--   doubly linked lists, FreeList/Inv the invariant of all of them (IsFreeLists), and the other
--   children one function each: SizeClass, Insert, Remove, Scan, FindFit, Verify, and Verified what
--   a verification that succeeds has seen.
-- Alloc: allocator_init, allocator_destroy, allocator_get_stats, allocator_verify_integrity,
--   ensure_break_aligned and is_adjacent_free_block of src/allocator/allocator.c. Its children
--   Malloc, Free and Realloc are my_malloc, my_free, my_calloc and my_realloc. Alloc/Layout has the
--   blocks side by side, Alloc/Inv the invariant of the heap (IsHeap): the blocks fill the memory
--   from heap_start to the break, their canaries are in place, what is in use has room for the
--   request, and exactly the free blocks are in the list of their class. Merge, Loose, Take, Cut,
--   Carve, Grow and Asked are the single changes of the heap; Coalesce, FreeLaws, MallocLaws,
--   Relocate, Resize, Shrink, Expand, ReallocLaws, Checks, Verify and Verified are about the functions, and
--   Session about a client's calls one after another. Store is what the allocator is for, an
--   abstract store of arrays, and Refine relates the calls to it, by Represented, RefineNew and
--   RefineHeld.
--   Alloc/Tests and Alloc/SessionTests have a small heap and kernel.
-- Shim: src/allocator/preload_shim.c, for one thread: the shim's state, bootstrap_alloc and
--   is_aligned_ptr. Shim/Calls has the functions it exports, Shim/Laws the bootstrap buffer and
--   aligned allocation; the operation `&` is in Prelude/Bits. The header of an aligned block lies
--   over a block_header_t, and is modelled as a write to that.
-- Text: C strings as lists of bytes, and what string.h and stdlib.h document of the functions that
--   the monitor calls (strcmp, strncmp, strstr, strtol). Text/Number has numbers, Text/Decimal their
--   printing and reading back.
-- Signal: src/monitor/signal_handler.c, the signal names and the guard on the process id. `kill` is
--   a parameter that says which calls succeed; the calls made are recorded.
-- Proc: src/monitor/proc_parser.c. Proc/Cpu has proc_parser_read_cpu, Proc/ReadProcess
--   proc_parser_read_process, Proc/MemInfo proc_parser_read_mem, proc_parser_init and
--   proc_parser_get_maps, and Proc/Snapshot the snapshot of the processes and the times kept for the
--   next one. What sscanf reads of a text is a parameter, and so is the arithmetic of C's float
--   (Floats).
-- Tui: src/ui/tui.c. tui_handle_input answers a key, tui_render keeps the selection within the
--   table; Tui/Frames is the loop of src/monitor/main.c around them, Tui/Confirm what it sends, and
--   Tui/Order compare_procs. qsort_r, getch and time are parameters.
-- Web: src/monitor/gui_server.c. Escape, Compare, Auth, Field and Request are escape_json_string,
--   constant_time_streq, check_auth, parse_json_field and handle_process_signal, each with a module
--   of laws; Web/Route is the choice among them by client_thread_worker. Web/Send is send_all,
--   send_response and serve_file, for any results of the calls of send, Web/Metrics
--   serve_metrics_json, and Web/Respond a client thread from the request to the bytes sent back.
--   Web/Workers is the accept loop with the client threads and gui_server_stop as a step relation,
--   with the wait on the condition variable and the broadcasts: Inv has the invariant (IsSound),
--   Shutdown the end of the shutdown. Web/Lifecycle is gui_server_init, gui_server_start and
--   gui_server_stop with what they hold.
-- Entry: the arguments of src/monitor/main.c, their values, and the token that it makes of random
--   bytes, as gui_server_init is given them; Entry/Codes has the exit codes of that loop. Entry/Main
--   is main with what it holds and what it prints for --json.
--
-- Bounds and fuel. Numbers are natural; the fields of the statistics wrap modulo 2 ^ 64. The other
-- sums are of sizes that the code has compared with SIZE_MAX - 1024 or with the break, and do not
-- wrap. A pointer that is freed is at least 48. The loops over a list or over the heap run on fuel:
-- one round for each block and one more are enough, and the theorems assume no less.
--
-- Not modelled. Headers, footers and payload bytes do not overlap in the model, so a program that
-- writes over metadata is not covered. A function that holds `alloc_mutex` runs as one step;
-- my_realloc without the mutex between its parts runs undisturbed. Log messages, and the `errno` of
-- the system calls, are left out, and so is the atomic sharing of bootstrap_offset by several
-- threads. Of the monitor: the numbers that sscanf reads, what ncurses draws, and the handlers of
-- SIGINT and SIGTERM, which only end the loops of main. A call of send that never returns is not
-- modelled, and in Web/Send neither is one that asks for a retry forever. In the step relation of
-- the server a client thread between its start and the closing of its connection may retry send any
-- number of times and is not followed further, and the shared snapshot under its lock is not
-- modelled. A difference of two ints that overflows wraps.
pub mod Prelude
pub mod Text
pub mod Signal
pub mod Web
pub mod Proc
pub mod Tui
pub mod Entry
pub mod Memory
pub mod Kernel
pub mod FreeList
pub mod Alloc
pub mod Shim
