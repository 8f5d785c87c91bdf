-- ===== src/Lib.antt =====
-- Verification of the C programs of this repository, the exercises of an operating-systems course. Each
-- program stands for itself; what they share is the style of their lists and of their memory.
--
-- BestFit: the best-fit allocator of STY25/vika4/assignment04-templates/p1/malloc.c with malloc.h. `Heap`
-- holds the globals _heapStart, _heapSize, _firstFreeBlock, the static heapSize of allocHeap, the block
-- headers in memory, and the sizes that sbrk was asked for. An allocated header holds NULL as next, as
-- malloc.c writes it, and not the magic number of malloc.h. init_allocator, round_up, allocate_block,
-- my_malloc, merge_blocks, my_free and get_alloc_statistics are the C functions; search_best,
-- insert_position, locate and statistics_loop are their loops. A `Block **` is a `Link`. Children: Search
-- (the search loop), Links and Allocate (writes through the link), Grow (a new region), Malloc and Extend
-- (my_malloc, and where the heap grows or cannot), Merge and Free (my_free), RoundTrip, Statistics, Regions (what
-- allocHeap asks for), Valid (the well-formed heap).
-- FreeList: what a free list stands for, a list of addresses and sizes, with its laws; FreeList.Release
-- is the contract of giving a block back. Memory: block headers as units at their addresses.
-- Strategies: the four strategies of STY25/vika5/P5/malloc.c with malloc.h, over the heap of BestFit, whose
-- functions the file repeats. `Allocator` adds allocationStrategy and _next_fit_cursor; strategic_malloc and
-- strategic_free are my_malloc and my_free, search_first, search_worst and search_next their loops, and
-- best fit is search_best of BestFit. Children: Choice (first fit), NextFit.
-- Mutex: threads around one recursive mutex, a step at a time: `Proc` is what a thread still does, `World`
-- the shared state, the mutex and the threads. Children: Guard (who may touch the shared state), Serial
-- (interleavings and whole critical sections), Progress (who can go on).
-- Threaded: STY25/vika9/assignment09-templates-1/p1/malloc.c, the allocator of vika4 under a mutex, which
-- threads call. malloc_call, free_call and dump_allocator are my_malloc, my_free and dumpAllocator, each
-- round of a loop a step of its own; what they do to the heap is taken from BestFit. Children: Rounds and
-- Calls (a call alone), Guards, Threads, Clients and Parallel (calls among other
-- threads, as in test-malloc.c), Dump.
-- Marked: STY25/vika9/assignment09-templates-1/p1/savesolmalloc.c, a later allocator on the same heap, which
-- marks allocated blocks with a magic number and asserts what it expects. malloc_marked and free_marked are
-- my_malloc and my_free, search_smallest and find_before their loops, enlarge_heap and following allocHeap
-- and _getNextBlockBySize. Children: Search, Allocate and Malloc (next to those of BestFit), Merge, Insert
-- and Free (my_free), Empty, Extend (where the heap grows).
-- TaskQueue: appendItem and removeFirstItem of STY25/vika3/Passignment03-templates/p1/scheduler.c, at
-- the level of pointers. TaskQueue.Laws: the list that a queue stands for.
-- Scheduler: the rest of scheduler.c with scheduler.h. `Scheduler` holds priorityQueues, currentPriority,
-- samePrioCounter, the items of the queues and the tasks. init_scheduler, on_task_ready,
-- on_task_preempted, on_task_waiting and schedule_next_task are the C functions; take_ready is the loop
-- over the priorities. Children: Invariant, Enqueue, Ready, Pick (the loop), Counts, Next, Init, Events
-- and Reach (sequences of calls), Fair.
-- RoundRobin: STY25/vika3/LABtutorial-03/roundrobin.c with its scheduler.h, on the items of TaskQueue.
-- `Ring` holds listHead, the items and the states of the tasks; next_task and task_ready are
-- scheduleNextTask and onTaskReady, turns is the loop of main. Children: Laws, Turns.
-- PageTable: STY25/vika7/P7/assignment07-templates/p1/page_table.c with page_table.h. `Paging` holds _cr3,
-- the directories and the tables, each at its address. map_page, translate_page_table and unmap_page are
-- the C functions, all_unmapped the loop of unmapPage. Children: Bits, View (what the two levels map),
-- Tables (new tables and freed ones), Map, Translate, Unmap.
-- MemoryDump: STY25/vika7/P7/assignment07-templates/p2/main.c with analyse-mem.c and analyse-mem.h. `Dump`
-- holds dump_base and dump_size; print_string and print_range are the two functions that print texts,
-- skip_text, skip_nulls and range_loop their loops. Main: dump_main is main, `Analysis` the three
-- functions of analyse-mem.h, which main takes as an argument. Children: Words (what is printed), Paths.
-- Listing: list of STY25/vika10/assignment10-templates/p1/ls.c, and of its variant testing2.c. `DirEntries` is
-- what the system answers for a directory and what is below it; list_entries is the loop over it, list_one
-- its body behind lstat, mode_text and type_text what is printed. Children: Modes, Found, Lines.
-- BoundedBuffer: STY25/vika9/Lab/Producer-ConsumerProblem3.c. `Shared` holds the semaphores, the mutex and
-- the buffer; `Thread` is one call of produce or consume and how far it is; `Move` is a step of one thread
-- among any number, `Reachable` the states of all interleavings. Children: Counts, Invariant, Safety,
-- Progress.
-- Server: STY25/vika8/assignment08-templates/p2/message_queue.c. server_loop is the loop of runServer over
-- what mq_receive gives, run_server the whole with opening, closing and unlinking. Child: Laws.
-- Copy: doCopy of STY25/vika10/assignment10-templates/p2/copy.c. `System` holds what the system calls
-- answer: `Event` is what each read gives, with the outcome of the lseek or write for it. `Process` counts
-- descriptors and buffers and holds the destination. Children: Content and Errors (the loop), Resources
-- (doCopy as a whole), Solution for STY25/vika10/assignment10-templates/p2/sol.c, with its children
-- Writes (the loop round write) and Arguments (parseCopyArgs of both files).
-- Pipe: execute of STY25/vika8/assignment08-templates/p1/pipe.c, a parent and a child that tells it through
-- a pipe why execvp has failed. `Fork` holds where the two are, the pipe and its four ends, and errno;
-- child_step and parent_step are their next steps, kill_child a signal, and a `ForkStep` any of these.
-- Children: Invariant, Outcome.
-- Execute: execute of STY25/vika2/assignment02-templates/p2/execute.c. build_argv makes the array of
-- arguments, count_args and copy_args are its loops. Child: Arguments.
-- Sieve: STY25/vika2/templates-solution-tut02/p1/malloc2.c, which prints prime numbers. fill, sieve, mark and
-- print_rest are its loops. Children: Marks (the inner loop), Rows (the others), Primes (what is printed).
-- ParseInt: STY25/assignment01-templates/p2/parseint.c. Children: Digits (what digits stand for, and how a
-- number is printed), Loop, Laws.
-- Base: names, tests, words, bits, lists and integers. Tests and Witnesses of each part run its code at
-- concrete states.
--
-- Bounds: a loop over the free list gets _heapSize + 1 rounds. A free block takes at least one byte of the
-- heap, so these are enough (BestFit.Valid). my_malloc may call itself once after the heap has grown; two
-- calls are enough. The loops of RoundRobin get `rounds` rounds, and one more than the list has items is
-- enough. A loop of Threaded that came to the end of its rounds would abort; Calls compares them with the
-- loops of BestFit. A loop of MemoryDump gets one round more than the dump has bytes. The loops of Sieve get
-- one round more than the number that is given. The other loops run over the priorities, the entries of a
-- table, or a list that is given, and need no bound; where the server receives nothing more it waits, which
-- is out_of_fuel. Sizes are 64-bit words with their wrap-around, entries of page tables are words whose bits
-- Base.Bits reads and writes, and an int that overflows is a fault. Addresses are numbers below 2^64 in
-- every well-formed heap. `obtained` is the end of the memory that sbrk has given, from its answers as they
-- are documented: the old break, or (void *)-1. A header of a new region that does not lie in it as a
-- whole is a fault in BestFit, Strategies and Marked, and an abort in Threaded.
--
-- Not modelled: what printf writes, but for the server's lines; the bytes of the data areas; malloc, sbrk,
-- posix_memalign and the system calls, whose answers are parameters; invalid pointers of callers.
-- testing.c, a variant of ls.c that sorts the names and cuts long paths, savemalloc.c and mall.c, which are
-- copies, the programs that only print, the test drivers and the other labs have no model.
mod Base
pub mod Memory
pub mod Mutex
pub mod Threaded
pub mod FreeList
pub mod BestFit
pub mod Scheduler
pub mod TaskQueue
pub mod PageTable
pub mod RoundRobin
pub mod ParseInt
pub mod Pipe
pub mod Sieve
pub mod Execute
pub mod Copy
pub mod BoundedBuffer
pub mod Server
pub mod Marked
pub mod MemoryDump
pub mod Listing
pub mod Strategies
