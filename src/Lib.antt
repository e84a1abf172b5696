-- ===== src/Lib.antt =====
-- Verification library of the Apex kernel (sys/).
--
-- Sched models the scheduler, sys/kern/sch.cpp. Sched.Defs has the state (threads by number, the
-- run queue, a sleep queue for each event, resched, locks, the DPC queue) and the run queue's
-- operations; Sched.Sleep has sch_wakeup, sch_wakeone, sch_requeue, sch_prepare_sleep,
-- sch_continue_sleep, sch_unsleep and sch_signal; Sched.Control has sch_switch, sched_yield,
-- sch_suspend_resume, sch_elapse, sch_setprio, sch_testexit and the DPCs. An operation of the
-- source that runs with interrupts disabled is one function from state to state. arch_schedule
-- sets a flag, and sch_switch is a step of its own, as PendSV makes it on ARM; interrupts and
-- threads are the choice of the next step in Sched.Steps. A thread's link stands in at most one
-- queue, so queue_remove is removal from every queue. The loops recur on the queues that they
-- walk, so no fuel is needed.
--
-- Links models the pointers under those queues, sys/lib/queue.cpp and sys/include/list.h: a store
-- has two pointers for each link, and a thread is named by the address of its link. The heads are a
-- function from queues to addresses, where queue 0 is the run queue and queue e + 1 the sleep queue
-- of event e. The walks of runq_enqueue and runq_insert take fuel, one unit more than the queue has
-- threads. Links.Segments, Neighbours and Queues are about one queue, Links.Scheduler, Walk and
-- Insertion about all queues of the scheduler.
--
-- Page models the page allocator, sys/mem/page.cpp. Page has the state of a region and the buddy
-- allocator's operations; Page.Buddy is that allocator without lists and bitmap, and Page.Represent
-- and Page.Blocks relate the two. Page.Regions has do_alloc, find_block and the release of a range;
-- Page.Memory the regions and page_free, page_valid and page_attr, Page.Memory.Reserve
-- page_reserve, Page.Memory.Alloc page_alloc_order, Page.Memory.Ptr page_alloc and page_ptr, and
-- Page.Memory.Init the part of page_init that makes one region. The invariants are IsMemory
-- (Page.Memory.Ranges) and IsLaidOut (Page.Memory.Layout). The result `none` of page_reserve is an
-- assertion that fails. PAGE_SIZE is a parameter and an address is a number below 2^32. The loop of
-- page_free takes one unit of fuel more than the range has pages, and every round frees a page at
-- least; countr_zero and floor_log2 take their number for fuel, which is halved in every round. Not
-- modelled there: the rest of page_init (its own memory, the order of regions, the memory of the
-- kernel and the archive), page_dump, and the words of the bitmap.
--
-- Timers models sys/kern/timer.cpp: the list of active timers, callouts, the part of timer_tick
-- that moves expired timers, a round of timer_thread, and run_itimer. The length of a tick and the
-- time that timer_monotonic_coarse returns are arguments.
--
-- Sync models the locks of sys/sync on top of Sched: Sync.Wait the rounds of sys/include/wait.h,
-- Sync.Mutex mutex.cpp, Sync.Rwlock rwlock.cpp, Sync.Semaphore semaphore.cpp. A call that sleeps is
-- modelled up to sch_continue_sleep: the outcome is a status or `sleeps`, and a thread that is
-- woken makes the same attempt again. Nothing is locked in a wait for a semaphore, so that the
-- counts that its two tests and its decrement find are three arguments. The word `owner` of a mutex
-- is a record of a thread and two flags. Sync.Futex models futex.cpp: a task's list of futexes,
-- each with its event; what malloc returns and what the access to user memory finds are arguments,
-- and an `int` is an integer. Sync.Futex.Lookup is about the list, Waking, Moving and Waiting about
-- the three commands. Sync.Cond models cond.cpp. In Sync.Futex and Sync.Cond, futex_resume and
-- cond_resume are the part of a call after the sleep. What interrupts do to the scheduler between
-- the release of the mutex in a wait and sch_continue_sleep is an argument of that wait.
--
-- Pipe models sys/fs/pipe.cpp: the vnode's pointer to the pipe, the counts of open ends, and the
-- circular buffer with counters that wrap at 2^32. The loops of pipe_read and pipe_write take one
-- unit of fuel more than there are bytes to move, and every pass moves at least one.
--
-- Circular models sys/lib/circular_buffer.h for items that are trivially copyable, which memmove
-- and memcpy move; a size_type has 32 bits, and the capacity, a power of two, is only asked to
-- divide 2^32. Circular.Moves and MovesRight have move_left and move_right, Circular.Expand and
-- Circular.Collapse the two functions of those names, Circular.Copies the loops that fill the
-- room, Circular.Editing insert and erase, Circular.Deque the pushes and pops, Circular.Pieces
-- data. A loop that copies takes the number of items for fuel, and every round copies one at
-- least; data has room for two pieces.
--
-- Signal models sys/kern/sig.cpp, and task_suspend and task_resume of sys/kern/task.cpp, on top of
-- Sched: Signal.Sets has the signal sets, Signal.State the tasks and threads, Signal.Sending
-- sig_task, sig_thread, sig_flush, sig_block_all and sig_restore, Signal.Delivery sig_deliver and
-- sigreturn, Signal.Calls the system calls, and Signal.Kill kill of sys/kern/proc.cpp. A write to
-- a thread's sets also tells the scheduler whether an unblocked signal is pending. A call of
-- proc_exit is recorded and not carried out. The result `none` is an assertion that fails or a
-- write behind a set's array. Not modelled there: what context_set_signal does to the user's
-- stack.
--
-- Not modelled: drivers, architecture code, the C and C++ libraries, the other file systems, and
-- the parts of the kernel that no file here names.
pub mod Base
pub mod Sched
pub mod Page
pub mod Circular
pub mod Links
pub mod Timers
pub mod Signal
pub mod Sync
pub mod Pipe
