-- ===== src/Lib.antt =====
-- A verification library for the schedulers of this repository: a dispatcher, scheduler.c, hands
-- the calls of the kernel to one of six policies through a table of operations, scheduler_ops_t of
-- scheduler.h, and keeps a ready queue and a quantum of its own for what a policy does not do. The
-- policies are round_robin.c, priority.c, multilevel_queue.c, lottery.c, cfs.c and realtime.c.
--
-- Kernel models what all of them share with the kernel, whose files are not in this repository:
-- the states and priorities in proctab, currpid, need_resched, and the calls of context_switch as
-- a list. Interrupts are disabled in each operation and the semaphores are taken and given back in
-- it, so an operation is one function from state to state.
--
-- Scheduler models scheduler.c: its state is the record Sched, the policies are seen through the
-- record Ops, one field for each entry of the table that the dispatcher calls, an entry that is
-- NULL being none. setpriority and getpriority return a number with a sign, SYSERR being -1, and
-- scheduler_switch whether it returns OK or SYSERR. Scheduler holds the ready queue
-- (ready_enqueue, ready_dequeue, ready_pop, sched_validate), Scheduler.Dispatch the calls that go
-- to the policy (schedule, resched, yield, preempt, setpriority, getpriority, nice,
-- sched_set_quantum, sched_tick), Scheduler.Life the others (scheduler_init, scheduler_shutdown,
-- scheduler_switch, sched_ready, sched_block, sched_wakeup, sched_new_process, sched_exit,
-- sched_reset_stats). Tables models the tables of operations rr_ops, prio_ops and lottery_ops.
-- Scheduler.Policies states the contract between the dispatcher and a policy, Tables.Contract is
-- about the policies that fulfil it, and Tables.Stranded about a switch that fails.
--
-- RoundRobin models round_robin.c. The circular list is the list of its nodes from rr_queue_head
-- on, rr_current the pid of its node; the successor of the last node is the first.
-- RoundRobin.Slices has the quantum and the tick, and RoundRobin.Ring gives the order in which the
-- processes run, seen from rr_current.
--
-- Priority models priority.c, with its walks over prio_queue in Priority.Queue and aging and
-- starvation in Priority.Aging. NPROC and the PRIO_ constants come from headers outside the
-- repository and are the record Config.
--
-- Lottery models lottery.c, with the walks over the pool in Lottery.Pool and the operations on
-- tickets in Lottery.Tickets, and lottery_fairness_index in Lottery.Fairness. The float and double
-- operations are the record Floats; nothing is assumed of them but that a conversion to uint32_t
-- gives a number of 32 bits.
--
-- Mlfq models multilevel_queue.c: the queue of each level as a list and the operations on the
-- queues, and Mlfq.Running the demotion and promotion, the choice of the next process, the
-- periodic boost and the tick. mlfq_find_node never writes the level that its callers then read,
-- so that value is an argument of theirs. It is meant to be a level, below 8; for others the code
-- leaves its arrays, and the model says nothing.
--
-- Cfs models cfs.c: the state, the timeline and the nice values, with Cfs.Tasks the tasks and the
-- walks over lists of them, Cfs.Weights the tables of weights and the calculations with them,
-- Cfs.Running the operations that let a task run (cfs_schedule, cfs_yield, cfs_tick,
-- cfs_validate), and Cfs.Queueing those that bring one in or take one out (cfs_enqueue,
-- cfs_dequeue, cfs_sleep, cfs_wakeup). A task is its index in task_pool, so that the timeline,
-- curr and leftmost share it as the pointers do; the timeline and the free list are lists of
-- indices. A result none is the trap of a division by a load_weight of 0. Its invariant is
-- Cfs.Invariant.
--
-- Realtime models realtime.c: the tasks with their links in Realtime.Tasks, the assignment of
-- priorities in Realtime.Priorities, the state and the ready queue in Realtime, what runs next in
-- Realtime.Running, releases, misses and the tick in Realtime.Timing, the response time analysis
-- in Realtime.Response, the tests of schedulability in Realtime.Schedulability. As all_tasks and
-- the ready queue share the link of a task, the links stay in the tasks and a walk follows them.
-- It has as fuel the number of tasks that it may visit; RT_MAX_TASKS, 64, is enough on links
-- without a cycle, and a result none is a walk that would go on, or the trap of a division. The
-- iteration of realtime_response_time has fuel of its own, for which the deadline less the wcet,
-- and one, is enough. The laxity is a number of 64 bits with a sign, with its wrap-around written
-- out. Realtime.Places and Realtime.Urgency compare deadlines, priorities and laxities without the
-- code's own tests. The doubles are a parameter.
--
-- A linked list is the list of its nodes in link order, a pool of nodes the number of the free
-- ones; a node is found by its pid. Base.Keyed has the search, the write through a found node and
-- the unlinking, with their laws. Numbers are natural numbers with the wrap-around of their width
-- written out; pids and int32_t values are integers. But for realtime.c, the loops are structural
-- recursion over the lists, so no fuel is needed. Sequences of calls are lists of the type Call of
-- each component, run from the state that its init function leaves; they hold every function of
-- the header that changes the state, the init and shutdown functions included. The Call type of
-- cfs.c leaves out cfs_set_curr_task, cfs_place_task and cfs_update_vruntime, which take a pointer
-- to a task, and that of lottery.c lottery_compensate and lottery_yield. A premise on the calls
-- names what a theorem does not allow.
--
-- Not modelled: the functions that print or dump, the getters that copy a structure out,
-- round_robin_validate and mlfq_validate, which check links. The tables of multilevel_queue.c,
-- cfs.c and realtime.c are a parameter of Tables.
mod Base
pub mod Kernel
pub mod Scheduler
pub mod RoundRobin
pub mod Priority
pub mod Lottery
pub mod Mlfq
pub mod Cfs
pub mod Realtime
pub mod Tables
