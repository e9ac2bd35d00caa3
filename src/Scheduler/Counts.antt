-- ===== src/Scheduler/Counts.antt =====
-- The ready queue of scheduler.c and its counters after any sequence of calls.
use scheduler_module.Base.{ℕ, ◌<◌, refl, List, [], ◌∷◌, All, u32_mod, arith}
use scheduler_module.Scheduler.{SchedulerType, System, World, Sched, ready_queue_init}
use scheduler_module.Scheduler.Life.{scheduler_init, sched_reset_stats}
use scheduler_module.Scheduler.Ready.{
  IsReady, IsCounted, same_ready-IsReady, same_ready-IsCounted, ready_enqueue-IsReady,
  ready_enqueue-IsCounted, ready_dequeue-IsReady, ready_dequeue-IsCounted, ready_pop-IsReady,
  ready_pop-IsCounted,
}
use scheduler_module.Scheduler.Calls.{Call, reset_stats, queue_init, run, OnQueue, run-Good}

-- Every call but the reset of the statistics and ready_queue_init, which empties the queue without
-- counting.
abbrev pub KeepsStats : Call → Type 0
KeepsStats reset_stats = ⊥
KeepsStats queue_init = ⊥
KeepsStats _ = Unit {0}

module _ (nproc : ℕ) (fits : nproc < u32_mod) where
  IsReady-OnQueue : OnQueue nproc (IsReady nproc)
  IsReady-OnQueue = record {
    same = λ s t q c f r m. same_ready-IsReady nproc s t q c f;
    enqueued = ready_enqueue-IsReady nproc fits;
    dequeued = ready_dequeue-IsReady nproc fits;
    popped = ready_pop-IsReady nproc fits;
  }

  abbrev Both : Sched → Type 0
  Both s = IsReady nproc s × IsCounted s

  Both-OnQueue : OnQueue nproc Both
  Both-OnQueue = record {
    same = λ s t q c f r m b.
        (same_ready-IsReady nproc s t q c f b.0, same_ready-IsCounted nproc s t q r m b.1);
    enqueued = λ k p s b. (
      ready_enqueue-IsReady nproc fits k p s b.0,
      ready_enqueue-IsCounted nproc fits k p s b.0 b.1,
    );
    dequeued = λ p s b.
        (ready_dequeue-IsReady nproc fits p s b.0, ready_dequeue-IsCounted nproc fits p s b.0 b.1);
    popped = λ s b. (ready_pop-IsReady nproc fits s b.0, ready_pop-IsCounted nproc fits s b.0 b.1);
  }

  module _ {P : Type 0} (sys : System P) where
    init-IsReady :
        (type : SchedulerType) (w : World P) → IsReady nproc (scheduler_init nproc sys type w).sched
    unfolding scheduler_init ready_queue_init
    init-IsReady type w = record { range = tt; count = refl; room = omega arith }

    init-IsCounted :
        (type : SchedulerType) (w : World P) → IsCounted (scheduler_init nproc sys type w).sched
    unfolding scheduler_init ready_queue_init
    init-IsCounted type w = record { runnable = refl; highest = omega arith }

    reset-IsReady :
        (w : World P) → IsReady nproc w.sched → IsReady nproc (sched_reset_stats nproc sys w).sched
    unfolding sched_reset_stats
    reset-IsReady w i = same_ready-IsReady nproc w.sched _ refl refl refl i

    empty-IsReady : (w : World P) → IsReady nproc (ready_queue_init nproc w.sched)
    unfolding ready_queue_init
    empty-IsReady w = record { range = tt; count = refl; room = omega arith }

    All-Unit : (calls : List Call) → All (λ a. Unit {0}) calls
    All-Unit [] = tt
    All-Unit (a ∷ calls) = (tt, All-Unit calls)

    -- With NPROC below 2 ^ 32, after scheduler_init and any calls, ready_queue_init among them,
    -- under any policies, every process of the ready queue is in range, ready_queue.count is its
    -- length, and each of the NPROC nodes is queued or free.
    pub run-init-IsReady :
        (type : SchedulerType) (w : World P) (calls : List Call)
        → IsReady nproc (run nproc sys (scheduler_init nproc sys type w) calls).sched
    run-init-IsReady type w calls =
        run-Good nproc sys (IsReady nproc) IsReady-OnQueue (λ a. Unit {0}) init-IsReady
          (λ ok. reset-IsReady) (λ ok v i. empty-IsReady v) (scheduler_init nproc sys type w) calls
          (All-Unit calls) (init-IsReady type w)

    -- With NPROC below 2 ^ 32, after scheduler_init and any calls but sched_reset_stats and
    -- ready_queue_init, under any policies, runnable_count is the length of the ready queue and at
    -- most max_runnable.
    pub run-init-IsCounted :
        (type : SchedulerType) (w : World P) (calls : List Call)
        → All KeepsStats calls
        → IsCounted (run nproc sys (scheduler_init nproc sys type w) calls).sched
    run-init-IsCounted type w calls ok =
        let both =
          run-Good nproc sys Both Both-OnQueue KeepsStats
            (λ t v. (init-IsReady t v, init-IsCounted t v)) (λ no v b. absurd no)
            (λ no v b. absurd no) (scheduler_init nproc sys type w) calls ok
            (init-IsReady type w, init-IsCounted type w) in
        both.1
