-- ===== src/Priority/Aging.antt =====
-- Aging, boosts, the timer tick and the checks of priority.c.
use scheduler_module.Base.{
  ℕ, ◌+◌, ◌-◌, ℤ, is_neg, in_range, Bool, true, false, ◌&&◌, not, none, some, List, [], ◌∷◌, ltb,
  leb, ◌==◌, if◌then◌else◌, inc32, inc64,
}
use scheduler_module.Base.Keyed
use scheduler_module.Kernel.{Kernel, set_pprio}
use scheduler_module.Priority.Queue.{
  Node, node_pid, priority_max, Config, prio_find_node, age_walk, starvation_walk, wait_walk,
  validate_walk,
}
use scheduler_module.Priority.{Priority, zero_stats}

module _ (c : Config) where
  unfoldable pub priority_boost : Kernel → ℤ → Priority → Kernel × Priority
  priority_boost k pid s =
      if not (in_range c.nproc pid) then (k, s) else elim (prio_find_node pid s.queue) [
        | none ↦
            (if ltb (k.proctab pid).pprio priority_max
              then (set_pprio k pid ((k.proctab pid).pprio + 1), s)
              else (k, s))
        | some n ↦
            (if ltb n.current_priority priority_max
              then (
                k,
                record s {
                  queue =
                      Keyed.update node_pid pid
                        (λ m. record m { current_priority = m.current_priority + 1 }) s.queue;
                },
              )
              else (k, s))
      ]

  unfoldable pub priority_decay : ℤ → Priority → Priority
  priority_decay pid s =
      if not (in_range c.nproc pid) then s else elim (prio_find_node pid s.queue) [
        | none ↦ s
        | some n ↦
            if ltb n.base_priority n.current_priority
            then record s {
              queue =
                  Keyed.update node_pid pid
                    (λ m. record m { current_priority = m.current_priority - 1 }) s.queue;
            }
            else s
      ]

  unfoldable pub priority_reset : ℤ → Priority → Priority
  priority_reset pid s = if not (in_range c.nproc pid) then s else record s {
    queue =
        Keyed.update node_pid pid (λ m. record m { current_priority = m.base_priority }) s.queue;
  }

  unfoldable pub priority_age_all : Priority → Priority
  priority_age_all s =
      if not s.aging_enabled
      then s
      else (let (boosts, queue) = age_walk c.aging_amount s.stats.aging_boosts s.queue in
          record s { queue = queue; stats = record (s.stats) { aging_boosts = boosts } })

  unfoldable pub priority_check_starvation : Priority → Priority
  priority_check_starvation s =
      let (boosts, queue) =
        starvation_walk c.starvation_threshold c.starvation_boost s.stats.starvation_boosts
          s.queue in
      record s { queue = queue; stats = record (s.stats) { starvation_boosts = boosts } }

  -- The aging step of priority_tick: every aging_interval ticks.
  unfoldable pub age_step : Priority → Priority
  age_step s =
      if not s.aging_enabled
      then s
      else (let s1 : Priority = record s { aging_counter = inc32 s.aging_counter } in
          let aged = record (priority_age_all s1) { aging_counter = 0 } in
          if leb s1.aging_interval s1.aging_counter then aged else s1)

  -- Whether the head of the queue has a higher proctab priority than the running process.
  unfoldable pub head_is_higher : Kernel → List Node → Bool
  head_is_higher k [] = false
  head_is_higher k (n ∷ ns) =
      not (is_neg k.currpid) && ltb (k.proctab k.currpid).pprio (k.proctab n.pid).pprio

  unfoldable pub priority_tick : Kernel → Priority → Kernel × Priority
  priority_tick k s =
      let s1 : Priority = record s { ticks = inc64 s.ticks; queue = wait_walk s.queue } in
      let s2 = priority_check_starvation (age_step s1) in
      (if head_is_higher k s2.queue then record k { need_resched = true } else k, s2)

  unfoldable pub priority_validate : Priority → Bool
  priority_validate s =
      let (valid, count) = validate_walk c.nproc none 0 s.queue in valid && (count == s.queue_count)

unfoldable pub priority_aging_enable : Bool → Priority → Priority
priority_aging_enable b s = record s { aging_enabled = b }

unfoldable pub priority_set_aging_interval : ℕ → Priority → Priority
priority_set_aging_interval n s = record s { aging_interval = n }

unfoldable pub priority_reset_stats : Priority → Priority
priority_reset_stats s = record s {
  stats = record zero_stats { current_queue_length = s.queue_count };
}
