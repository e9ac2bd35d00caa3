-- ===== src/Kernel.antt =====
-- What the schedulers share with the kernel: the process table, the running process, the request
-- to reschedule (`need_resched` of scheduler.c) and the calls of the kernel's `context_switch`.
-- `proctab`, `currpid` and `context_switch` are declared in files that this repository does not
-- hold; the model keeps the fields that the schedulers read and write.
use scheduler_module.Base.{ℕ, ℤ, eqz, Bool, true, false, List, ◌∷◌, if◌then◌else◌}

-- `other` stands for the states that no scheduler names.
pub data ProcState : Type 0 where
  pr_free pr_curr pr_ready pr_sleep pr_wait pr_susp : ProcState
  other : ℕ → ProcState

pub record Proc : Type 0 where
  pub pstate : ProcState
  pub pprio : ℕ

-- `switches` lists the calls context_switch(old, new), the latest first.
pub record Kernel : Type 0 where
  pub proctab : ℤ → Proc
  pub currpid : ℤ
  pub need_resched : Bool
  pub switches : List (ℤ × ℤ)

unfoldable pub is_curr : ProcState → Bool
is_curr pr_curr = true
is_curr _ = false

unfoldable pub is_ready : ProcState → Bool
is_ready pr_ready = true
is_ready _ = false

unfoldable pub is_free : ProcState → Bool
is_free pr_free = true
is_free _ = false

-- proctab[pid] = p
unfoldable pub set_proc : (ℤ → Proc) → ℤ → Proc → ℤ → Proc
set_proc tab pid p i = if eqz pid i then p else tab i

-- proctab[pid].pstate = st
unfoldable pub set_pstate : Kernel → ℤ → ProcState → Kernel
set_pstate k pid st = record k {
  proctab = set_proc k.proctab pid (record (k.proctab pid) { pstate = st });
}

-- proctab[pid].pprio = prio
unfoldable pub set_pprio : Kernel → ℤ → ℕ → Kernel
set_pprio k pid prio = record k {
  proctab = set_proc k.proctab pid (record (k.proctab pid) { pprio = prio });
}

-- if (proctab[pid].pstate == PR_CURR) proctab[pid].pstate = PR_READY;
unfoldable pub stop_running : Kernel → ℤ → Kernel
unfolding set_pstate is_curr
stop_running k pid = if is_curr (k.proctab pid).pstate then set_pstate k pid pr_ready else k

unfoldable pub context_switch : Kernel → ℤ → ℤ → Kernel
context_switch k old new = record k { switches = (old, new) ∷ k.switches }
