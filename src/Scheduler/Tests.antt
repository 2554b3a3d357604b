-- ===== src/Scheduler/Tests.antt =====
-- Choices of the scheduler.
use operating_systems_cs.Base.{ℕ, suc, ◌-◌, ◌≤◌, none, ◌≡◌, refl, ◌<◌, ◌==◌, if◌then◌else◌, arith}
use operating_systems_cs.Scheduler.{
  Kernel, Regs, do_sleep, running, ProcessState, ready, waiting, pick_next_context,
}
use operating_systems_cs.Scheduler.Sleep.{IsAsleep, IsAwake, after_ticks, do_sleep_wakes}
use operating_systems_cs.Scheduler.Pick.{
  first_ready, pick_next_context-eq-first_ready, after, pick_next_context_fair,
}

abbrev two_ready : ℕ → ProcessState
two_ready p = if p == 2 then ready else if p == 5 then ready else waiting

pick_next_context-eq-first_ready_example :
    pick_next_context two_ready 3 ≡ first_ready two_ready 3 6 0
pick_next_context-eq-first_ready_example =
    pick_next_context-eq-first_ready two_ready 3 (omega arith)

picks_five : pick_next_context two_ready 3 ≡ 5
unfolding pick_next_context
picks_five = refl

two_within_six : (n : ℕ) × (n < 6) × (after (λ t. two_ready) 3 (suc n) ≡ 2)
two_within_six =
    pick_next_context_fair (λ t. two_ready) 3 2 (omega arith) (omega arith) (omega arith)
      (λ t lt. refl)

-- Process 3 runs, 2 and 5 are ready.
abbrev three_runs : Kernel
three_runs = record {
  ctx_list = λ p. record {
    state = if p == 3 then running else two_ready p;
    ticks_to_sleep = 0;
    ticks_to_alarm = 0;
    alarm_config_time = 0;
    sighandlers = λ s. none;
    regs = record { entry_rip = p; entry_rsp = 4096; rest = 0 };
  };
  current = 3;
  user_stack = λ a. 0;
  ticks = 0;
  context_switches = 0;
}

abbrev tick_regs : ℕ → Regs
tick_regs t = record { entry_rip = t; entry_rsp = 8192; rest = t }

do_sleep_wakes_example :
    ((j : ℕ) → j ≤ 2 → IsAsleep 3 (3 - j) (after_ticks tick_regs (do_sleep 3 three_runs).1 j))
    × IsAwake 3 (after_ticks tick_regs (do_sleep 3 three_runs).1 3)
do_sleep_wakes_example = do_sleep_wakes 2 tick_regs three_runs (omega arith) (omega arith)
