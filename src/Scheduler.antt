-- ===== src/Scheduler.antt =====
-- The scheduler of gemOS: `pick_next_context`, `do_sleep_and_alarm_account`, `schedule` and
-- `handle_timer_tick` of schedule.c, and `do_sleep`, `do_alarm`, `do_signal` and `invoke_sync_signal` of
-- entry.c (Assignment3/Ass3/src; the schedule.c of Assignment2 is the same). A context has the fields that these use.
pub mod Pick
pub mod Sleep
mod Tests
use operating_systems_cs.Base.{
  ℕ, zero, suc, ◌+◌, ◌-◌, ◌%◌, ◌^◌, Bool, true, false, not, ◌&&◌, ltb, ◌==◌, Option, none, some,
  if◌then◌else◌,
}
use operating_systems_cs.Threads.{update}

pub data ProcessState : Type 0 where
  unused new_state ready running waiting exiting : ProcessState

abbrev pub is_ready : ProcessState → Bool
is_ready ready = true
is_ready _ = false

abbrev pub is_waiting : ProcessState → Bool
is_waiting waiting = true
is_waiting _ = false

abbrev pub max_processes : ℕ
max_processes = 7

-- The loop of `pick_next_context` from `pid` on; `own` is the number of the given context.
pub pick_loop : (fuel : ℕ) (state : ℕ → ProcessState) (own pid : ℕ) → ℕ
pick_loop zero state own pid = 0
pick_loop (suc fuel) state own pid =
    let again = pick_loop fuel state own (pid + 1) in
    let from_one = pick_loop fuel state own 1 in
    if is_ready (state pid)
    then pid
    else if pid + 1 == own + 1
    then 0
    else if pid + 1 == max_processes
    then (if own == 0 then 0 else from_one)
    else again

unfoldable pub pick_next_context : (ℕ → ProcessState) → ℕ → ℕ
unfolding pick_loop
pick_next_context state own =
    pick_loop max_processes state own (if own + 1 == max_processes then 1 else own + 1)

-- The user registers that the kernel changes; `rest` stands for the others.
pub record Regs : Type 0 where
  pub entry_rip : ℕ
  pub entry_rsp : ℕ
  pub rest : ℕ

-- The numbers of ticks are `u32`; a signal handler may be `NULL`.
pub record Context : Type 0 where
  pub state : ProcessState
  pub ticks_to_sleep : ℕ
  pub ticks_to_alarm : ℕ
  pub alarm_config_time : ℕ
  pub sighandlers : ℕ → Option ℕ
  pub regs : Regs

-- `user_stack` has the 64-bit words of user memory.
pub record Kernel : Type 0 where
  pub ctx_list : ℕ → Context
  pub current : ℕ
  pub user_stack : ℕ → ℕ
  pub ticks : ℕ
  pub context_switches : ℕ

abbrev pub states : Kernel → ℕ → ProcessState
states k pid = (k.ctx_list pid).state

abbrev pub set_context : Kernel → ℕ → Context → Kernel
set_context k pid c = record k { ctx_list = update k.ctx_list pid c }

-- One round of the loop over the sleeping processes.
abbrev pub account_sleep : Context → Context
account_sleep c =
    if is_waiting c.state && ltb 0 c.ticks_to_sleep
    then (if c.ticks_to_sleep - 1 == 0
        then record c { ticks_to_sleep = 0; state = ready }
        else record c { ticks_to_sleep = c.ticks_to_sleep - 1 })
    else c

-- The rounds from `ctr` on.
pub sleep_loop : (rounds ctr : ℕ) → (ℕ → Context) → ℕ → Context
sleep_loop zero ctr list = list
sleep_loop (suc rounds) ctr list =
    sleep_loop rounds (ctr + 1) (update list ctr (account_sleep (list ctr)))

abbrev pub sigalrm : ℕ
sigalrm = 2

-- What a signal does: `exits` where `invoke_sync_signal` calls `do_exit`.
pub data Signalled : Type 0 where
  exits : Signalled
  continues : Regs → Kernel → Signalled

pub invoke_sync_signal : (signo : ℕ) → Regs → Kernel → Signalled
invoke_sync_signal signo r k = elim ((k.ctx_list k.current).sighandlers signo) [
  | none ↦ if signo == sigalrm then continues r k else exits
  | some handler ↦
      continues (record r { entry_rsp = (r.entry_rsp + 2 ^ 64 - 8) % 2 ^ 64; entry_rip = handler })
        (record k {
          user_stack = update k.user_stack ((r.entry_rsp + 2 ^ 64 - 8) % 2 ^ 64) r.entry_rip;
        })
]

-- The alarm signal is ignored without a handler, so it never exits.
abbrev pub alarm_signal : Regs → Kernel → Regs × Kernel
alarm_signal r k = elim (invoke_sync_signal sigalrm r k) [
  | exits ↦ (r, k)
  | continues r' k' ↦ (r', k')
]

abbrev pub set_alarm : ℕ → ℕ → Kernel → Kernel
set_alarm pid n k = set_context k pid (record (k.ctx_list pid) { ticks_to_alarm = n })

pub account_alarm : Regs → Kernel → Regs × Kernel
unfolding invoke_sync_signal
account_alarm r k =
    let own = k.ctx_list k.current in
    if not (ltb 0 own.ticks_to_alarm)
    then (r, k)
    else if not (own.ticks_to_alarm - 1 == 0)
    then (r, set_alarm k.current (own.ticks_to_alarm - 1) k)
    else (let (r', k') = alarm_signal r (set_alarm k.current 0 k) in
        (r', set_alarm k.current own.alarm_config_time k'))

unfoldable pub do_sleep_and_alarm_account : Regs → Kernel → Regs × Kernel
unfolding sleep_loop account_alarm
do_sleep_and_alarm_account r k =
    account_alarm r (record k { ctx_list = sleep_loop max_processes 0 k.ctx_list })

abbrev pub set_state : ℕ → ProcessState → Kernel → Kernel
set_state pid st k = set_context k pid (record (k.ctx_list pid) { state = st })

-- `schedule`: the new context runs with its own registers.
pub schedule : ℕ → Kernel → Regs × Kernel
schedule pid k = ((k.ctx_list pid).regs, set_state pid running (record k { current = pid }))

-- What `handle_timer_tick` does behind the accounts.
abbrev pub switch_context : Regs → Kernel → Regs × Kernel
switch_context r k =
    let k1 = set_state k.current ready (record k { ticks = (k.ticks + 1) % 2 ^ 64 }) in
    let next = pick_next_context (states k1) k1.current in
    if next == k1.current
    then (r, k1)
    else schedule next (
        set_context (record k1 { context_switches = (k1.context_switches + 1) % 2 ^ 64 }) k1.current
          (record (k1.ctx_list k1.current) { regs = r }))

unfoldable pub handle_timer_tick : Regs → Kernel → Regs × Kernel
unfolding do_sleep_and_alarm_account pick_next_context schedule
handle_timer_tick r k = let (r', k') = do_sleep_and_alarm_account r k in switch_context r' k'

-- `do_sleep`; the system call has saved the registers in the context.
unfoldable pub do_sleep : ℕ → Kernel → Regs × Kernel
unfolding pick_next_context schedule
do_sleep n k =
    let own = record (k.ctx_list k.current) { ticks_to_sleep = n; state = waiting } in
    let k1 = set_context k k.current own in schedule (pick_next_context (states k1) k.current) k1

-- `none` is the return value -1.
unfoldable pub do_alarm : ℕ → Kernel → Option Kernel
do_alarm n k =
    if ltb 0 n
    then some (
        set_context k k.current
          (record (k.ctx_list k.current) { alarm_config_time = n; ticks_to_alarm = n }))
    else none

-- `signo` is the pattern of an `int`, so a negative one is not below the limit. The handler 0 is `NULL`.
unfoldable pub do_signal : (signo handler : ℕ) → Kernel → Option Kernel
do_signal signo handler k =
    if ltb signo 3
    then some (
        set_context k k.current (record (k.ctx_list k.current) {
          sighandlers =
              update (k.ctx_list k.current).sighandlers signo
                (if handler == 0 then none else some handler);
        }))
    else none
