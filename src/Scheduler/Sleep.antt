-- ===== src/Scheduler/Sleep.antt =====
-- A process that sleeps, from tick to tick.
use operating_systems_cs.Base.{
  ℕ, zero, suc, ◌+◌, ◌-◌, ◌%◌, ◌^◌, ◌≡◌, refl, ◌<◌, ◌≤◌, ◌⊎◌, inl, inr, true, false, not, ltb, ◌&&◌,
  ◌==◌, Option-cases, if◌then◌else◌, arith, Bool-cases, ap, ◌∙◌, sym, subst,
}
use native.Mathlib.Decide.{ℕ_discrete}
use operating_systems_cs.Threads.{update}
use operating_systems_cs.Scheduler.{
  ProcessState, ready, waiting, is_ready, max_processes, pick_next_context, Regs, Context, Kernel,
  states, set_context, account_sleep, sleep_loop, sigalrm, invoke_sync_signal, alarm_signal,
  set_alarm, account_alarm, do_sleep_and_alarm_account, set_state, schedule, switch_context,
  handle_timer_tick, do_sleep,
}
use operating_systems_cs.Scheduler.Pick.{
  picked_ready, first_ready-small, pick_next_context-eq-first_ready,
}

-- Each process is accounted once.
sleep_loop_lem :
    (rounds ctr : ℕ) (list : ℕ → Context) (p : ℕ)
    → sleep_loop rounds ctr list p
      ≡ (if not (ltb p ctr) && ltb p (ctr + rounds) then account_sleep (list p) else list p)
unfolding sleep_loop
sleep_loop_lem zero ctr list p =
    let out : (not (ltb p ctr) && ltb p (ctr + zero)) ≡ false = ground arith in rw out refl
sleep_loop_lem (suc n) ctr list p =
    let ih = sleep_loop_lem n (ctr + 1) (update list ctr (account_sleep (list ctr))) p in
    elim (ℕ_discrete ctr p) [
      | yes here ↦
          let at : (ctr == p) ≡ true = ground arith in
          let now : (not (ltb p ctr) && ltb p (ctr + suc n)) ≡ true = ground arith in
          let over : (not (ltb p (ctr + 1)) && ltb p (ctr + 1 + n)) ≡ false = ground arith in
          rw now (ih ∙ rw (over, at) (ap (λ x. account_sleep (list x)) here))
      | no other ↦
          let at : (ctr == p) ≡ false = ground arith in
          let same : (not (ltb p (ctr + 1)) && ltb p (ctr + 1 + n))
              ≡ (not (ltb p ctr) && ltb p (ctr + suc n)) =
            ground arith in
          ih ∙ rw (at, same) refl
    ]

alarm_signal_lem :
    (r : Regs) (k : Kernel)
    → ((alarm_signal r k).1.ctx_list ≡ k.ctx_list) × ((alarm_signal r k).1.current ≡ k.current)
unfolding invoke_sync_signal
alarm_signal_lem r k = elim (Option-cases ((k.ctx_list k.current).sighandlers sigalrm)) [
  | inl ignored ↦ rw (alarm_signal, ignored, invoke_sync_signal) (refl, refl)
  | inr (handler, e) ↦ rw (alarm_signal, e, invoke_sync_signal) (refl, refl)
]

-- The account of the alarm is the current process's.
account_alarm-other :
    (r : Regs) (k : Kernel) (p : ℕ)
    → (k.current == p) ≡ false
    → ((account_alarm r k).1.ctx_list p ≡ k.ctx_list p)
      × ((account_alarm r k).1.current ≡ k.current)
unfolding account_alarm
account_alarm-other r k p other = elim (Bool-cases (ltb 0 (k.ctx_list k.current).ticks_to_alarm)) [
  | inr off ↦ rw (account_alarm, off) (refl, refl)
  | inl set ↦ elim (Bool-cases ((k.ctx_list k.current).ticks_to_alarm - 1 == 0)) [
    | inr later ↦ rw (account_alarm, set, later) (rw other refl, refl)
    | inl rings ↦
        let (list, own) = alarm_signal_lem r (set_alarm k.current 0 k) in
        rw (account_alarm, set, rings) (rw other (ap (λ l. l p) list ∙ rw other refl), own)
  ]
]

accounted :
    (r : Regs) (k : Kernel) (p : ℕ)
    → p < max_processes
    → (k.current == p) ≡ false
    → ((do_sleep_and_alarm_account r k).1.ctx_list p ≡ account_sleep (k.ctx_list p))
      × ((do_sleep_and_alarm_account r k).1.current ≡ k.current)
unfolding do_sleep_and_alarm_account
accounted r k p small other =
    let slept = record k { ctx_list = sleep_loop max_processes 0 k.ctx_list } in
    let (list, own) = account_alarm-other r slept p other in
    let in_table : (not (ltb p 0) && ltb p (0 + max_processes)) ≡ true = ground arith in
    (list ∙ sleep_loop_lem max_processes 0 k.ctx_list p ∙ rw in_table refl, own)

-- A process other than the current one that has `n` ticks left to sleep.
pub record IsAsleep (p n : ℕ) (k : Kernel) : Type 0 where
  pub other : (k.current == p) ≡ false
  pub own_small : k.current < max_processes
  pub state : (k.ctx_list p).state ≡ waiting
  pub left : (k.ctx_list p).ticks_to_sleep ≡ n

-- A process that is ready or runs.
abbrev pub IsAwake : ℕ → Kernel → Type 0
IsAwake p k = ((k.ctx_list p).state ≡ ready) ⊎ (k.current ≡ p)

-- What is picked is not a process that waits.
not_picked :
    (state : ℕ → ProcessState) (own p : ℕ)
    → own < max_processes
    → 0 < p
    → state p ≡ waiting
    → ((pick_next_context state own == p) ≡ false) × (pick_next_context state own < max_processes)
not_picked state own p small pos waits =
    let first = pick_next_context-eq-first_ready state own small in
    (
      elim (ℕ_discrete (pick_next_context state own) p) [
        | yes e ↦ absurd (
            let asked = picked_ready state own 6 0 p (sym first ∙ e) pos in
            let never : is_ready (state p) ≡ false = ap is_ready waits in
            let c : true ≡ false = sym asked ∙ never in ground arith)
        | no ne ↦ ground arith
      ],
      rw first (first_ready-small state own 6 0),
    )

-- A tick behind the accounts lets a process that waits go on waiting.
switch-IsAsleep :
    (r : Regs) (k : Kernel) (p n : ℕ) → 0 < p → IsAsleep p n k → IsAsleep p n (switch_context r k).1
unfolding schedule
switch-IsAsleep r k p n pos asleep =
    let k1 = set_state k.current ready (record k { ticks = (k.ticks + 1) % 2 ^ 64 }) in
    let still : (k1.ctx_list p).state ≡ waiting = rw (asleep.other) (asleep.state) in
    let (not_p, small) = not_picked (states k1) k.current p asleep.own_small pos still in
    let next = pick_next_context (states k1) k.current in
    elim (Bool-cases (next == k.current)) [
      | inl same ↦ rw same (record {
        other = asleep.other;
        own_small = asleep.own_small;
        state = still;
        left = rw (asleep.other) (asleep.left);
      })
      | inr moved ↦
          rw (moved, schedule)
            (record {
              other = not_p;
              own_small = small;
              state = rw (not_p, asleep.other) (asleep.state);
              left = rw (not_p, asleep.other) (asleep.left);
            })
    ]

-- Waking up in the accounts: the process is ready, and may be picked at once.
switch-IsAwake :
    (r : Regs) (k : Kernel) (p : ℕ)
    → (k.current == p) ≡ false
    → (k.ctx_list p).state ≡ ready
    → IsAwake p (switch_context r k).1
unfolding schedule
switch-IsAwake r k p other awake =
    let k1 = set_state k.current ready (record k { ticks = (k.ticks + 1) % 2 ^ 64 }) in
    let next = pick_next_context (states k1) k.current in
    elim (Bool-cases (next == k.current)) [
      | inl same ↦ rw same (inl (rw other awake))
      | inr moved ↦ rw moved (elim (ℕ_discrete next p) [
        | yes e ↦ inr e
        | no ne ↦ let not_p : (next == p) ≡ false = ground arith in inl (rw (not_p, other) awake)
      ])
    ]

account_sleep-state :
    (c : Context) (n : ℕ)
    → c.state ≡ waiting
    → c.ticks_to_sleep ≡ suc n
    → ((account_sleep c).state ≡ (if n == 0 then ready else waiting))
      × ((account_sleep c).ticks_to_sleep ≡ n)
account_sleep-state c n waits left = ground arith

pub handle_timer_tick-IsAsleep :
    (r : Regs) (k : Kernel) (p n : ℕ)
    → 0 < p
    → p < max_processes
    → IsAsleep p (suc (suc n)) k
    → IsAsleep p (suc n) (handle_timer_tick r k).1
unfolding handle_timer_tick
handle_timer_tick-IsAsleep r k p n pos small asleep =
    let (list, own) = accounted r k p small asleep.other in
    let (st, left) = account_sleep-state (k.ctx_list p) (suc n) asleep.state asleep.left in
    let (r', k') = do_sleep_and_alarm_account r k in
    switch-IsAsleep r' k' p (suc n) pos (record {
      other = ap (λ x. x == p) own ∙ asleep.other;
      own_small = rw own (asleep.own_small);
      state = ap (λ c. c.state) list ∙ st ∙ ground arith;
      left = ap (λ c. c.ticks_to_sleep) list ∙ left;
    })

pub handle_timer_tick-IsAwake :
    (r : Regs) (k : Kernel) (p : ℕ)
    → p < max_processes
    → IsAsleep p 1 k
    → IsAwake p (handle_timer_tick r k).1
unfolding handle_timer_tick
handle_timer_tick-IsAwake r k p small asleep =
    let (list, own) = accounted r k p small asleep.other in
    let (st, left) = account_sleep-state (k.ctx_list p) 0 asleep.state asleep.left in
    let (r', k') = do_sleep_and_alarm_account r k in
    switch-IsAwake r' k' p (ap (λ x. x == p) own ∙ asleep.other) (ap (λ c. c.state) list ∙ st)

-- The kernel after `n` ticks, which find the registers `regs 0`, `regs 1` and so on.
pub after_ticks : (regs : ℕ → Regs) → Kernel → ℕ → Kernel
after_ticks regs k zero = k
after_ticks regs k (suc n) = after_ticks (λ t. regs (suc t)) (handle_timer_tick (regs 0) k).1 n

sleeps :
    (n : ℕ) (regs : ℕ → Regs) (k : Kernel) (p : ℕ)
    → 0 < p
    → p < max_processes
    → IsAsleep p (suc n) k
    → ((j : ℕ) → j ≤ n → IsAsleep p (suc n - j) (after_ticks regs k j))
      × IsAwake p (after_ticks regs k (suc n))
unfolding after_ticks
sleeps zero regs k p pos small asleep = (
  λ j le.
      let e : 0 ≡ j = omega arith in
      subst (λ x. IsAsleep p (1 - x) (after_ticks regs k x)) e asleep,
  handle_timer_tick-IsAwake (regs 0) k p small asleep,
)
sleeps (suc n) regs k p pos small asleep =
    let next = handle_timer_tick-IsAsleep (regs 0) k p n pos small asleep in
    let (later, awake) =
      sleeps n (λ t. regs (suc t)) (handle_timer_tick (regs 0) k).1 p pos small next in
    (still later, awake)
  where
    still :
        ((j : ℕ)
          → j ≤ n
          → IsAsleep p
              (suc n - j)
              (after_ticks (λ t. regs (suc t)) (handle_timer_tick (regs 0) k).1 j))
        → (j : ℕ) → j ≤ suc n
        → IsAsleep p (suc (suc n) - j) (after_ticks regs k j)
    still later zero le =
        let e : suc (suc n) ≡ suc (suc n) - 0 = omega arith in subst (λ x. IsAsleep p x k) e asleep
    still later (suc j) le =
        let e : suc n - j ≡ suc (suc n) - suc j = omega arith in
        subst (λ x. IsAsleep p x (after_ticks regs k (suc j))) e (later j (omega arith))

do_sleep-IsAsleep :
    (k : Kernel) (n : ℕ)
    → 0 < k.current
    → k.current < max_processes
    → IsAsleep k.current n (do_sleep n k).1
unfolding do_sleep
do_sleep-IsAsleep k n pos small =
    let own = record (k.ctx_list k.current) { ticks_to_sleep = n; state = waiting } in
    let k1 = set_context k k.current own in
    let self : (k.current == k.current) ≡ true = ground arith in
    let (not_p, next_small) =
      not_picked (states k1) k.current k.current small pos (rw (states, self) refl) in
    record {
      other = not_p;
      own_small = next_small;
      state = rw (not_p, self) refl;
      left = rw (not_p, self) refl;
    }

-- When a process of the table other than the swapper calls `do_sleep` for `n + 1` ticks and timer ticks
-- follow, whatever registers they find, then after `j` of the first `n` ticks it waits, has `n + 1 - j`
-- ticks left and does not run, and after the last tick it is ready or runs.
pub do_sleep_wakes :
    (n : ℕ) (regs : ℕ → Regs) (k : Kernel)
    → 0 < k.current
    → k.current < max_processes
    → ((j : ℕ) → j ≤ n → IsAsleep k.current (suc n - j) (after_ticks regs (do_sleep (suc n) k).1 j))
      × IsAwake k.current (after_ticks regs (do_sleep (suc n) k).1 (suc n))
do_sleep_wakes n regs k pos small =
    sleeps n regs (do_sleep (suc n) k).1 k.current pos small (do_sleep-IsAsleep k (suc n) pos small)
