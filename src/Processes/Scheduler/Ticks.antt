-- ===== src/Processes/Scheduler/Ticks.antt =====
-- What the ticks of the timer do to the ready queue.
use mathlib.Core.Path.{subst}
use my_os.Base.{
  ℕ, zero, suc, ◌+◌, ◌-◌, ◌≤◌, ◌<◌, ◌≡◌, refl, ap, arith, true, false, Option, none, some, ltb, leb,
  not, ◌&&◌, ◌==◌, ◌%◌, ◌^◌, if◌then◌else◌, Bool-cases, inl, inr,
}
use my_os.Processes.Scheduler.{Scheduler, scheduler_handle_tick}
use my_os.Processes.Scheduler.Ring.{IsRing, after, IsRing-elsewhere, get_next_process-moves}

-- `process_switch` is assembly: beside the registers, it makes the process the current one.
unfoldable pub process_switch : (next : ℕ) → Scheduler → Scheduler
process_switch next s = record s { current_process = next }

-- A tick with the switch that it may ask for.
unfoldable pub tick : Scheduler → Option Scheduler
unfolding scheduler_handle_tick process_switch
tick s = elim (scheduler_handle_tick s) [
  | none ↦ none
  | some (none, s') ↦ some s'
  | some (some next, s') ↦ some (process_switch next s')
]

unfoldable pub after_ticks : (ticks : ℕ) → Scheduler → Option Scheduler
unfolding tick
after_ticks zero s = some s
after_ticks (suc k) s = elim (tick s) [ none ↦ none | some s' ↦ after_ticks k s' ]

-- `slices` times ten ticks.
unfoldable pub after_slices : (slices : ℕ) → Scheduler → Option Scheduler
unfolding after_ticks
after_slices zero s = some s
after_slices (suc k) s = elim (after_ticks 10 s) [ none ↦ none | some s' ↦ after_slices k s' ]

-- The process of node `i` runs, at the start of its ten ticks.
pub record Runs (s : Scheduler) (n : ℕ) (at : ℕ → ℕ) (i : ℕ) : Type 0 where
  pub ring : IsRing s n at
  pub in_ring : i < n
  pub current : s.current_process_node ≡ at i
  pub running : s.current_process ≡ (s.nodes (at i)).process

tick-waits :
    (s : Scheduler) → s.tick_count < 9 → tick s ≡ some (record s { tick_count = s.tick_count + 1 })
unfolding tick scheduler_handle_tick
tick-waits s h = ground arith

-- The tenth tick turns the queue, and asks for a switch where the next process is another one.
handle_tick-turns :
    (s : Scheduler) (n : ℕ) (at : ℕ → ℕ) (i : ℕ)
    → Runs s n at i
    → s.tick_count ≡ 9
    → let next = (s.nodes (at (after n i))).process in
      scheduler_handle_tick s
      ≡ some (
        (if not (next == 0) && not (next == s.current_process) then some next else none),
        record s { current_process_node = at (after n i); tick_count = 0 },
      )
unfolding scheduler_handle_tick
handle_tick-turns s n at i r nine =
    let s0 : Scheduler = record s { tick_count = 0 } in
    let ring0 : IsRing s0 n at =
      IsRing-elsewhere s n at s.current_process_node s.current_process 0 r.ring in
    let got = get_next_process-moves s0 n at i ring0 r.in_ring r.current in
    let due : leb 10 ((s.tick_count + 1) % 2 ^ 32) ≡ true = ground (arith, nine) in
    rw (due, got, scheduler_handle_tick) refl

tick-switches :
    (s : Scheduler) (n : ℕ) (at : ℕ → ℕ) (i : ℕ)
    → Runs s n at i
    → s.tick_count ≡ 9
    → ((s.nodes (at (after n i))).process == 0) ≡ false
    → tick s
      ≡ some (record s {
        current_process_node = at (after n i);
        current_process = (s.nodes (at (after n i))).process;
        tick_count = 0;
      })
unfolding tick process_switch
tick-switches s n at i r nine real =
    let turned = handle_tick-turns s n at i r nine in
    elim (Bool-cases ((s.nodes (at (after n i))).process == s.current_process)) [
      | inl same ↦
          let kept : s.current_process ≡ (s.nodes (at (after n i))).process =
            ground (arith, same) in
          rw (turned, real, same, tick)
            (ap
              (λ x. some (record s {
                current_process_node = at (after n i);
                current_process = x;
                tick_count = 0;
              }))
              kept)
      | inr other ↦ rw (turned, real, other, tick) refl
    ]

-- Ten ticks less those counted already end with the switch.
after_ticks-switches :
    (k : ℕ) (s : Scheduler) (n : ℕ) (at : ℕ → ℕ) (i : ℕ)
    → Runs s n at i
    → s.tick_count + k ≡ 9
    → ((s.nodes (at (after n i))).process == 0) ≡ false
    → after_ticks (suc k) s
      ≡ some (record s {
        current_process_node = at (after n i);
        current_process = (s.nodes (at (after n i))).process;
        tick_count = 0;
      })
unfolding after_ticks
after_ticks-switches zero s n at i r e real =
    rw (tick-switches s n at i r (omega (arith, e)) real, after_ticks) refl
after_ticks-switches (suc k) s n at i r e real =
    let s' : Scheduler = record s { tick_count = s.tick_count + 1 } in
    let r' : Runs s' n at i = record {
      ring =
          IsRing-elsewhere s n at s.current_process_node s.current_process (s.tick_count + 1)
            r.ring;
      in_ring = r.in_ring;
      current = r.current;
      running = r.running;
    } in
    rw (tick-waits s (omega (arith, e)), after_ticks)
      (after_ticks-switches k s' n at i r' (omega (arith, e)) real)

after-lt : (n i : ℕ) → i < n → after n i < n
unfolding after
after-lt n i h = ground (arith, h)

after-plus :
    (n i k : ℕ)
    → i < n
    → suc k ≤ n
    → (if ltb (after n i + k) n then after n i + k else after n i + k - n)
      ≡ (if ltb (i + suc k) n then i + suc k else i + suc k - n)
unfolding after
after-plus n i k h small = ground (arith, h, small)

-- Each process of the ring has ten ticks in turn: from the process of node i of a ring of n processes,
-- at the start of its ten ticks, at most n times ten ticks never panic and lead to the process that many
-- nodes on, from the last to the first, at the start of its ten ticks. The ring and its processes stay.
pub after_slices-Runs :
    (k : ℕ) (s : Scheduler) (n : ℕ) (at : ℕ → ℕ) (i : ℕ)
    → Runs s n at i
    → s.tick_count ≡ 0
    → ((j : ℕ) → j < n → ((s.nodes (at j)).process == 0) ≡ false)
    → k ≤ n
    → (s' : Scheduler) × (after_slices k s ≡ some s')
      × Runs s' n at (if ltb (i + k) n then i + k else i + k - n)
      × (s'.tick_count ≡ 0)
      × (s'.nodes ≡ s.nodes)
unfolding after_slices
after_slices-Runs zero s n at i r fresh real small =
    let e : i ≡ (if ltb (i + 0) n then i + 0 else i + 0 - n) = ground (arith, r.in_ring) in
    (s, refl, subst (λ j. Runs s n at j) e r, fresh, refl)
after_slices-Runs (suc k) s n at i r fresh real small =
    let s1 : Scheduler = record s {
      current_process_node = at (after n i);
      current_process = (s.nodes (at (after n i))).process;
      tick_count = 0;
    } in
    let on : after n i < n = after-lt n i r.in_ring in
    let got = after_ticks-switches 9 s n at i r (omega (arith, fresh)) (real (after n i) on) in
    let r1 : Runs s1 n at (after n i) = record {
      ring = IsRing-elsewhere s n at (at (after n i)) (s.nodes (at (after n i))).process 0 r.ring;
      in_ring = on;
      current = refl;
      running = refl;
    } in
    let (s', ih, there, fresh', same) =
      after_slices-Runs k s1 n at (after n i) r1 refl real (omega (arith, small)) in
    (
      s',
      rw (got, after_slices) ih,
      subst (λ j. Runs s' n at j) (after-plus n i k r.in_ring small) there,
      fresh',
      same,
    )
