-- ===== src/Processes/Scheduler/Ring.antt =====
-- The ready queue as a ring: appending to it, and going round it.
use my_os.Base.{
  ℕ, zero, suc, ◌+◌, ◌-◌, ◌^◌, ◌≤◌, ◌<◌, ◌≡◌, arith, false, Option, none, some, ltb, ◌==◌,
  if◌then◌else◌, ◌∙◌, refl,
}
use my_os.Base.Masks.{update}
use my_os.Processes.Scheduler.{
  Scheduler, scheduler_add_process, scheduler_get_next_process, set_next, link_node,
  scheduler_create_queue_node, scheduler_remove_process, remove_loop, unlink_node,
}

-- The node after number `i` of a ring of `n`.
unfoldable pub after : (n i : ℕ) → ℕ
after n i = if i + 1 == n then 0 else i + 1

-- `at 0` to `at (n - 1)` are the nodes of the queue in order: none is NULL, no two are the same, the
-- first and the last stand in the head and the tail, and each points to the next, the last to the
-- first.
pub record IsRing (s : Scheduler) (n : ℕ) (at : ℕ → ℕ) : Type 0 where
  pub counted : s.count ≡ n
  pub real : (i : ℕ) → i < n → (at i == 0) ≡ false
  pub distinct : (i j : ℕ) → i < n → j < n → at i ≡ at j → i ≡ j
  pub first : s.head ≡ (if n == 0 then 0 else at 0)
  pub last : s.tail ≡ (if n == 0 then 0 else at (n - 1))
  pub linked : (i : ℕ) → i < n → (s.nodes (at i)).next ≡ at (after n i)

-- The nodes with one more at the end.
unfoldable pub with_last : (n node : ℕ) → (ℕ → ℕ) → ℕ → ℕ
with_last n node at i = if i == n then node else at i

-- The scheduler with the new node in memory.
abbrev stored : (node process : ℕ) → Scheduler → Scheduler
stored node process s = record s {
  nodes = update s.nodes node (record { process = process; next = 0 });
}

-- Adding a process to a ring of n nodes, with a new node that `kmalloc` returned, gives the ring with
-- that node at its end, which holds the process; the processes of the other nodes stay.
pub add_process-appends :
    (s : Scheduler) (n : ℕ) (at : ℕ → ℕ) (node process : ℕ)
    → IsRing s n at
    → n + 1 < 2 ^ 32
    → (node == 0) ≡ false
    → (process == 0) ≡ false
    → ((i : ℕ) → i < n → (at i == node) ≡ false)
    → (s' : Scheduler) × (scheduler_add_process node process s ≡ some s')
      × IsRing s' (n + 1) (with_last n node at)
      × ((s'.nodes node).process ≡ process)
      × ((i : ℕ) → i < n → (s'.nodes (at i)).process ≡ (s.nodes (at i)).process)
unfolding scheduler_add_process scheduler_create_queue_node link_node set_next with_last after
add_process-appends s zero at node process ring small node0 process0 fresh = (
  link_node node (stored node process s),
  ground arith,
  record {
    counted = ground (arith, ring.counted, ring.last);
    real = λ i h. ground arith;
    distinct = λ i j hi hj e. omega arith;
    first = ground (arith, ring.last);
    last = ground (arith, ring.last);
    linked = λ i h. ground (arith, ring.last);
  },
  ground (arith, ring.last),
  λ i h. absurd (omega arith),
)
add_process-appends s (suc m) at node process ring small node0 process0 fresh =
    let t0 : (s.tail == 0) ≡ false = ground (arith, ring.last, ring.real m) in
    (
      link_node node (stored node process s),
      ground arith,
      record {
        counted = ground (arith, ring.counted);
        real = λ i h. ground (arith, ring.real i);
        distinct = λ i j hi hj e. ground (arith, ring.distinct i j, fresh i, fresh j);
        first = ground (arith, ring.first);
        last = ground arith;
        linked = λ i h.
            ground
              (arith, ring.linked i, ring.first, ring.last, fresh i, fresh m, ring.distinct i m);
      },
      ground (arith, ring.last, fresh m),
      λ i h. ground (arith, ring.last, fresh i, fresh m, ring.distinct i m),
    )

-- Nothing that the ring is about.
pub IsRing-elsewhere :
    (s : Scheduler) (n : ℕ) (at : ℕ → ℕ) (node process ticks : ℕ)
    → IsRing s n at
    → IsRing
        (record s { current_process_node = node; current_process = process; tick_count = ticks })
        n
        at
IsRing-elsewhere s n at node process ticks ring = record {
  counted = ring.counted;
  real = ring.real;
  distinct = ring.distinct;
  first = ring.first;
  last = ring.last;
  linked = ring.linked;
}

-- From a node of the ring, the next process is that of the node after it, which becomes the current
-- node.
pub get_next_process-moves :
    (s : Scheduler) (n : ℕ) (at : ℕ → ℕ) (i : ℕ)
    → IsRing s n at
    → i < n
    → s.current_process_node ≡ at i
    → scheduler_get_next_process s
      ≡ some
          ((s.nodes (at (after n i))).process, record s { current_process_node = at (after n i) })
unfolding scheduler_get_next_process after
get_next_process-moves s n at i ring lt here =
    ground (arith, ring.real i lt, ring.real (after n i), ring.linked i lt, ring.first, ring.real 0)

-- `turns` calls of `scheduler_get_next_process`.
unfoldable pub after_turns : (turns : ℕ) → Scheduler → Option Scheduler
after_turns zero s = some s
after_turns (suc k) s = elim (scheduler_get_next_process s) [
  | none ↦ none
  | some (process, s') ↦ after_turns k s'
]

-- The scheduler goes round: from node i of a ring of n, at most n calls never panic and lead that many
-- nodes on, from the last to the first, so that n calls pass every process once and come back.
pub after_turns-goes_round :
    (k : ℕ) (s : Scheduler) (n : ℕ) (at : ℕ → ℕ) (i : ℕ)
    → IsRing s n at
    → i < n
    → k ≤ n
    → s.current_process_node ≡ at i
    → (s' : Scheduler) × (after_turns k s ≡ some s')
      × (s'.current_process_node ≡ at (if ltb (i + k) n then i + k else i + k - n))
      × IsRing s' n at
unfolding after_turns after
after_turns-goes_round zero s n at i ring lt small here =
    let e : (if ltb (i + 0) n then i + 0 else i + 0 - n) ≡ i = ground arith in
    (s, refl, here ∙ rw e refl, ring)
after_turns-goes_round (suc k) s n at i ring lt small here =
    let s1 : Scheduler = record s { current_process_node = at (after n i) } in
    let got = get_next_process-moves s n at i ring lt here in
    let ring1 : IsRing s1 n at =
      IsRing-elsewhere s n at (at (after n i)) s.current_process s.tick_count ring in
    let (s', on, there, ring') =
      after_turns-goes_round k s1 n at (after n i) ring1 (ground arith) (omega arith) refl in
    let e : (if ltb (after n i + k) n then after n i + k else after n i + k - n)
        ≡ (if ltb (i + suc k) n then i + suc k else i + suc k - n) =
      ground arith in
    (s', rw (got, after_turns) on, there ∙ rw e refl, ring')

-- Removing the process of the first of two or more nodes leaves the last node pointing to the node
-- that was freed, while the head is the second node.
pub remove_process-dangles :
    (s : Scheduler) (n : ℕ) (at : ℕ → ℕ) (fuel : ℕ)
    → IsRing s (n + 2) at
    → ((s.nodes (at 0)).process == 0) ≡ false
    → (s' : Scheduler) × (scheduler_remove_process (suc fuel) (s.nodes (at 0)).process s ≡ some s')
      × (s'.head ≡ at 1)
      × (s'.tail ≡ at (n + 1))
      × ((s'.nodes s'.tail).next ≡ at 0)
unfolding scheduler_remove_process remove_loop unlink_node after
remove_process-dangles s n at fuel ring real =
    let differ : (at 0 == at (n + 1)) ≡ false = ground (arith, ring.distinct 0 (n + 1)) in
    (
      unlink_node 0 (at 0) s,
      ground (arith, ring.first, ring.last, ring.real 0),
      ground (arith, ring.first, ring.linked 0),
      ground (arith, ring.first, ring.last),
      ground (arith, ring.first, ring.last, ring.linked (n + 1)),
    )
