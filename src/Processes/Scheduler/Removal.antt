-- ===== src/Processes/Scheduler/Removal.antt =====
-- Taking a process other than the first out of the ready queue.
use my_os.Base.{
  ℕ, zero, suc, ◌+◌, ◌-◌, ◌^◌, ◌≤◌, ◌<◌, ◌≡◌, refl, ◌∙◌, ap, arith, true, false, some, ltb, ◌==◌,
  ◌||◌, if◌then◌else◌,
}
use my_os.Processes.Scheduler.{
  Scheduler, scheduler_remove_process, remove_loop, unlink_node, set_next,
}
use my_os.Processes.Scheduler.Ring.{IsRing, after}

-- The nodes without number `i`.
unfoldable pub without : (i : ℕ) → (ℕ → ℕ) → ℕ → ℕ
without i at j = if ltb j i then at j else at (j + 1)

next_of :
    (s : Scheduler) (n : ℕ) (at : ℕ → ℕ) (k : ℕ)
    → IsRing s n at
    → k + 1 < n
    → (s.nodes (at k)).next ≡ at (k + 1)
unfolding after
next_of s n at k ring lt = ground (arith, ring.linked k)

-- The loop goes on from number `k` to number `i`, the first with the process, and takes it out.
remove_loop-finds :
    (d fuel : ℕ) (s : Scheduler) (n : ℕ) (at : ℕ → ℕ) (process prev k i : ℕ)
    → IsRing s n at
    → d ≤ fuel
    → k + d ≡ i
    → i < n
    → ((j : ℕ) → j < i → ((s.nodes (at j)).process == process) ≡ false)
    → ((s.nodes (at i)).process == process) ≡ true
    → remove_loop (suc fuel) process prev (at k) s
      ≡ some (unlink_node (if d == 0 then prev else at (i - 1)) (at i) s)
unfolding remove_loop
remove_loop-finds zero fuel s n at process prev k i ring enough e lt others found =
    let here : k ≡ i = omega (arith, e) in
    ap (λ x. remove_loop (suc fuel) process prev (at x) s) here ∙ rw (found, remove_loop) refl
remove_loop-finds (suc d) zero s n at process prev k i ring enough e lt others found =
    absurd (omega (arith, enough))
remove_loop-finds (suc d) (suc fuel) s n at process prev k i ring enough e lt others found =
    let other = others k (omega (arith, e)) in
    let link : (s.nodes (at k)).next ≡ at (k + 1) = next_of s n at k ring (omega (arith, e, lt)) in
    let more : ((s.nodes (at k)).next == s.head) ≡ false =
      ground (arith, link, ring.first, ring.distinct (k + 1) 0, e, lt) in
    let ih =
      remove_loop-finds d fuel s n at process (at k) (k + 1) i ring (omega (arith, enough))
        (omega (arith, e)) lt others found in
    let prev_eq : (if d == 0 then at k else at (i - 1))
        ≡ (if suc d == 0 then prev else at (i - 1)) =
      ground (arith, e) in
    rw (other, more, remove_loop)
      (ap (λ x. remove_loop (suc fuel) process (at k) x s) link
        ∙ ih
        ∙ ap (λ x. some (unlink_node x (at i) s)) prev_eq)

-- The ring without the node.
unlink_node-IsRing :
    (s : Scheduler) (n i : ℕ) (at : ℕ → ℕ)
    → IsRing s (n + 2) at
    → n + 2 < 2 ^ 32
    → i + 1 < n + 2
    → IsRing (unlink_node (at i) (at (i + 1)) s) (n + 1) (without (i + 1) at)
unfolding unlink_node set_next without after
unlink_node-IsRing s n i at ring small lt = record {
  counted = ground (arith, ring.counted);
  real = λ j h. ground (arith, ring.real j, ring.real (j + 1));
  distinct = λ j k hj hk e. ground (
    arith,
    ring.distinct j k,
    ring.distinct (j + 1) k,
    ring.distinct j (k + 1),
    ring.distinct (j + 1) (k + 1),
  );
  first = ground (arith, ring.first, ring.real i);
  last = ground (arith, ring.last, ring.real i, ring.distinct (i + 1) (n + 1));
  linked = λ j h. ground (
    arith,
    ring.real i,
    ring.linked j,
    ring.linked (j + 1),
    ring.linked (i + 1),
    ring.distinct i j,
    ring.distinct i (j + 1),
  );
}

current_of :
    (s : Scheduler) (n i : ℕ) (at : ℕ → ℕ)
    → IsRing s (n + 2) at
    → i + 1 < n + 2
    → (unlink_node (at i) (at (i + 1)) s).current_process_node ≡ (
        if s.current_process_node == at (i + 1)
        then at (after (n + 2) (i + 1))
        else s.current_process_node)
unfolding unlink_node set_next
current_of s n i at ring lt =
    ground (arith, ring.counted, ring.real i, ring.linked (i + 1), ring.distinct i (i + 1))

-- Removing a process other than that of the first node from a ring of two or more, by the first node
-- that holds it, ends within a round for each node before it and one more, and gives the ring without
-- that node; the current node stays, or is the node after it where it was the one removed.
pub remove_process-IsRing :
    (s : Scheduler) (n i fuel : ℕ) (at : ℕ → ℕ)
    → IsRing s (n + 2) at
    → n + 2 < 2 ^ 32
    → i + 1 < n + 2
    → i + 1 ≤ fuel
    → ((s.nodes (at (i + 1))).process == 0) ≡ false
    → ((j : ℕ) → j < i + 1 → ((s.nodes (at j)).process == (s.nodes (at (i + 1))).process) ≡ false)
    → (s' : Scheduler) × (scheduler_remove_process (suc fuel) (s.nodes (at (i + 1))).process s
        ≡ some s')
      × IsRing s' (n + 1) (without (i + 1) at)
      × (s'.current_process_node ≡ (
          if s.current_process_node == at (i + 1)
          then at (after (n + 2) (i + 1))
          else s.current_process_node))
unfolding scheduler_remove_process
remove_process-IsRing s n i fuel at ring small lt enough real others =
    let p = (s.nodes (at (i + 1))).process in
    let same : (p == p) ≡ true = ground arith in
    let run =
      remove_loop-finds (i + 1) fuel s (n + 2) at p 0 0 (i + 1) ring enough (omega arith) lt others
        same in
    let guard : (s.head == 0 || p == 0) ≡ false = ground (arith, ring.first, ring.real 0) in
    let two : (s.head == s.tail) ≡ false =
      ground (arith, ring.first, ring.last, ring.distinct 0 (n + 1)) in
    let first : s.head ≡ at 0 = ground (arith, ring.first) in
    let before : (if i + 1 == 0 then 0 else at (i + 1 - 1)) ≡ at i = grind arith in
    (
      unlink_node (at i) (at (i + 1)) s,
      rw (guard, two, scheduler_remove_process)
          (ap (λ x. remove_loop (suc fuel) p 0 x s) first
            ∙ run
            ∙ ap (λ x. some (unlink_node x (at (i + 1)) s)) before),
      unlink_node-IsRing s n i at ring small lt,
      current_of s n i at ring lt,
    )
