-- ===== src/Processes/Tests.antt =====
-- The theorems on scheduler.c at a queue of two processes.
use my_os.Base.{ℕ, ◌+◌, ◌-◌, ◌<◌, ◌≡◌, refl, arith, some, ltb, ◌==◌, if◌then◌else◌}
use my_os.Processes.Scheduler.{Scheduler, scheduler_add_process, scheduler_remove_process}
use my_os.Processes.Scheduler.Ring.{
  IsRing, after, with_last, add_process-appends, remove_process-dangles,
}
use my_os.Processes.Scheduler.Removal.{without, remove_process-IsRing}
use my_os.Processes.Scheduler.Ticks.{Runs, after_slices, after_slices-Runs}

abbrev places : ℕ → ℕ
places i = if i == 0 then 100 else 200

abbrev two_processes : Scheduler
two_processes = record {
  nodes = λ a.
      if a == 100 then record { process = 7; next = 200 } else record { process = 8; next = 100 };
  head = 100;
  tail = 200;
  count = 2;
  current_process_node = 100;
  current_process = 7;
  tick_count = 0;
}

two_processes-IsRing : IsRing two_processes 2 places
unfolding after
two_processes-IsRing = record {
  counted = refl;
  real = λ i h. ground arith;
  distinct = λ i j hi hj e. ground arith;
  first = refl;
  last = refl;
  linked = λ i h. ground arith;
}

add_process-appends_example :
    (s' : Scheduler) × (scheduler_add_process 300 9 two_processes ≡ some s')
    × IsRing s' (2 + 1) (with_last 2 300 places)
    × ((s'.nodes 300).process ≡ 9)
    × ((i : ℕ) → i < 2 → (s'.nodes (places i)).process ≡ (two_processes.nodes (places i)).process)
add_process-appends_example =
    add_process-appends two_processes 2 places 300 9 two_processes-IsRing (omega arith) refl refl
      (λ i h. ground arith)

two_processes-Runs : Runs two_processes 2 places 0
two_processes-Runs = record {
  ring = two_processes-IsRing;
  in_ring = omega arith;
  current = refl;
  running = refl;
}

after_slices-Runs_example :
    (s' : Scheduler) × (after_slices 2 two_processes ≡ some s')
    × Runs s' 2 places (if ltb (0 + 2) 2 then 0 + 2 else 0 + 2 - 2)
    × (s'.tick_count ≡ 0)
    × (s'.nodes ≡ two_processes.nodes)
after_slices-Runs_example =
    after_slices-Runs 2 two_processes 2 places 0 two_processes-Runs refl (λ j h. ground arith)
      (omega arith)

remove_process-IsRing_example :
    (s' : Scheduler) × (scheduler_remove_process 2 8 two_processes ≡ some s')
    × IsRing s' (0 + 1) (without (0 + 1) places)
    × (s'.current_process_node
        ≡ (if 100 == places (0 + 1) then places (after (0 + 2) (0 + 1)) else 100))
remove_process-IsRing_example =
    remove_process-IsRing two_processes 0 0 1 places two_processes-IsRing (omega arith)
      (omega arith) (omega arith) refl (λ j h. ground arith)

remove_process-dangles_example :
    (s' : Scheduler) × (scheduler_remove_process 1 7 two_processes ≡ some s')
    × (s'.head ≡ places 1)
    × (s'.tail ≡ places (0 + 1))
    × ((s'.nodes s'.tail).next ≡ places 0)
remove_process-dangles_example =
    remove_process-dangles two_processes 0 places 0 two_processes-IsRing refl

-- With the `esp` of `process_create`, at its first page and the flags' word.
