-- ===== src/Processes/Scheduler.antt =====
-- processes/scheduler.c. A pointer is its address, 0 is NULL; the nodes of the queue are a function
-- from addresses, and the address that `kmalloc` returns for a new node is an argument. A panic is
-- `none`. Freeing a node leaves what stands at its address.
pub mod Ring
pub mod Removal
pub mod Ticks
use my_os.Base.{
  ℕ, zero, suc, ◌+◌, ◌-◌, ◌%◌, ◌^◌, Bool, true, false, not, ◌&&◌, ◌||◌, Option, none, some, ltb,
  leb, ◌==◌, if◌then◌else◌,
}
use my_os.Base.Masks.{update}

pub record Node : Type 0 where
  pub process : ℕ
  pub next : ℕ

pub record Scheduler : Type 0 where
  pub nodes : ℕ → Node
  pub head : ℕ
  pub tail : ℕ
  pub count : ℕ
  pub current_process_node : ℕ
  pub current_process : ℕ
  pub tick_count : ℕ

abbrev pub ticks_until_switch : ℕ
ticks_until_switch = 10

-- `node->next = next;`
unfoldable pub set_next : (node next : ℕ) → (ℕ → Node) → ℕ → Node
set_next node next nodes =
    update nodes node (record { process = (nodes node).process; next = next })

unfoldable pub scheduler_create_queue_node : (node process : ℕ) → (ℕ → Node) → Option (ℕ → Node)
scheduler_create_queue_node node process nodes =
    if node == 0 then none else some (update nodes node (record { process = process; next = 0 }))

-- What `scheduler_add_process` does with the new node.
unfoldable pub link_node : (node : ℕ) → Scheduler → Scheduler
unfolding set_next
link_node node s =
    if s.tail == 0
    then record s {
      nodes = set_next node node s.nodes;
      head = node;
      tail = node;
      count = (s.count + 1) % 2 ^ 32;
    }
    else record s {
      nodes = set_next node s.head (set_next s.tail node s.nodes);
      tail = node;
      count = (s.count + 1) % 2 ^ 32;
    }

unfoldable pub scheduler_add_process : (node process : ℕ) → Scheduler → Option Scheduler
unfolding scheduler_create_queue_node link_node
scheduler_add_process node process s =
    if process == 0 then none else elim (scheduler_create_queue_node node process s.nodes) [
      | none ↦ none
      | some nodes ↦ some (link_node node (record s { nodes = nodes }))
    ]

-- The process, 0 where the queue is empty.
unfoldable pub scheduler_get_next_process : Scheduler → Option (ℕ × Scheduler)
scheduler_get_next_process s =
    let on = (s.nodes s.current_process_node).next in
    if s.head == 0
    then some (0, s)
    else if s.current_process_node == 0
    then none
    else if on == 0
    then none
    else some ((s.nodes on).process, record s { current_process_node = on })

-- The body of the loop where the process is found at `current`, after `prev` (0 at the head).
unfoldable pub unlink_node : (prev current : ℕ) → Scheduler → Scheduler
unfolding set_next
unlink_node prev current s =
    let next = (s.nodes current).next in
    let nodes = if prev == 0 then s.nodes else set_next prev next s.nodes in
    let head = if prev == 0 then next else s.head in
    record s {
      nodes = nodes;
      head = head;
      tail = if current == s.tail then (if prev == 0 then head else prev) else s.tail;
      current_process_node =
          if (current == s.current_process_node) && ltb 1 s.count
          then (nodes current).next
          else if (current == s.current_process_node) && (s.count == 1)
          then 0
          else s.current_process_node;
      count = (s.count + 2 ^ 32 - 1) % 2 ^ 32;
    }

-- The `do` loop, at most `fuel` rounds; `none`: out of fuel.
unfoldable pub remove_loop : (fuel : ℕ) → (process prev current : ℕ) → Scheduler → Option Scheduler
unfolding unlink_node
remove_loop zero process prev current s = none
remove_loop (suc f) process prev current s = elim ((s.nodes current).process == process) [
  | true ↦ some (unlink_node prev current s)
  | false ↦ elim ((s.nodes current).next == s.head) [
    | true ↦ some s
    | false ↦ remove_loop f process current (s.nodes current).next s
  ]
]

unfoldable pub scheduler_remove_process : (fuel : ℕ) → (process : ℕ) → Scheduler → Option Scheduler
unfolding remove_loop
scheduler_remove_process fuel process s =
    if (s.head == 0) || (process == 0)
    then some s
    else if s.head == s.tail
    then some (
        if (s.nodes s.head).process == process
        then record s { head = 0; tail = 0; count = 0 }
        else s)
    else remove_loop fuel process 0 s.head s

-- The process to switch to, where there is one. `process_switch` is assembly.
unfoldable pub scheduler_handle_tick : Scheduler → Option (Option ℕ × Scheduler)
unfolding scheduler_get_next_process
scheduler_handle_tick s =
    let ticks = (s.tick_count + 1) % 2 ^ 32 in
    if leb ticks_until_switch ticks
    then elim (scheduler_get_next_process (record s { tick_count = 0 })) [
      | none ↦ none
      | some (next, s') ↦
          some
            ((if not (next == 0) && not (next == s'.current_process) then some next else none), s')
    ]
    else some (none, record s { tick_count = ticks })

unfoldable pub scheduler_init : (node init_process : ℕ) → Scheduler → Option Scheduler
unfolding scheduler_add_process
scheduler_init node init_process s =
    if init_process == 0
    then none
    else elim (scheduler_add_process node init_process (record s { tick_count = 0 })) [
      | none ↦ none
      | some s' ↦
          some (record s' { current_process = init_process; current_process_node = s'.head })
    ]
