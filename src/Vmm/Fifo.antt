-- ===== src/Vmm/Fifo.antt =====
-- The queue of pages in memory/vmm.c from which the next one to swap out is taken.
pub mod Queue
use my_os.Base.{ℕ, ◌+◌, ◌-◌, ◌%◌, ◌^◌, Bool, true, false, ◌==◌, if◌then◌else◌}
use my_os.Base.Masks.{update}
use my_os.Vmm.State.{Vmm, Outside, Fifo, FifoNode}

unfoldable pub page_fifo_enqueue : (node : ℕ) → Fifo → Fifo
page_fifo_enqueue node q =
    let count = (q.count + 1) % 2 ^ 32 in
    if q.head == 0 then record q { head = node; tail = node; count = count } else record q {
      nodes = update q.nodes q.tail (record { vir_addr = (q.nodes q.tail).vir_addr; next = node });
      tail = node;
      count = count;
    }

-- What `page_enqueue` does with the node that it allocated.
unfoldable pub enqueue_page : (node vir_addr : ℕ) → Fifo → Fifo
unfolding page_fifo_enqueue
enqueue_page node vir_addr q =
    page_fifo_enqueue node
      (record q { nodes = update q.nodes node (record { vir_addr = vir_addr; next = 0 }) })

-- The queue without its first page.
unfoldable pub drop_first : Fifo → Fifo
drop_first q = record q { head = (q.nodes q.head).next; count = (q.count + 2 ^ 32 - 1) % 2 ^ 32 }

module _ {S : Type 0} (others : Outside S) where
  unfoldable pub page_enqueue : (vir_addr : ℕ) → Vmm S → Bool × Vmm S
  unfolding enqueue_page
  page_enqueue vir_addr s =
      let (node, outside) = others.kmalloc 8 s.outside in
      if node == 0
      then (false, record s { outside = outside })
      else (true, record s { fifo = enqueue_page node vir_addr s.fifo; outside = outside })

  -- The address, 0 where the queue is empty.
  unfoldable pub page_fifo_dequeue : Vmm S → ℕ × Vmm S
  unfolding drop_first
  page_fifo_dequeue s =
      let node = s.fifo.head in
      if node == 0 then (0, s) else (
        (s.fifo.nodes node).vir_addr,
        record s { fifo = drop_first s.fifo; outside = others.kfree node s.outside },
      )
