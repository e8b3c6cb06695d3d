-- ===== src/Vmm/Fifo/Queue.antt =====
-- The queue of pages as the list of its nodes.
use mathlib.Core.Path.{subst}
use my_os.Base.{
  ℕ, ◌+◌, ◌%◌, ◌^◌, ◌≡◌, refl, ap, ◌∙◌, sym, true, false, ◌==◌, List, [], ◌∷◌, ◌++◌, map, arith,
}
use my_os.Base.Masks.{update}
use my_os.Kmalloc.Slab.Chain.{NotIn, Distinct}
use my_os.Vmm.State.{Fifo, FifoNode}
use my_os.Vmm.Fifo.{page_fifo_enqueue, enqueue_page, drop_first}

-- After node `n` the nodes `ns` follow, and the last one stands in the tail and leads to NULL.
abbrev pub Run : (ℕ → FifoNode) → (n tail : ℕ) → List ℕ → Type 0
Run nodes n tail [] = ((nodes n).next ≡ 0) × (tail ≡ n)
Run nodes n tail (t ∷ ts) = ((nodes n).next ≡ t) × ((t == 0) ≡ false) × Run nodes t tail ts

abbrev pub IsFifo : Fifo → List ℕ → Type 0
IsFifo q [] = q.head ≡ 0
IsFifo q (n ∷ ns) = (q.head ≡ n) × ((n == 0) ≡ false) × Run q.nodes n q.tail ns

-- The pages of the nodes, in order.
abbrev pub pages : (ℕ → FifoNode) → List ℕ → List ℕ
pages nodes ns = map (λ n. (nodes n).vir_addr) ns

tail_in :
    (nodes : ℕ → FifoNode) (n tail x : ℕ) (ns : List ℕ)
    → Run nodes n tail ns
    → NotIn x (n ∷ ns)
    → (x == tail) ≡ false
tail_in nodes n tail x [] (_, e) (d, _) = rw e d
tail_in nodes n tail x (t ∷ ts) (_, _, r) (_, d) = tail_in nodes t tail x ts r d

-- Linking a new node after the last one.
Run-append :
    (nodes nodes' : ℕ → FifoNode) (n tail new : ℕ) (ns : List ℕ)
    → Run nodes n tail ns
    → Distinct (n ∷ ns)
    → ((k : ℕ) → (k == tail) ≡ false → (k == new) ≡ false → (nodes' k).next ≡ (nodes k).next)
    → (nodes' tail).next ≡ new
    → (nodes' new).next ≡ 0
    → (new == 0) ≡ false
    → NotIn new (n ∷ ns)
    → Run nodes' n new (ns ++ new ∷ [])
Run-append nodes nodes' n tail new [] (_, e) far frame link end real other =
    (ap (λ k. (nodes' k).next) (sym e) ∙ link, real, (end, refl))
Run-append nodes nodes' n tail new (t ∷ ts) (on, real_t, r) (far, far_t) frame link end real
      (d, other) =
    (
      frame n (tail_in nodes t tail n ts r far) (ground arith) ∙ on,
      real_t,
      Run-append nodes nodes' t tail new ts r far_t frame link end real other,
    )

pages-append :
    (nodes nodes' : ℕ → FifoNode) (node vir_addr : ℕ) (ns : List ℕ)
    → ((k : ℕ) → (k == node) ≡ false → (nodes' k).vir_addr ≡ (nodes k).vir_addr)
    → (nodes' node).vir_addr ≡ vir_addr
    → NotIn node ns
    → pages nodes' (ns ++ node ∷ []) ≡ pages nodes ns ++ vir_addr ∷ []
pages-append nodes nodes' node vir_addr [] frame new far = ap (λ v. v ∷ []) new
pages-append nodes nodes' node vir_addr (n ∷ ns) frame new (d, far) =
    rw (frame n (ground arith), pages-append nodes nodes' node vir_addr ns frame new far) refl

-- A page that is queued with a new node comes last: the pages queued before keep their order in front
-- of it.
pub enqueue_page-appends :
    (q : Fifo) (ns : List ℕ) (node vir_addr : ℕ)
    → IsFifo q ns
    → Distinct ns
    → (node == 0) ≡ false
    → NotIn node ns
    → IsFifo (enqueue_page node vir_addr q) (ns ++ node ∷ [])
      × (pages (enqueue_page node vir_addr q).nodes (ns ++ node ∷ [])
          ≡ pages q.nodes ns ++ vir_addr ∷ [])
unfolding enqueue_page page_fifo_enqueue
enqueue_page-appends q [] node vir_addr empty far real other =
    let e : (q.head == 0) ≡ true = ground arith in
    rw (e, enqueue_page) ((refl, real, (ground arith, refl)), ground arith)
enqueue_page-appends q (n ∷ ns) node vir_addr (first, real_n, run) far real (d, other) =
    let e : (q.head == 0) ≡ false = ground arith in
    let nodes1 = update q.nodes node (record { vir_addr = vir_addr; next = 0 }) in
    let apart = tail_in q.nodes n q.tail node ns run (d, other) in
    let nodes2 =
      update nodes1 q.tail (record { vir_addr = (nodes1 q.tail).vir_addr; next = node }) in
    let q2 = record q { nodes = nodes2; tail = node; count = (q.count + 1) % 2 ^ 32 } in
    let same : enqueue_page node vir_addr q ≡ q2 = rw (e, enqueue_page) refl in
    subst
      (λ (q' : Fifo).
        IsFifo q' ((n ∷ ns) ++ node ∷ [])
        × (pages q'.nodes ((n ∷ ns) ++ node ∷ []) ≡ pages q.nodes (n ∷ ns) ++ vir_addr ∷ []))
      (sym same)
      (
        (
          first,
          real_n,
          Run-append q.nodes nodes2 n q.tail node ns run far (λ k a b. ground arith) (ground arith)
              (ground (arith, apart)) real (d, other),
        ),
        pages-append q.nodes nodes2 node vir_addr (n ∷ ns) (λ k a. ground arith)
            (ground (arith, apart)) (d, other),
      )

-- Taking a page out takes the one queued first, and leaves the others in their order.
pub drop_first-drops :
    (q : Fifo) (n : ℕ) (ns : List ℕ)
    → IsFifo q (n ∷ ns)
    → IsFifo (drop_first q) ns
      × (pages q.nodes (n ∷ ns) ≡ (q.nodes q.head).vir_addr ∷ pages (drop_first q).nodes ns)
unfolding drop_first
drop_first-drops q n [] (first, real, (end, last)) = (rw first end, rw first refl)
drop_first-drops q n (t ∷ ts) (first, real, (on, real_t, run)) =
    ((rw first on, real_t, run), rw first refl)
