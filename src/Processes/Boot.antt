-- ===== src/Processes/Boot.antt =====
-- `processes_init` of processes/process.c: the record of the kernel that is running, as the first process.
use my_os.Base.{ℕ, true, false, Option, none, some, ◌==◌}
use my_os.Std.Stdio.Printf.{codes}
use my_os.Vmm.State.{Vmm, Outside}
use my_os.Vmm.Contexts.{VmContext}
use my_os.Processes.Pcb.{pid_alloc}
use my_os.Processes.Process.{Pcb, Process, high, pcb_create, set_name}
use my_os.Processes.Scheduler.{Scheduler, scheduler_init}

-- The record of the kernel; a block without a context is the use of a NULL pointer.
unfoldable pub kernel_process : (pid : ℕ) → (old_name : ℕ → ℕ) → ℕ × Pcb → Option Process
unfolding set_name
kernel_process pid old_name (at, pcb) = elim pcb.context [
  | none ↦ none
  | some (address, context) ↦ some (record {
    pcb = (at, record pcb { context = some (address, record context { edi = 0 }) });
    pid = pid;
    name = set_name (codes "kernel_init") old_name;
    priority = high;
  })
]

module _ {S : Type 0} (others : Outside S) where
  -- With the process and its address, the next number and the scheduler, whose node the heap gives too.
  -- `fuel` and `none` are those of Process.
  unfoldable pub processes_init :
      (fuel next_pid kernel_directory : ℕ)
      → (old_name : ℕ → ℕ) → Scheduler
      → Vmm S
      → Option ((ℕ × Process) × ℕ × Scheduler × Vmm S)
  unfolding pcb_create kernel_process pid_alloc scheduler_init
  processes_init fuel next_pid kernel_directory old_name q s =
      let (proc, outside1) = others.kmalloc 44 s.outside in
      let (vm_context, outside2) = others.kmalloc 8 outside1 in
      let kernel : VmContext = record {
        page_dir = kernel_directory;
        page_dir_phys_addr = kernel_directory;
      } in
      let (pid, next_pid') = pid_alloc next_pid in
      elim (proc == 0) [
        | true ↦ none
        | false ↦ elim (vm_context == 0) [
          | true ↦ none
          | false ↦
              elim (pcb_create others fuel 0 0 (some kernel) (record s { outside = outside2 })) [
                | none ↦ none
                | some (none, s') ↦ none
                | some (some pcb, s') ↦ elim (kernel_process pid old_name pcb) [
                  | none ↦ none
                  | some p ↦
                      let (node, outside3) = others.kmalloc 8 s'.outside in
                      elim (scheduler_init node proc q) [
                        | none ↦ none
                        | some q' ↦
                            some ((proc, p), next_pid', q', record s' { outside = outside3 })
                      ]
                ]
              ]
        ]
      ]
