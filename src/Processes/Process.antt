-- ===== src/Processes/Process.antt =====
-- The life of a process in processes/process.c and processes/pcb.c, over the virtual memory. The structs
-- live in the heap at the pointers that it returns; their members are given as records. `fuel` is that
-- of Vmm/Swap; the result `none` is a panic, a failed assertion, the use of a NULL pointer, or too little
-- fuel.
use my_os.Base.{ℕ, ◌-◌, true, false, Option, none, some, List, ◌==◌, if◌then◌else◌}
use my_os.Base.Masks.{update}
use my_os.Std.CString.{strncpy}
use my_os.Vmm.State.{Vmm, Outside}
use my_os.Vmm.Contexts.{VmContext, vmm_create_vm_context, vmm_destroy_vm_context}
use my_os.Processes.Pcb.{Context, context_create}

pub data ProcessState : Type 0 where
  ready : ProcessState
  running : ProcessState
  blocked : ProcessState
  terminated : ProcessState

pub data Priority : Type 0 where
  high : Priority
  medium : Priority
  low : Priority

-- Pointers and what they point to; NULL is `none`.
pub record Pcb : Type 0 where
  pub context : Option (ℕ × Context)
  pub vm_context : Option (ℕ × VmContext)
  pub state : ProcessState

pub record Process : Type 0 where
  pub pcb : ℕ × Pcb
  pub pid : ℕ
  pub name : ℕ → ℕ
  pub priority : Priority

abbrev pub process_name_max_length : ℕ
process_name_max_length = 32

-- The name of a process: at most 31 bytes and a NUL.
unfoldable pub set_name : (name : List ℕ) → (ℕ → ℕ) → ℕ → ℕ
unfolding strncpy
set_name name old =
    update (strncpy old name (process_name_max_length - 1)) (process_name_max_length - 1) 0

module _ {S : Type 0} (others : Outside S) where
  -- `context_create`, with its allocation.
  unfoldable pub new_context : (eip esp : ℕ) → Vmm S → Option (ℕ × Context) × Vmm S
  unfolding context_create
  new_context eip esp s =
      let (context, outside) = others.kmalloc 40 s.outside in
      (
        if context == 0 then none else some (context, context_create eip esp),
        record s { outside = outside },
      )

  -- A NULL process block is the result `none` inside.
  unfoldable pub pcb_create :
      (fuel eip esp : ℕ)
      → (vm_context_parent : Option VmContext) → Vmm S
      → Option (Option (ℕ × Pcb) × Vmm S)
  unfolding new_context vmm_create_vm_context
  pcb_create fuel eip esp none s = some (none, s)
  pcb_create fuel eip esp (some parent) s =
      let (pcb, outside) = others.kmalloc 12 s.outside in
      let (context, s') = new_context eip esp (record s { outside = outside }) in
      elim (pcb == 0) [
        | true ↦ some (none, record s { outside = outside })
        | false ↦ elim (vmm_create_vm_context others fuel parent.page_dir s') [
          | none ↦ none
          | some (none, at, s'') ↦
              some (some (pcb, record { context = context; vm_context = none; state = ready }), s'')
          | some (some c, at, s'') ↦ some (
            some (pcb, record { context = context; vm_context = some (at, c); state = ready }),
            s'',
          )
        ]
      ]

  -- `kfree` of a pointer that may be NULL.
  unfoldable pub context_destroy : Option (ℕ × Context) → Vmm S → Vmm S
  context_destroy none s = record s { outside = others.kfree 0 s.outside }
  context_destroy (some (context, c)) s = record s { outside = others.kfree context s.outside }

  unfoldable pub pcb_destroy : Option (ℕ × Pcb) → Vmm S → Option (Vmm S)
  unfolding context_destroy vmm_destroy_vm_context
  pcb_destroy none s = some s
  pcb_destroy (some (pcb, p)) s = elim p.vm_context [
    | none ↦ none
    | some (at, c) ↦ elim (vmm_destroy_vm_context others at c (context_destroy p.context s)) [
      | none ↦ none
      | some s' ↦ some (record s' { outside = others.kfree pcb s'.outside })
    ]
  ]

  -- `pid_free` does nothing.
  unfoldable pub process_destroy : Option (ℕ × Process) → Vmm S → Option (Vmm S)
  unfolding pcb_destroy
  process_destroy none s = some s
  process_destroy (some (process, p)) s = elim (pcb_destroy (some p.pcb) s) [
    | none ↦ none
    | some s' ↦ some (record s' { outside = others.kfree process s'.outside })
  ]
