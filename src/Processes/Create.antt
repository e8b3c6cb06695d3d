-- ===== src/Processes/Create.antt =====
-- `process_create` of processes/process.c, with the stack of the new process. `fuel` and the result `none`
-- are those of Process.
pub mod Stack
use my_os.Base.{
  ℕ, zero, suc, ◌+◌, ◌-◌, ◌*◌, ◌/◌, ◌%◌, ◌^◌, bit_and, Bool, true, false, Option, none, some, List,
  ◌==◌, if◌then◌else◌,
}
use my_os.Base.Masks.{update}
use my_os.Pmm.{word, pmm_alloc_frame, no_frame_available}
use my_os.Std.CString.{strncpy}
use my_os.Vmm.Entries.{empty_user_page_dir_flags, page_size, align_to_page}
use my_os.Vmm.State.{Vmm, Outside, store, clear_words}
use my_os.Vmm.Map.{vmm_map_page_to_curr_dir}
use my_os.Vmm.Contexts.{
  VmContext, vmm_switch_vm_context, vmm_create_vm_context, vmm_destroy_vm_context,
}
use my_os.Processes.Pcb.{Context, context_create, default_eflags, pid_alloc}
use my_os.Processes.Process.{Pcb, Process, Priority, pcb_create, set_name}

-- `vir_addr` of page `i`, and `esp_frame`, in `process_create_stack`.
unfoldable pub stack_page : (esp_top i : ℕ) → ℕ
stack_page esp_top i = word (esp_top + 2 ^ 32 - word ((i + 1) * page_size))

unfoldable pub frame_place : (esp_top : ℕ) → ℕ
frame_place esp_top = word (esp_top + 2 ^ 32 - 44)

-- The `esp` that `process_create` gives to `pcb_create`.
abbrev pub first_esp : ℕ
first_esp = 100000000

module _ {S : Type 0} (others : Outside S) where
  -- The loop of `process_create_stack`, from page `i` on.
  unfoldable pub map_stack : (fuel rounds : ℕ) → (esp_top i : ℕ) → Vmm S → Option (Vmm S)
  unfolding pmm_alloc_frame vmm_map_page_to_curr_dir clear_words stack_page
  map_stack fuel zero esp_top i s = some s
  map_stack fuel (suc n) esp_top i s =
      let (pa, pmm) = pmm_alloc_frame s.pmm in
      let vir_addr = stack_page esp_top i in
      elim (pa == no_frame_available) [
        | true ↦ none
        | false ↦
            elim (vmm_map_page_to_curr_dir others fuel vir_addr pa empty_user_page_dir_flags
              (record s { pmm = pmm })) [
                | none ↦ none
                | some s' ↦ map_stack fuel n esp_top (i + 1) (clear_words 1024 vir_addr s')
              ]
      ]

module _ {S : Type 0} where
  -- The frame that the first switch to the process pops: eleven words, cleared but for the flags and the
  -- entry point.
  unfoldable pub build_frame : (esp_frame eip : ℕ) → Vmm S → Vmm S
  unfolding clear_words store
  build_frame esp_frame eip s =
      let s = clear_words 11 esp_frame s in
      let s = store (esp_frame + 4 * 3) 0 s in
      let s = store (esp_frame + 4 * 8) default_eflags s in store (esp_frame + 4 * 10) eip s

module _ {S : Type 0} (others : Outside S) where
  -- With the context of the running process, and the new one's; the new `esp` is returned.
  unfoldable pub process_create_stack :
      (fuel : ℕ)
      → (prev_vm_context vm_context : Option VmContext) → (context : Context) → (stack_size : ℕ)
      → Vmm S
      → Option (ℕ × Vmm S)
  unfolding align_to_page vmm_switch_vm_context map_stack build_frame frame_place
  process_create_stack fuel prev_vm_context vm_context context stack_size s =
      let pages = align_to_page stack_size / page_size in
      let esp_frame = frame_place context.esp in
      elim (vmm_switch_vm_context vm_context s) [
        | none ↦ none
        | some s1 ↦ elim (map_stack others fuel pages context.esp 0 s1) [
          | none ↦ none
          | some s2 ↦
              elim (vmm_switch_vm_context prev_vm_context (build_frame esp_frame context.eip s2)) [
                | none ↦ none
                | some s3 ↦ some (esp_frame, s3)
              ]
        ]
      ]

  -- What `process_create` does once the process block is made: the stack, the number and the name.
  unfoldable pub start_process :
      (fuel next_pid : ℕ)
      → (current : Option VmContext) → (name : List ℕ) → Priority
      → (old_name : ℕ → ℕ) → ℕ × Pcb
      → Vmm S
      → Option (Process × ℕ × Vmm S)
  unfolding process_create_stack pid_alloc set_name
  start_process fuel next_pid current name priority old_name (at, pcb) s = elim pcb.context [
    | none ↦ none
    | some (address, context) ↦
        elim (process_create_stack fuel current
          (elim pcb.vm_context [ none ↦ none | some (p, c) ↦ some c ]) context (0x1000 * 5) s) [
            | none ↦ none
            | some (esp, s') ↦
                let (pid, next_pid') = pid_alloc next_pid in
                some (
                  record {
                    pcb =
                        (at, record pcb { context = some (address, record context { esp = esp }) });
                    pid = pid;
                    name = set_name name old_name;
                    priority = priority;
                  },
                  next_pid',
                  s',
                )
          ]
  ]

  -- `parent` is the context of the parent, if there is a parent; `current` that of the running process;
  -- `old_name` is what the new struct holds at first. With the process and its address, and the next
  -- number.
  unfoldable pub process_create :
      (fuel next_pid entry_point : ℕ)
      → (name : List ℕ) → Priority
      → (parent : Option (Option VmContext)) → (current : Option VmContext) → (old_name : ℕ → ℕ)
      → Vmm S
      → Option (Option (ℕ × Process) × ℕ × Vmm S)
  unfolding pcb_create start_process
  process_create fuel next_pid entry_point name priority none current old_name s =
      some (none, next_pid, s)
  process_create fuel next_pid entry_point name priority (some parent) current old_name s =
      let (process, outside) = others.kmalloc 44 s.outside in
      let s1 = record s { outside = outside } in
      elim (process == 0) [
        | true ↦ some (none, next_pid, s1)
        | false ↦ elim (pcb_create others fuel entry_point first_esp parent s1) [
          | none ↦ none
          | some (none, s2) ↦
              some (none, next_pid, record s2 { outside = others.kfree process s2.outside })
          | some (some pcb, s2) ↦
              elim (start_process fuel next_pid current name priority old_name pcb s2) [
                | none ↦ none
                | some (p, next_pid', s3) ↦ some (some (process, p), next_pid', s3)
              ]
        ]
      ]
