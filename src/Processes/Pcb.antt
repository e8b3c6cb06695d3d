-- ===== src/Processes/Pcb.antt =====
-- processes/pid.c, and the contexts of processes/pcb.c. Numbers have 32 bits.
use my_os.Base.{ℕ, ◌+◌, ◌%◌, ◌^◌}

pub record Context : Type 0 where
  pub edi : ℕ
  pub esi : ℕ
  pub ebp : ℕ
  pub esp : ℕ
  pub ebx : ℕ
  pub edx : ℕ
  pub ecx : ℕ
  pub eax : ℕ
  pub eip : ℕ
  pub eflags : ℕ

abbrev pub default_eflags : ℕ
default_eflags = 0x202

-- What `context_create` stores where its allocation succeeds.
unfoldable pub context_create : (eip esp : ℕ) → Context
context_create eip esp = record {
  edi = 0;
  esi = 0;
  ebp = 0;
  esp = esp;
  ebx = 0;
  edx = 0;
  ecx = 0;
  eax = 0;
  eip = eip;
  eflags = default_eflags;
}

-- The number returned, and the next one.
unfoldable pub pid_alloc : (next_pid : ℕ) → ℕ × ℕ
pid_alloc next_pid = (next_pid, (next_pid + 1) % 2 ^ 32)
