-- ===== src/Pmm/Tests.antt =====
-- Runs of memory/pmm.c, and its theorems at concrete states.
use my_os.Base.{◌*◌, ◌%◌, ◌≡◌, refl, ◌≢◌, ◌⊎◌, ◌<◌, true, false, none, some, arith}
use my_os.Base.Masks.{update}
use my_os.Pmm.{
  has_last_free, Pmm, no_last_free, no_frame_available, pmm_alloc_frame, pmm_free_frame,
}
use my_os.Pmm.Frames.{used, IsValid}
use my_os.Pmm.Alloc.{Allocated, Exhausted, forgetful-IsValid, alloc_frame-Allocated}
use my_os.Pmm.Free.{Released, free_frame-Released}
use my_os.Pmm.Owners.{System, alloc, here, next, alloc_frame-ne-held}
use my_os.Pmm.Init.{Symbols, pmm_init}
use my_os.Pmm.Init.Reserved.{reserved, used-pmm_init}

-- The allocator as the program starts.
abbrev boot : Pmm
boot = record { bitmap = λ _. 0; last_free_frame = no_last_free; last_alloc_index = 1 }

-- Index 1 is full, and in index 2 only the frames 16 and 18 are used.
abbrev busy : Pmm
busy = record boot { bitmap = update (update (λ _. 0) 1 255) 2 5 }

boot-IsValid : IsValid boot
unfolding has_last_free
boot-IsValid = forgetful-IsValid boot (λ i. omega arith) (omega arith) (omega arith) refl

busy-IsValid : IsValid busy
unfolding has_last_free
busy-IsValid = forgetful-IsValid busy (λ i. ground arith) (omega arith) (omega arith) refl

alloc_busy : (pmm_alloc_frame busy).0 ≡ 17 * 4096
unfolding pmm_alloc_frame
alloc_busy = refl

-- A remembered frame 0 is given out as address 0, which callers read as a refusal.
alloc_frame_zero :
    (pmm_alloc_frame (record boot { last_free_frame = record { index = 0; offset = 0 } })).0
    ≡ no_frame_available
unfolding pmm_alloc_frame
alloc_frame_zero = refl

alloc_frame-Allocated_example :
    Allocated busy (pmm_alloc_frame busy).0 (pmm_alloc_frame busy).1
    ⊎ ((pmm_alloc_frame busy ≡ (no_frame_available, busy)) × Exhausted busy)
alloc_frame-Allocated_example = alloc_frame-Allocated busy-IsValid

free_frame-Released_example :
    ((65536 % 4096 ≡ 0)
      × (s' : Pmm) × (pmm_free_frame busy 65536 ≡ some s')
      × Released busy 65536 s')
    ⊎ ((0 < 65536 % 4096) × (pmm_free_frame busy 65536 ≡ none))
free_frame-Released_example = free_frame-Released busy-IsValid 65536 (omega arith)

abbrev start : System
start = record { pmm = boot; held = λ _. false }

first_alloc : (pmm_alloc_frame boot).0 ≢ no_frame_available
unfolding pmm_alloc_frame
first_alloc = omega arith

abbrev after_first : System
after_first = record {
  pmm = (pmm_alloc_frame boot).1;
  held = update (λ _. false) (pmm_alloc_frame boot).0 true;
}

second_alloc : (pmm_alloc_frame (pmm_alloc_frame boot).1).0 ≢ no_frame_available
unfolding pmm_alloc_frame
second_alloc = omega arith

alloc_frame-ne-held_example : after_first.held (pmm_alloc_frame (pmm_alloc_frame boot).1).0 ≡ false
alloc_frame-ne-held_example =
    alloc_frame-ne-held {x = start} {y = after_first} boot-IsValid (λ a. refl)
      (next here (alloc start first_alloc)) second_alloc

-- The values of linker.ld and start.asm, with an image of 128 KB.
abbrev symbols : Symbols
symbols = record {
  kernel_start = 0x100000;
  kernel_end = 0x120000;
  kernel_stack_top = 0x3FFFFFF;
  kernel_stack_pages_amount = 100;
}

used-pmm_init_example : used (pmm_init symbols boot).0 0xB8 ≡ 1
unfolding reserved
used-pmm_init_example = used-pmm_init symbols boot 0xB8 (omega arith) (omega arith)
