-- ===== src/Processes/Create/Stack.antt =====
-- Where the stack of a new process lies.
use my_os.Base.{ℕ, ◌+◌, ◌*◌, ◌/◌, ◌%◌, ◌^◌, ◌≤◌, ◌<◌, ◌≢◌, arith}
use my_os.Processes.Create.{stack_page, frame_place}

-- Below an `esp` that lies 44 bytes or more into its page, no page that the loop of
-- `process_create_stack` maps, as far as the pages fit under `esp`, holds any word of the frame that it
-- then builds.
pub frame-ne-stack_page :
    (esp_top i j : ℕ)
    → esp_top < 2 ^ 32
    → 44 ≤ esp_top % 4096
    → (i + 1) * 4096 ≤ esp_top
    → j < 11
    → (frame_place esp_top + 4 * j) / 4096 ≢ stack_page esp_top i / 4096
unfolding frame_place stack_page
frame-ne-stack_page esp_top i j fits offset under inside e = absurd (omega arith)
