-- ===== src/Std.antt =====
-- The kernel's own C library: std/string.c, std/stdlib.c, std/stdio.c and memory/utills.c.
-- A C string that is read is the list of its bytes before the NUL; a buffer that is written is a
-- function from indices to bytes.
pub mod CString
pub mod Memory
pub mod Stdlib
pub mod Stdio
mod Tests
use my_os.Base.{ℕ, ◌≤◌, ◌≡◌, List, get_or, length}

-- The buffer starts with the bytes of the string and a NUL.
abbrev pub Holds : (ℕ → ℕ) → List ℕ → Type 0
Holds buffer str = (k : ℕ) → k ≤ length str → buffer k ≡ get_or str k 0
