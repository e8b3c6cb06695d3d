-- ===== src/Disk/Drive/Tests.antt =====
-- The theorems on reads and writes at the machine of `Model`, with 11 bytes: two sectors and three bytes
-- of a third one.
use my_os.Base.{ℕ, ◌+◌, ◌*◌, ◌%◌}
use my_os.Disk.Drive.Model.{Machine, new_machine}

abbrev ready_machine : Machine
ready_machine = record new_machine { busy = 0 }

abbrev letters : ℕ → ℕ
letters k = 65 + k % 26

abbrev letter_pairs : ℕ → ℕ
letter_pairs k = letters (2 * k) + 256 * letters (2 * k + 1)
