-- ===== src/Disk/Slots/Alloc.antt =====
-- What `disk_alloc_slots` and `disk_free_slots` promise.
use my_os.Base.{
  ℕ, ◌+◌, ◌-◌, ◌*◌, ◌%◌, ◌^◌, ◌≤◌, ◌<◌, ◌≡◌, refl, arith, true, false, ◌==◌, if◌then◌else◌, ◌⊎◌,
  Bool-cases, Option-cases, inl, inr, sym, ◌∙◌, ltb, leb, ◌&&◌,
}
use my_os.Disk.Slots.{
  Slots, disk_no_slot_available, disk_alloc_slots, disk_free_slots, find_run, take_run,
  are_slots_free, disk_bitmap_size,
}
use my_os.Disk.Slots.Runs.{
  used, in_run, are_slots_free-used, used-are_slots_free, used-mark_slots_used,
  used-mark_slots_free,
}
use my_os.Disk.Slots.Search.{find_run-some, find_run-none}

-- A run of `count` slots within the table, none of them in use.
pub record IsFreeRun (b : ℕ → ℕ) (start count : ℕ) : Type 0 where
  pub fits : start + count ≤ 800000
  pub free : (k : ℕ) → start ≤ k → k < start + count → used b k ≡ 0

-- The run of `count` slots at `result` was free, and it is exactly what is now in use besides.
pub record Taken (s : Slots) (count : ℕ) (result : ℕ × Slots) : Type 0 where
  pub was_free : IsFreeRun s.disk_bitmap result.0 count
  pub now_used :
      (k : ℕ)
      → used result.1.disk_bitmap k ≡ (if in_run result.0 count k then 1 else used s.disk_bitmap k)
  pub next : result.1.last_alloc_index ≤ disk_bitmap_size

take_run-Taken :
    (s : Slots) (count slot : ℕ)
    → count < 256
    → slot < 800000
    → are_slots_free s.disk_bitmap slot count ≡ true
    → Taken s count (take_run count slot s)
unfolding take_run
take_run-Taken s count slot small inside free =
    let run = are_slots_free-used s.disk_bitmap slot count (omega arith) free in
    record {
      was_free = record { fits = run.0; free = run.1 };
      now_used = λ k. used-mark_slots_used count slot s.disk_bitmap k (omega arith);
      next = omega (arith, run.0);
    }

-- `disk_alloc_slots` of 1 to 255 slots, with the search position inside the table, returns a free run
-- of that many slots, marks exactly it and keeps the position inside; or it returns
-- DISK_NO_SLOT_AVAILABLE and changes nothing, and then the table has no free run of that length.
pub alloc_slots-Taken :
    (s : Slots) (count : ℕ)
    → 0 < count
    → count < 256
    → s.last_alloc_index ≤ disk_bitmap_size
    → Taken s count (disk_alloc_slots count s)
      ⊎ ((disk_alloc_slots count s ≡ (disk_no_slot_available, s))
          × ((start : ℕ) → IsFreeRun s.disk_bitmap start count → false ≡ true))
unfolding disk_alloc_slots
alloc_slots-Taken s count some_of small low =
    let last = s.last_alloc_index in
    let b = s.disk_bitmap in
    let on : (count == 0) ≡ false = ground arith in
    elim (Option-cases (find_run (100000 - last) b count last)) [
      | inr (slot, found) ↦
          let r = find_run-some (100000 - last) b count last slot (omega arith) found in
          inl (rw (on, found) (take_run-Taken s count slot small (omega (arith, r.0)) r.1))
      | inl none1 ↦ elim (Option-cases (find_run last b count 0)) [
        | inr (slot, found) ↦
            let r = find_run-some last b count 0 slot (omega arith) found in
            inl (rw (on, none1, found) (take_run-Taken s count slot small (omega (arith, r.0)) r.1))
        | inl none2 ↦ inr (
          rw (on, none1, none2) refl,
          λ start run.
              sym (elim (Bool-cases (leb (last * 8) start)) [
                | inl late ↦
                    find_run-none (100000 - last) b count last start (omega arith) none1
                      (ground arith) (omega (arith, run.fits))
                | inr early ↦
                    find_run-none last b count 0 start (omega arith) none2 (omega arith)
                      (ground arith)
              ])
              ∙ used-are_slots_free b start count some_of run.fits run.free,
        )
      ]
    ]

-- `disk_free_slots`, on a bitmap of bytes and of a run whose first slot and length add up to less than
-- 2 ^ 32, frees exactly the run where it ends before the last slot of the table, and changes nothing where
-- it ends at the last slot or past it.
pub free_slots-releases :
    (s : Slots) (slot count k : ℕ)
    → ((i : ℕ) → s.disk_bitmap i < 256)
    → slot + count < 2 ^ 32
    → used (disk_free_slots slot count s).disk_bitmap k
      ≡ (if in_run slot count k && ltb (slot + count) 800000 then 0 else used s.disk_bitmap k)
unfolding disk_free_slots
free_slots-releases s slot count k bytes fits =
    let e : (slot + count) % 2 ^ 32 ≡ slot + count = omega arith in
    rw e (ground (arith, used-mark_slots_free count slot s.disk_bitmap k bytes fits))
