-- ===== src/Disk/Drive/Wait.antt =====
-- The waits of drivers/disk.c at a drive that keeps to the documents: `ata_wait_for_bsy`,
-- `ata_wait_for_drq`, `delay400ns` and the loop of `ata_write_sectors` before its command.
use my_os.Base.{
  ℕ, zero, suc, ◌+◌, ◌<◌, ◌≡◌, refl, ◌∙◌, ap, arith, true, some, Bool-cases, inl, inr, ◌==◌,
}
use my_os.Io.{Ports}
use my_os.Disk.Ata.{
  IdentifyDeviceData, bsy_loop, drq_loop, ata_wait_for_bsy, ata_wait_for_drq, wait_for_data,
  read_status, wait_until_ready, delay_400ns, delay_after_command, ata_reg_cmd_status,
  ata_reg_altstatus,
}
use my_os.Disk.Drive.{View, Drive}
use my_os.Disk.Drive.Sizes.{is_zero, is_more}

module _ {S : Type 0} {io : Ports S} {disk : IdentifyDeviceData} (d : Drive io disk) where
  -- The drive is ready in `s'`, and is as it was in `s`.
  abbrev pub IsReady : S → S → Type 0
  IsReady s s' = (d.view s' ≡ d.view s) × (d.busy s' ≡ 0)

  -- The polling finds the drive ready when it has rounds enough.
  bsy_loop-IsReady :
      (n : ℕ) (s : S)
      → d.busy s < n
      → ((bsy_loop io n disk.base_io_port s).0 ≡ true)
        × IsReady s (bsy_loop io n disk.base_io_port s).1
  unfolding bsy_loop
  bsy_loop-IsReady zero s h = absurd (omega (arith, h))
  bsy_loop-IsReady (suc n) s h = elim (Bool-cases (d.busy s == 0)) [
    | inl now ↦
        let free = is_zero (d.busy s) now in
        rw (d.busy_bit s, now, bsy_loop)
          (refl, (d.status_view s, omega (arith, d.status_busy s, free)))
    | inr later ↦
        let waits = is_more (d.busy s) later in
        let ih =
          bsy_loop-IsReady n (io.inb (disk.base_io_port + ata_reg_cmd_status) s).1
            (omega (arith, d.status_busy s, waits, h)) in
        rw (d.busy_bit s, later, bsy_loop) (ih.0, (ih.1.0 ∙ d.status_view s, ih.1.1))
  ]

  pub ata_wait_for_bsy-IsReady :
      (s : S)
      → ((ata_wait_for_bsy io disk.base_io_port s).0 ≡ true)
        × IsReady s (ata_wait_for_bsy io disk.base_io_port s).1
  unfolding ata_wait_for_bsy
  ata_wait_for_bsy-IsReady s = bsy_loop-IsReady 1000000000 s (omega (arith, d.busy-bound s))

  -- A drive that is ready for data says so at the first read.
  drq_loop-IsReady :
      (n : ℕ) (s : S)
      → d.busy s ≡ 0
      → 0 < (d.view s).left
      → ((drq_loop io (suc n) disk.base_io_port s).0 ≡ true)
        × IsReady s (drq_loop io (suc n) disk.base_io_port s).1
  unfolding drq_loop
  drq_loop-IsReady n s idle some_left =
      rw (d.no_error_bit s idle, d.data_bit s idle some_left, drq_loop)
        (refl, (d.status_view s, omega (arith, d.status_busy s)))

  ata_wait_for_drq-IsReady :
      (s : S)
      → d.busy s ≡ 0
      → 0 < (d.view s).left
      → ((ata_wait_for_drq io disk.base_io_port s).0 ≡ true)
        × IsReady s (ata_wait_for_drq io disk.base_io_port s).1
  unfolding ata_wait_for_drq
  ata_wait_for_drq-IsReady s idle some_left = drq_loop-IsReady 999999 s idle some_left

  pub wait_for_data-IsReady :
      (s : S)
      → 0 < (d.view s).left
      → ((wait_for_data io disk.base_io_port s).0 ≡ true)
        × IsReady s (wait_for_data io disk.base_io_port s).1
  unfolding wait_for_data
  wait_for_data-IsReady s some_left =
      let b = ata_wait_for_bsy-IsReady s in
      let s' = (ata_wait_for_bsy io disk.base_io_port s).1 in
      let l : (d.view s').left ≡ (d.view s).left = ap (λ (v : View). v.left) b.1.0 in
      let r = ata_wait_for_drq-IsReady s' b.1.1 (omega (arith, l)) in
      rw (b.0, wait_for_data) (r.0, (r.1.0 ∙ b.1.0, r.1.1))

  pub wait_until_ready-IsReady :
      (n : ℕ) (s : S)
      → (s' : S) × (wait_until_ready io (suc n) disk.base_io_port s ≡ some s') × IsReady s s'
  unfolding wait_until_ready
  wait_until_ready-IsReady n s =
      let b = ata_wait_for_bsy-IsReady s in
      ((ata_wait_for_bsy io disk.base_io_port s).1, rw (b.0, wait_until_ready) refl, b.1)

  pub read_status-view : (n : ℕ) (s : S) → d.view (read_status io n disk.base_io_port s) ≡ d.view s
  unfolding read_status
  read_status-view zero s = refl
  read_status-view (suc n) s =
      read_status-view n (io.inb (disk.base_io_port + ata_reg_altstatus) s).1 ∙ d.alt_view s

  read_status-busy :
      (n : ℕ) (s : S) → d.busy s ≡ 0 → d.busy (read_status io n disk.base_io_port s) ≡ 0
  unfolding read_status
  read_status-busy zero s idle = idle
  read_status-busy (suc n) s idle =
      read_status-busy n (io.inb (disk.base_io_port + ata_reg_altstatus) s).1 (d.alt_busy s idle)

  pub delay_400ns-view : (s : S) → d.view (delay_400ns io disk.base_io_port s) ≡ d.view s
  unfolding delay_400ns
  delay_400ns-view s = read_status-view 14 s

  pub delay_400ns-busy : (s : S) → d.busy s ≡ 0 → d.busy (delay_400ns io disk.base_io_port s) ≡ 0
  unfolding delay_400ns
  delay_400ns-busy s idle = read_status-busy 14 s idle

  pub delay_after_command-view :
      (s : S) → d.view (delay_after_command io disk.base_io_port s) ≡ d.view s
  unfolding delay_after_command
  delay_after_command-view s = read_status-view 4 s
