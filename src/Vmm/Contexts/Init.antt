-- ===== src/Vmm/Contexts/Init.antt =====
-- The kernel's directory after the first loop of `vmm_init`.
use my_os.Base.{
  ℕ, zero, suc, ◌+◌, ◌*◌, ◌^◌, ◌≤◌, ◌<◌, ◌≡◌, refl, ap, ◌∙◌, sym, true, false, ◌&&◌, ◌==◌, some,
  leb, ltb, arith, if◌then◌else◌, Bool-cases, inl, inr,
}
use my_os.Base.Masks.{update}
use my_os.Pmm.{word}
use my_os.Vmm.Entries.{
  get_frame_addr, is_page_present, page_entry_add_attrib, kernel_page_flags, tables_per_dir,
}
use my_os.Vmm.State.{Vmm, Outside, load, store, place, get_page_table_addr}
use my_os.Vmm.Swap.{modify}
use my_os.Vmm.Map.{find_table, table_at}
use my_os.Vmm.Contexts.{set_flags}

module _ {S : Type 0} where
  modify-off :
      (s : Vmm S) (e : ℕ) (change : ℕ → ℕ)
      → s.paging_enabled ≡ false
      → modify e change s ≡ record s { memory = update s.memory e (change (s.memory e)) }
  unfolding modify load store place
  modify-off s e change off =
      let at : place s e ≡ e = rw off refl in
      ap (λ x. record s { memory = update s.memory x (change (s.memory x)) }) at

  load-off : (s : Vmm S) (e : ℕ) → s.paging_enabled ≡ false → load e s ≡ s.memory e
  unfolding load place
  load-off s e off = let at : place s e ≡ e = rw off refl in ap s.memory at

  -- With paging off the loop adds the flags to the entries from `i` on.
  set_flags-entries :
      (n i dir k : ℕ) (s : Vmm S)
      → s.paging_enabled ≡ false
      → dir + 4 * (i + n) ≤ 2 ^ 32
      → ((set_flags n dir i s).paging_enabled ≡ false)
        × ((set_flags n dir i s).memory (dir + 4 * k) ≡ (
            if leb i k && ltb k (i + n)
            then page_entry_add_attrib (s.memory (dir + 4 * k)) kernel_page_flags
            else s.memory (dir + 4 * k)))
  unfolding set_flags
  set_flags-entries zero i dir k s off fits =
      (off, let e : (leb i k && ltb k (i + 0)) ≡ false = ground arith in rw e refl)
  set_flags-entries (suc n) i dir k s off fits =
      let e = dir + 4 * i in
      let w : word e ≡ e = omega arith in
      let v = page_entry_add_attrib (s.memory e) kernel_page_flags in
      let s1 = record s { memory = update s.memory e v } in
      let step : modify (word e) (λ v. page_entry_add_attrib v kernel_page_flags) s ≡ s1 =
        ap (λ x. modify x (λ v. page_entry_add_attrib v kernel_page_flags) s) w
        ∙ modify-off s e (λ v. page_entry_add_attrib v kernel_page_flags) off in
      let ih = set_flags-entries n (i + 1) dir k s1 off (omega arith) in
      let next : set_flags (suc n) dir i s ≡ set_flags n dir (i + 1) s1 =
        ap (λ t. set_flags n dir (i + 1) t) step in
      (
        ap (λ t. t.paging_enabled) next ∙ ih.0,
        ap (λ t. t.memory (dir + 4 * k)) next ∙ ih.1 ∙ elim (Bool-cases (k == i)) [
          | inl here ↦
              let p : (leb (i + 1) k && ltb k (i + 1 + n)) ≡ false = ground arith in
              let q : (leb i k && ltb k (i + suc n)) ≡ true = ground arith in
              let r : (dir + 4 * i == dir + 4 * k) ≡ true = ground arith in
              let f : k ≡ i = ground arith in
              rw (p, q, r)
                (ap (λ x. page_entry_add_attrib (s.memory (dir + 4 * x)) kernel_page_flags) (sym f))
          | inr other ↦
              let p : (leb (i + 1) k && ltb k (i + 1 + n)) ≡ (leb i k && ltb k (i + suc n)) =
                ground arith in
              let r : (dir + 4 * i == dir + 4 * k) ≡ false = ground arith in rw (p, r) refl
        ],
      )

literal_present : is_page_present (page_entry_add_attrib 0 kernel_page_flags) ≡ true
unfolding is_page_present page_entry_add_attrib
literal_present = refl

literal_frame : get_frame_addr (page_entry_add_attrib 0 kernel_page_flags) ≡ 0
unfolding get_frame_addr page_entry_add_attrib
literal_frame = refl

-- After the loop, on a directory that was clear with paging off, `vmm_map_page` finds every page table
-- present at physical address 0: it allocates none, whatever table is asked for.
pub set_flags-one_table :
    {S : Type 0}
    → (others : Outside S) (fuel dir k : ℕ) (s : Vmm S) → s.paging_enabled ≡ false
    → dir + 4096 ≤ 2 ^ 32
    → ((i : ℕ) → i < 1024 → s.memory (dir + 4 * i) ≡ 0)
    → k < 1024
    → find_table others fuel (word (dir + 4 * k)) k (set_flags tables_per_dir dir 0 s)
      ≡ some (0, set_flags tables_per_dir dir 0 s)
unfolding find_table table_at get_page_table_addr
set_flags-one_table others fuel dir k s off fits clear inside =
    let s1 = set_flags tables_per_dir dir 0 s in
    let after = set_flags-entries 1024 0 dir k s off (omega arith) in
    let q : (leb 0 k && ltb k (0 + 1024)) ≡ true = ground arith in
    let w : word (dir + 4 * k) ≡ dir + 4 * k = omega arith in
    let flags : s1.memory (dir + 4 * k) ≡ page_entry_add_attrib 0 kernel_page_flags =
      after.1 ∙ rw q (ap (λ v. page_entry_add_attrib v kernel_page_flags) (clear k inside)) in
    let seen : load (word (dir + 4 * k)) s1 ≡ page_entry_add_attrib 0 kernel_page_flags =
      load-off s1 (word (dir + 4 * k)) after.0 ∙ ap s1.memory w ∙ flags in
    let on : is_page_present (load (word (dir + 4 * k)) s1) ≡ true =
      ap is_page_present seen ∙ literal_present in
    let table : table_at (word (dir + 4 * k)) k s1 ≡ 0 =
      ap (λ b. get_page_table_addr b (load (word (dir + 4 * k)) s1) k) after.0
      ∙ ap (λ v. get_page_table_addr false v k) seen
      ∙ literal_frame in
    rw (on, find_table) (ap (λ t. some (t, s1)) table)
