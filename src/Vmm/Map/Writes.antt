-- ===== src/Vmm/Map/Writes.antt =====
-- The entry that mapping a page writes, and what it leaves of the directory.
use my_os.Base.{ℕ, ◌+◌, ◌*◌, ◌/◌, ◌%◌, ◌^◌, ◌<◌, ◌≡◌, refl, ap, ◌∙◌, bit_or, false, ◌==◌, arith}
use my_os.Base.Masks.{update}
use my_os.Pmm.{word}
use my_os.Vmm.Entries.{get_frame_addr, page_entry_set_frame, page_entry_add_attrib, present}
use my_os.Vmm.Entries.Flags.{get_frame_addr-value, set_frame-value}
use my_os.Vmm.State.{Vmm, place, load, store, get_page_table_addr}
use my_os.Vmm.State.Walk.{IsSelfMapped, place-table, apart_pages, get_table_index-value}
use my_os.Vmm.Swap.{modify}
use my_os.Vmm.Map.{map_in_table}

-- The page table for an address, as the processor finds it.
abbrev pub table_of : {S : Type 0} → Vmm S → (va : ℕ) → ℕ
table_of s va = get_frame_addr (s.memory (s.cr3 + 4 * (va / 4194304)))

-- That table is not the directory itself. Other entries of the directory may lead to it as well.
abbrev pub IsApart : {S : Type 0} → Vmm S → (va : ℕ) → Type 0
IsApart s va = (table_of s va == s.cr3) ≡ false

abbrev pub entry_of : {S : Type 0} → Vmm S → (va : ℕ) → ℕ
entry_of s va = table_of s va + 4 * (va / 4096 % 1024)

table_of-page : {S : Type 0} → (s : Vmm S) (va : ℕ) → IsSelfMapped s → table_of s va % 4096 ≡ 0
table_of-page s va c =
    let a = s.cr3 + 4 * (va / 4194304) in
    omega (arith, get_frame_addr-value (s.memory a) (c.fits a))

-- Writing an entry of such a table leaves the directory as it was.
update-keeps :
    {S : Type 0}
    → (s : Vmm S) (va v k : ℕ) → IsSelfMapped s
    → IsApart s va
    → k < 1024
    → update s.memory (entry_of s va) v (s.cr3 + 4 * k) ≡ s.memory (s.cr3 + 4 * k)
update-keeps s va v k c sep hk =
    let p =
      apart_pages (table_of s va) s.cr3 (va / 4096 % 1024) k (table_of-page s va c) c.frame sep
        (omega arith) hk in
    rw p refl

update-IsSelfMapped :
    {S : Type 0}
    → (s : Vmm S) (va v : ℕ) → IsSelfMapped s
    → IsApart s va
    → v < 2 ^ 32
    → IsSelfMapped (record s { memory = update s.memory (entry_of s va) v })
update-IsSelfMapped s va v c sep small = record {
  fits = λ a. let f = c.fits a in ground arith;
  frame = c.frame;
  window = λ on. ap get_frame_addr (update-keeps s va v 1023 c sep (omega arith)) ∙ c.window on;
}

modify-at :
    {S : Type 0}
    → (s : Vmm S) (e a : ℕ) (change : ℕ → ℕ) → place s e ≡ a
    → modify e change s ≡ record s { memory = update s.memory a (change (s.memory a)) }
unfolding modify load store
modify-at s e a change p = ap (λ x. record s { memory = update s.memory x (change (s.memory x)) }) p

-- The address by which the kernel reaches the entry for `va`.
abbrev pub seen_at : {S : Type 0} → Vmm S → (va : ℕ) → ℕ
seen_at s va = word (
    get_page_table_addr s.paging_enabled (s.memory (s.cr3 + 4 * (va / 4194304))) (va / 4194304)
    + 4 * (va / 4096 % 1024))

pub place-seen_at :
    {S : Type 0}
    → (s : Vmm S) (va : ℕ) → IsSelfMapped s
    → va < 2 ^ 32
    → place s (seen_at s va) ≡ entry_of s va
place-seen_at s va c small =
    place-table s (va / 4194304) (va / 4096 % 1024) c (omega arith) (omega arith)

map_in_table-modifies :
    {S : Type 0}
    → (s : Vmm S) (table va pa flags : ℕ)
    → map_in_table table va pa flags s
      ≡ modify
          (word (table + 4 * (va / 4096 % 1024)))
          (λ v. page_entry_add_attrib v (bit_or flags present))
          (modify (word (table + 4 * (va / 4096 % 1024))) (λ v. page_entry_set_frame v pa) s)
unfolding map_in_table
map_in_table-modifies s table va pa flags =
    ap
      (λ k.
        modify (word (table + 4 * k)) (λ v. page_entry_add_attrib v (bit_or flags present))
          (modify (word (table + 4 * k)) (λ v. page_entry_set_frame v pa) s))
      (get_table_index-value va)

pub map_in_table-writes :
    {S : Type 0}
    → (s : Vmm S) (va pa flags : ℕ) → IsSelfMapped s
    → IsApart s va
    → va < 2 ^ 32
    → pa < 2 ^ 32
    → pa % 4096 ≡ 0
    → let v0 = page_entry_set_frame (s.memory (entry_of s va)) pa in
      map_in_table
        (get_page_table_addr s.paging_enabled
          (s.memory (s.cr3 + 4 * (va / 4194304)))
          (va / 4194304))
        va
        pa
        flags
        s
      ≡ record s {
        memory =
            update
              (update s.memory (entry_of s va) v0)
              (entry_of s va)
              (page_entry_add_attrib v0 (bit_or flags present));
      }
map_in_table-writes s va pa flags c sep small fits aligned =
    let e = seen_at s va in
    let a = entry_of s va in
    let v0 = page_entry_set_frame (s.memory a) pa in
    let s1 = record s { memory = update s.memory a v0 } in
    let v0_small : v0 < 2 ^ 32 = omega (arith, set_frame-value (s.memory a) pa aligned) in
    let first : modify e (λ v. page_entry_set_frame v pa) s ≡ s1 =
      modify-at s e a (λ v. page_entry_set_frame v pa) (place-seen_at s va c small) in
    let keeps : s1.memory (s.cr3 + 4 * (va / 4194304)) ≡ s.memory (s.cr3 + 4 * (va / 4194304)) =
      update-keeps s va v0 (va / 4194304) c sep (omega arith) in
    let again : place s1 e ≡ a =
      rw keeps at (place-seen_at s1 va (update-IsSelfMapped s va v0 c sep v0_small) small) in
    let self : update s.memory a v0 a ≡ v0 = ground arith in
    let table =
      get_page_table_addr s.paging_enabled (s.memory (s.cr3 + 4 * (va / 4194304))) (va / 4194304) in
    map_in_table-modifies s table va pa flags
    ∙ ap (λ s'. modify e (λ v. page_entry_add_attrib v (bit_or flags present)) s') first
    ∙ modify-at s1 e a (λ v. page_entry_add_attrib v (bit_or flags present)) again
    ∙ ap
        (λ x. record s {
          memory = update (update s.memory a v0) a (page_entry_add_attrib x (bit_or flags present));
        })
        self
