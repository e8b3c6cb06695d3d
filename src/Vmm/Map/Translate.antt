-- ===== src/Vmm/Map/Translate.antt =====
-- What mapping a page means for the processor's translation, and that the kernel computes the same.
use my_os.Base.{
  ℕ, ◌+◌, ◌*◌, ◌/◌, ◌^◌, ◌<◌, ◌≡◌, refl, ap, ◌∙◌, false, none, some, arith, if◌then◌else◌,
  Bool-cases, inl, inr, ◌&&◌,
}
use my_os.Pmm.{word}
use my_os.Vmm.Entries.{
  get_frame_addr, get_directory_index, get_table_index, is_page_present, is_swapped,
  get_frame_offset,
}
use my_os.Vmm.Entries.Flags.{get_frame_addr-value}
use my_os.Vmm.State.{Vmm, Outside, walk, load, get_page_table_addr}
use my_os.Vmm.State.Walk.{
  IsSelfMapped, IsCurrent, get_directory_index-value, get_table_index-value, get_frame_offset-value,
}
use my_os.Vmm.Swap.{vmm_get_page_entry, get_page_entry_with, entry_in_table, directory_entry}
use my_os.Vmm.Map.{vmm_calc_phys_addr}
use my_os.Vmm.Map.Writes.{entry_of, seen_at, place-seen_at}

module _ {S : Type 0} (others : Outside S) (fuel : ℕ) where
  load-reach :
      (s : Vmm S) (dir i : ℕ)
      → IsCurrent s dir
      → i < 1024
      → load (word (dir + 4 * i)) s ≡ s.memory (s.cr3 + 4 * i)
  unfolding load
  load-reach s dir i c h = ap s.memory (c.reach i h)

module _ {S : Type 0} (others : Outside S) (fuel : ℕ) where
  -- The entry that `vmm_get_page_entry` finds where no table has to be swapped in.
  pub vmm_get_page_entry-seen :
      (s : Vmm S) (va : ℕ)
      → IsCurrent s s.current_directory
      → va < 2 ^ 32
      → is_swapped (s.memory (s.cr3 + 4 * (va / 4194304))) ≡ false
      → vmm_get_page_entry others fuel va s ≡ (
          if is_page_present (s.memory (s.cr3 + 4 * (va / 4194304)))
          then some (seen_at s va, s)
          else none)
  unfolding vmm_get_page_entry get_page_entry_with entry_in_table directory_entry
      get_directory_index
  vmm_get_page_entry-seen s va c small resident =
      let i = va / 4194304 in
      let at = load-reach others fuel s s.current_directory i c (omega arith) in
      let test : is_swapped (load (word (s.current_directory + 4 * i)) s) ≡ false =
        ap is_swapped at ∙ resident in
      let end : vmm_get_page_entry others fuel va s ≡ entry_in_table va s =
        rw (c.real, vmm_get_page_entry, get_page_entry_with)
          (rw (test, get_page_entry_with) refl) in
      end
      ∙ ap
          (λ v.
            if is_page_present v
            then some (word (get_page_table_addr s.paging_enabled v i + 4 * get_table_index va), s)
            else none)
          at
      ∙ rw (get_table_index-value va) refl

  pub load-seen :
      (s : Vmm S) (va : ℕ)
      → IsSelfMapped s
      → va < 2 ^ 32
      → load (seen_at s va) s ≡ s.memory (entry_of s va)
  unfolding load
  load-seen s va c small = ap s.memory (place-seen_at s va c small)

  walk-entry_of :
      (s : Vmm S) (va : ℕ)
      → IsSelfMapped s
      → va < 2 ^ 32
      → word (get_frame_addr (s.memory (entry_of s va)) + get_frame_offset va)
        ≡ walk s.memory s.cr3 va
  unfolding walk
  walk-entry_of s va c small =
      let a = entry_of s va in
      rw (get_directory_index-value va, get_table_index-value va)
        (omega (
          arith,
          get_frame_addr-value (s.memory a) (c.fits a),
          c.fits a,
          get_frame_offset-value va,
        ))

-- `vmm_calc_phys_addr`, for an address of the directory in use whose table is not swapped out, is the
-- processor's translation of the address where the table and the page are present, and a panic
-- otherwise.
pub vmm_calc_phys_addr-walk :
    {S : Type 0}
    → (others : Outside S) (fuel : ℕ) (s : Vmm S) (va : ℕ) → IsCurrent s s.current_directory
    → va < 2 ^ 32
    → is_swapped (s.memory (s.cr3 + 4 * (va / 4194304))) ≡ false
    → vmm_calc_phys_addr others fuel va s ≡ (
        if is_page_present (s.memory (s.cr3 + 4 * (va / 4194304)))
          && is_page_present (s.memory (entry_of s va))
        then some (walk s.memory s.cr3 va, s)
        else none)
unfolding vmm_calc_phys_addr
vmm_calc_phys_addr-walk others fuel s va c small resident =
    let found = vmm_get_page_entry-seen others fuel s va c small resident in
    let seen = load-seen others fuel s va c.self small in
    elim (Bool-cases (is_page_present (s.memory (s.cr3 + 4 * (va / 4194304))))) [
      | inl on ↦
          let here : vmm_get_page_entry others fuel va s ≡ some (seen_at s va, s) =
            found ∙ rw on refl in
          rw (on, here, vmm_calc_phys_addr)
            (rw (seen, walk-entry_of others fuel s va c.self small) refl)
      | inr off ↦
          let here : vmm_get_page_entry others fuel va s ≡ none = found ∙ rw off refl in
          rw (off, here, vmm_calc_phys_addr) refl
    ]
