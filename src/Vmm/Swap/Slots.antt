-- ===== src/Vmm/Swap/Slots.antt =====
-- What a page that is swapped out leaves in its entry, and where it is read from.
use my_os.Base.{ℕ, ◌*◌, ◌/◌, ◌%◌, ◌^◌, ◌<◌, ◌≡◌, ◌==◌, not, ap, ◌∙◌, arith}
use my_os.Base.Masks.{update}
use my_os.Disk.Slots.{disk_free_slots}
use my_os.Vmm.Entries.{
  get_frame_addr, is_page_present, page_entry_set_frame, page_entry_add_attrib,
  page_entry_remove_attrib, present, swapped,
}
use my_os.Vmm.Entries.Flags.{get_frame_addr-value, set_frame-value, swapped_out_entry}
use my_os.Vmm.State.{Vmm, Outside, place, load, store, slots_for_page, disk_free_slots_for_page}
use my_os.Vmm.Swap.{modify, read_in, write_out}

-- Once `vmm_swap_in_page` has a frame for an entry, whatever slot the entry named, it reads the page
-- from the slot whose number is the address of the new frame, and frees the slots from that number on.
pub read_in-reads_frame :
    {S : Type 0}
    → (others : Outside S) (s : Vmm S) (e a frame : ℕ) → place s e ≡ a
    → place (record s { memory = update s.memory a (page_entry_set_frame (s.memory a) frame) }) e
      ≡ a
    → frame < 2 ^ 32
    → frame % 4096 ≡ 0
    → ((read_in others e frame s).outside ≡ others.read_page frame frame s.outside)
      × ((read_in others e frame s).slots
          ≡ disk_free_slots frame (slots_for_page s.sector_size) s.slots)
unfolding read_in modify load store disk_free_slots_for_page
read_in-reads_frame others s e a frame at again fits aligned =
    let v = page_entry_set_frame (s.memory a) frame in
    let s1 = record s { memory = update s.memory a v } in
    let first : modify e (λ w. page_entry_set_frame w frame) s ≡ s1 =
      ap (λ x. record s { memory = update s.memory x (page_entry_set_frame (s.memory x) frame) })
        at in
    let self : s1.memory a ≡ v = ground arith in
    let loaded : load e s1 ≡ v = ap s1.memory again ∙ self in
    let value : get_frame_addr v ≡ frame =
      get_frame_addr-value v (omega (arith, set_frame-value (s.memory a) frame aligned))
      ∙ omega (arith, set_frame-value (s.memory a) frame aligned) in
    let slot : get_frame_addr (load e (modify e (λ w. page_entry_set_frame w frame) s)) ≡ frame =
      ap (λ t. get_frame_addr (load e t)) first ∙ ap get_frame_addr loaded ∙ value in
    (
      ap (λ k. others.read_page k frame s.outside) slot,
      ap (λ k. disk_free_slots k (slots_for_page s.sector_size) s.slots) slot,
    )

update_self : (m : ℕ → ℕ) (a v : ℕ) → update m a v a ≡ v
update_self m a v = ground arith

update_twice_at : (m : ℕ → ℕ) (a v w k : ℕ) → update (update m a v) a w k ≡ update m a w k
update_twice_at m a v w k = ground arith

-- A second write to an address hides the first.
update_twice : (m : ℕ → ℕ) (a v w : ℕ) → update (update m a v) a w ≡ update m a w
update_twice m a v w t k = update_twice_at m a v w k t

modify-at :
    {S : Type 0}
    → (s : Vmm S) (e a : ℕ) (change : ℕ → ℕ) → place s e ≡ a
    → modify e change s ≡ record s { memory = update s.memory a (change (s.memory a)) }
unfolding modify load store
modify-at s e a change at =
    ap (λ x. record s { memory = update s.memory x (change (s.memory x)) }) at

-- A change of an entry that was written before.
modify_again :
    {S : Type 0}
    → (s : Vmm S) (e a v : ℕ) (change : ℕ → ℕ)
    → place (record s { memory = update s.memory a v }) e ≡ a
    → modify e change (record s { memory = update s.memory a v })
      ≡ record s { memory = update s.memory a (change v) }
modify_again s e a v change at =
    modify-at (record s { memory = update s.memory a v }) e a change at
    ∙ ap (λ x. record s { memory = update (update s.memory a v) a (change x) })
        (update_self s.memory a v)
    ∙ ap (λ m. record s { memory = m }) (update_twice s.memory a v (change v))

-- `vmm_swap_out_page`, once it has the entry of a page and a slot, writes the page of the entry's frame to
-- the slot; but of the slot's number the entry then keeps, as its frame, only the multiple of 4096 below
-- it, and the page counts as present exactly where the number is odd. The entry and the number have 32
-- bits, and a change of the entry does not move it.
pub write_out-loses_slot :
    {S : Type 0}
    → (others : Outside S) (s : Vmm S) (e a slot : ℕ) → place s e ≡ a
    → ((v : ℕ) → place (record s { memory = update s.memory a v }) e ≡ a)
    → s.memory a < 2 ^ 32
    → slot < 2 ^ 32
    → let s' = write_out others e slot s in
      (s'.outside ≡ others.write_page slot (get_frame_addr (s.memory a)) s.outside)
      × (get_frame_addr (load e s') ≡ slot / 4096 * 4096)
      × (is_page_present (load e s') ≡ not (slot % 2 == 0))
unfolding write_out load place
write_out-loses_slot others s e a slot at stays fits fits' =
    let v = s.memory a in
    let written = others.write_page slot (get_frame_addr (load e s)) s.outside in
    let s0 = record s { outside = written } in
    let v1 = page_entry_add_attrib v swapped in
    let v2 = page_entry_remove_attrib v1 present in
    let v3 = page_entry_set_frame v2 slot in
    let s3 = record s0 { memory = update s.memory a v3 } in
    let done : write_out others e slot s ≡ s3 =
      ap
        (λ t.
          modify e (λ x. page_entry_set_frame x slot)
            (modify e (λ x. page_entry_remove_attrib x present) t))
        (modify-at s0 e a (λ x. page_entry_add_attrib x swapped) at)
      ∙ ap (modify e (λ x. page_entry_set_frame x slot))
          (modify_again s0 e a v1 (λ x. page_entry_remove_attrib x present) (stays v1))
      ∙ modify_again s0 e a v2 (λ x. page_entry_set_frame x slot) (stays v2) in
    let loaded : load e (write_out others e slot s) ≡ v3 =
      ap (load e) done ∙ ap s3.memory (stays v3) ∙ update_self s.memory a v3 in
    let left = swapped_out_entry v slot fits fits' in
    (
      ap (λ (t : Vmm _). t.outside) done
          ∙ ap (λ x. others.write_page slot (get_frame_addr (s.memory x)) s.outside) at,
      ap get_frame_addr loaded ∙ left.0,
      ap is_page_present loaded ∙ left.1,
    )
