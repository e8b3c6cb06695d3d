-- ===== src/Vmm/Entries/Flags.antt =====
-- The frame and the flags of a page entry do not disturb each other.
use my_os.Base.{
  ℕ, ◌+◌, ◌-◌, ◌*◌, ◌/◌, ◌%◌, ◌^◌, ◌<◌, ◌≡◌, ap, ◌∙◌, bit_and, bit_or, true, not, ◌==◌, arith,
}
use my_os.Base.Bits.{
  bit, bit_or-lt, bit_or_comm, bit_or-zero, bit_and-pow_test, bit-bit_or, bit-bit_and, bit_not,
}
use my_os.Base.Align.{
  bit_and-page, bit_and-offset, bit_and-mod, bit_or-fields, bit_and-fields, bit_or-join,
}
use my_os.Vmm.Entries.{
  get_frame_addr, page_entry_set_frame, page_entry_add_attrib, page_entry_remove_attrib,
  is_page_present, is_swapped,
}

-- An entry of 32 bits with a frame aligned to pages has that frame and keeps its flags.
pub set_frame-value :
    (e frame : ℕ) → frame % 4096 ≡ 0 → page_entry_set_frame e frame ≡ frame + e % 4096
unfolding page_entry_set_frame
set_frame-value e frame aligned =
    let q : frame ≡ frame / 4096 * 2 ^ 12 = omega arith in
    let joined : bit_or (frame / 4096 * 2 ^ 12) (e % 4096) ≡ frame / 4096 * 2 ^ 12 + e % 4096 =
      bit_or-join 12 (frame / 4096) (e % 4096) (omega arith) in
    rw (bit_and-offset e, bit_or_comm (e % 4096) frame)
      (ap (λ t. bit_or t (e % 4096)) q ∙ joined ∙ omega (arith, q))

pub add_attrib-value :
    (e attrib : ℕ)
    → attrib < 4096
    → page_entry_add_attrib e attrib ≡ e / 4096 * 4096 + bit_or (e % 4096) attrib
unfolding page_entry_add_attrib
add_attrib-value e attrib small =
    let q : e ≡ e / 4096 * 2 ^ 12 + e % 4096 = omega arith in
    let z : attrib ≡ 0 * 2 ^ 12 + attrib = omega arith in
    let joined : bit_or (e / 4096 * 2 ^ 12 + e % 4096) (0 * 2 ^ 12 + attrib)
        ≡ bit_or (e / 4096) 0 * 2 ^ 12 + bit_or (e % 4096) attrib =
      bit_or-fields 12 (e / 4096) (e % 4096) 0 attrib (omega arith) small in
    ap (λ t. bit_or t attrib) q
    ∙ ap (λ t. bit_or (e / 4096 * 2 ^ 12 + e % 4096) t) z
    ∙ joined
    ∙ omega (arith, bit_or-zero (e / 4096))

pub remove_attrib-value :
    (e attrib : ℕ)
    → e < 2 ^ 32
    → attrib < 4096
    → page_entry_remove_attrib e attrib ≡ e / 4096 * 4096 + bit_and (e % 4096) (4095 - attrib)
unfolding page_entry_remove_attrib
remove_attrib-value e attrib fits small =
    let q : e ≡ e / 4096 * 2 ^ 12 + e % 4096 = omega arith in
    let z : bit_not 32 attrib ≡ (2 ^ 20 - 1) * 2 ^ 12 + (4095 - attrib) = omega arith in
    let joined : bit_and (e / 4096 * 2 ^ 12 + e % 4096) ((2 ^ 20 - 1) * 2 ^ 12 + (4095 - attrib))
        ≡ bit_and (e / 4096) (2 ^ 20 - 1) * 2 ^ 12 + bit_and (e % 4096) (4095 - attrib) =
      bit_and-fields 12 (e / 4096) (e % 4096) (2 ^ 20 - 1) (4095 - attrib) (omega arith)
        (omega arith) in
    ap (λ t. bit_and t (bit_not 32 attrib)) q
    ∙ ap (λ t. bit_and (e / 4096 * 2 ^ 12 + e % 4096) t) z
    ∙ joined
    ∙ omega (arith, bit_and-mod 20 (e / 4096))

pub get_frame_addr-value : (e : ℕ) → e < 2 ^ 32 → get_frame_addr e ≡ e / 4096 * 4096
unfolding get_frame_addr
get_frame_addr-value e fits = omega (arith, bit_and-page e fits)

-- The tests read one bit each.
pub is_page_present-bit : (e : ℕ) → is_page_present e ≡ not (bit e 0 == 0)
unfolding is_page_present
is_page_present-bit e = ap not (bit_and-pow_test e 0)

pub is_swapped-bit : (e : ℕ) → is_swapped e ≡ not (bit e 9 == 0)
unfolding is_swapped
is_swapped-bit e = ap not (bit_and-pow_test e 9)

-- Mapping an entry to an aligned frame with flags below 4096 and PRESENT: the entry has 32 bits, the
-- frame, and is present.
pub mapped_entry :
    (e frame flags : ℕ)
    → frame < 2 ^ 32
    → frame % 4096 ≡ 0
    → flags < 4096
    → let e' = page_entry_add_attrib (page_entry_set_frame e frame) (bit_or flags 1) in
      (e' < 2 ^ 32) × (get_frame_addr e' ≡ frame) × (is_page_present e' ≡ true)
unfolding page_entry_add_attrib bit
mapped_entry e frame flags fits aligned small =
    let f = bit_or flags 1 in
    let f_small : f < 4096 = bit_or-lt 12 flags 1 small (omega arith) in
    let v = page_entry_set_frame e frame in
    let v_value = set_frame-value e frame aligned in
    let low : bit_or (v % 4096) f < 4096 = bit_or-lt 12 (v % 4096) f (omega arith) f_small in
    let value : bit_or v f ≡ frame + bit_or (v % 4096) f =
      add_attrib-value v f f_small ∙ omega (arith, v_value) in
    let all : bit_or v f < 2 ^ 32 = omega (arith, value, low) in
    (
      all,
      get_frame_addr-value (bit_or v f) all ∙ omega (arith, value, low),
      is_page_present-bit (bit_or v f) ∙ ground (arith, bit-bit_or v f 0, bit-bit_or flags 1 0),
    )

unaligned_frame :
    (e frame : ℕ) → bit_or (e % 4096) frame ≡ frame / 4096 * 4096 + bit_or (e % 4096) (frame % 4096)
unaligned_frame e frame =
    let q : frame ≡ frame / 4096 * 2 ^ 12 + frame % 4096 = omega arith in
    let z : e % 4096 ≡ 0 * 2 ^ 12 + e % 4096 = omega arith in
    let none_above : bit_or 0 (frame / 4096) ≡ frame / 4096 =
      bit_or_comm 0 (frame / 4096) ∙ bit_or-zero (frame / 4096) in
    ap (λ t. bit_or (e % 4096) t) q
    ∙ ap (λ t. bit_or t (frame / 4096 * 2 ^ 12 + frame % 4096)) z
    ∙ bit_or-fields 12 0 (e % 4096) (frame / 4096) (frame % 4096) (omega arith) (omega arith)
    ∙ omega (arith, none_above)

absent : (e : ℕ) → bit (page_entry_remove_attrib e 0x1) 0 ≡ 0
unfolding page_entry_remove_attrib bit
absent e = omega (arith, bit-bit_and e (bit_not 32 0x1) 0)

-- The changes that `vmm_swap_out_page` makes to an entry, with any disk slot: only the multiple of 4096 below the
-- slot's number stands in its frame field, and the page counts as present exactly where the number is
-- odd.
pub swapped_out_entry :
    (e slot : ℕ)
    → e < 2 ^ 32
    → slot < 2 ^ 32
    → let e' =
        page_entry_set_frame (page_entry_remove_attrib (page_entry_add_attrib e 0x200) 0x1) slot in
      (get_frame_addr e' ≡ slot / 4096 * 4096) × (is_page_present e' ≡ not (slot % 2 == 0))
unfolding page_entry_add_attrib page_entry_set_frame bit
swapped_out_entry e slot fits fits' =
    let e1 = bit_or e 0x200 in
    let e2 = page_entry_remove_attrib e1 0x1 in
    let low = bit_or (e2 % 4096) (slot % 4096) in
    let low_small : low < 4096 =
      bit_or-lt 12 (e2 % 4096) (slot % 4096) (omega arith) (omega arith) in
    let all : bit_or (e2 % 4096) slot < 2 ^ 32 =
      bit_or-lt 32 (e2 % 4096) slot (omega arith) fits' in
    let value : bit_or (e2 % 4096) slot ≡ slot / 4096 * 4096 + low = unaligned_frame e2 slot in
    let even : bit e2 0 ≡ 0 = omega (arith, absent e1) in
    rw (bit_and-offset e2) (
      get_frame_addr-value (bit_or (e2 % 4096) slot) all ∙ omega (arith, value, low_small),
      is_page_present-bit (bit_or (e2 % 4096) slot)
          ∙ ground (arith, bit-bit_or (e2 % 4096) slot 0, even),
    )
