-- ===== src/Gdt/Decode.antt =====
-- What the processor reads back from a descriptor.
use my_os.Base.{
  ℕ, ◌+◌, ◌-◌, ◌*◌, ◌/◌, ◌%◌, ◌^◌, ◌<◌, ◌≡◌, refl, bit_and, bit_or, none, some, arith, ltb, ◌==◌,
  ◌⊎◌, inl, inr, ◌∙◌, ap, false, Bool-cases, ltb→lt,
}
use my_os.Base.Masks.{update}
use my_os.Base.Align.{bit_and-mod, bit_or-join}
use my_os.Gdt.{
  kernel_code_selector, kernel_data_selector, user_code_selector, user_data_selector, max_limit,
  GdtEntry, gdt_entries, gdt_combine_high_limit_and_flags, make_entry, set_gdt_entry,
  setup_gdt_entries,
}
use my_os.Base.Bits.{bit_or_comm}

-- The base address, the limit and the flags, put together from their fields.
pub base_of : GdtEntry → ℕ
base_of e = e.base_low + e.base_mid * 2 ^ 16 + e.base_high * 2 ^ 24

pub limit_of : GdtEntry → ℕ
limit_of e = e.limit_low + e.granularity % 16 * 2 ^ 16

pub flags_of : GdtEntry → ℕ
flags_of e = e.granularity / 16

joined :
    (high flags : ℕ)
    → high < 16
    → gdt_combine_high_limit_and_flags high flags ≡ high + flags % 16 * 16
unfolding gdt_combine_high_limit_and_flags
joined high flags h =
    let e : bit_or high (flags * 2 ^ 4) ≡ flags * 2 ^ 4 + high =
      bit_or_comm high (flags * 2 ^ 4) ∙ bit_or-join 4 flags high h in
    rw e (omega arith)

make_entry-base :
    (base limit access flags : ℕ)
    → base < 2 ^ 32
    → base_of (make_entry base limit access flags) ≡ base
unfolding base_of make_entry
make_entry-base base limit access flags h =
    omega (arith, bit_and-mod 16 base, bit_and-mod 8 (base / 2 ^ 16), bit_and-mod 8 (base / 2 ^ 24))

make_entry-limit :
    (base limit access flags : ℕ)
    → (limit_of (make_entry base limit access flags) ≡ limit % 2 ^ 20)
      × (flags_of (make_entry base limit access flags) ≡ flags % 16)
unfolding limit_of flags_of make_entry
make_entry-limit base limit access flags =
    let high : bit_and (limit / 2 ^ 16) 0x0F ≡ limit / 2 ^ 16 % 16 =
      bit_and-mod 4 (limit / 2 ^ 16) in
    let j = joined (bit_and (limit / 2 ^ 16) 0x0F) flags (omega (arith, high)) in
    (omega (arith, high, j, bit_and-mod 16 limit), omega (arith, high, j))

-- `set_gdt_entry` stores a descriptor from which the processor reads the same base, the low 20 bits
-- of the limit, the low 4 bits of the flags and the access byte, and leaves the other entries as
-- they are; an index past the table fails the assertion.
pub set_gdt_entry-stores :
    (num base limit access flags : ℕ) (gdt : ℕ → GdtEntry)
    → base < 2 ^ 32
    → ((num < 6)
        × (gdt' : ℕ → GdtEntry) × (set_gdt_entry num base limit access flags gdt ≡ some gdt')
        × (base_of (gdt' num) ≡ base)
        × (limit_of (gdt' num) ≡ limit % 2 ^ 20)
        × (flags_of (gdt' num) ≡ flags % 16)
        × ((gdt' num).access ≡ access)
        × ((k : ℕ) → (num == k) ≡ false → gdt' k ≡ gdt k))
      ⊎ ((6 - num ≡ 0) × (set_gdt_entry num base limit access flags gdt ≡ none))
unfolding set_gdt_entry
set_gdt_entry-stores num base limit access flags gdt h = elim (Bool-cases (ltb num gdt_entries)) [
  | inl lt ↦
      let e : GdtEntry = make_entry base limit access flags in
      let stored : update gdt num e num ≡ e = ground arith in
      inl (
        ltb→lt num 6 lt,
        update gdt num e,
        ground arith,
        ap base_of stored ∙ make_entry-base base limit access flags h,
        ap limit_of stored ∙ (make_entry-limit base limit access flags).0,
        ap flags_of stored ∙ (make_entry-limit base limit access flags).1,
        ap (λ (d : GdtEntry). d.access) stored,
        λ k ne. ground arith,
      )
  | inr ge ↦ inr (ground arith, ground arith)
]

-- A flat segment: base 0, the largest limit, counted in pages, with 32-bit code or data.
pub record IsFlat (e : GdtEntry) (access : ℕ) : Type 0 where
  pub base : base_of e ≡ 0
  pub limit : limit_of e ≡ 0xFFFFF
  pub flags : flags_of e ≡ 0xC
  pub rights : e.access ≡ access

-- `setup_gdt_entries` succeeds, whatever the table held: the selectors of kernel code and data and
-- of user code and data name flat segments with the access bytes of their kind, selector 0 the null
-- descriptor, and the entry at index 1 stays as it was.
pub setup_gdt_entries-IsFlat :
    (gdt : ℕ → GdtEntry)
    → (gdt' : ℕ → GdtEntry) × (setup_gdt_entries gdt ≡ some gdt')
      × IsFlat (gdt' (kernel_code_selector / 8)) 0x9A
      × IsFlat (gdt' (kernel_data_selector / 8)) 0x92
      × IsFlat (gdt' (user_code_selector / 8)) 0xFA
      × IsFlat (gdt' (user_data_selector / 8)) 0xF2
      × ((gdt' 0).access ≡ 0)
      × (gdt' 1 ≡ gdt 1)
unfolding setup_gdt_entries base_of limit_of flags_of
setup_gdt_entries-IsFlat gdt = (
  update
      (update
        (update (update (update gdt 0 (make_entry 0 0 0 0)) 2 (make_entry 0 max_limit 0x9A 0xC)) 3
          (make_entry 0 max_limit 0x92 0xC))
        4 (make_entry 0 max_limit 0xFA 0xC))
      5 (make_entry 0 max_limit 0xF2 0xC),
  refl,
  record { base = refl; limit = refl; flags = refl; rights = refl },
  record { base = refl; limit = refl; flags = refl; rights = refl },
  record { base = refl; limit = refl; flags = refl; rights = refl },
  record { base = refl; limit = refl; flags = refl; rights = refl },
  refl,
  refl,
)
