-- ===== src/Gdt.antt =====
-- gdt.c and gdt.h: the segment descriptors. The table is a function from its indices; `none` is the
-- failed assertion. `load_gdt` is inline assembly and not modelled.
pub mod Decode
use my_os.Base.{
  ℕ, ◌+◌, ◌-◌, ◌*◌, ◌/◌, ◌%◌, ◌^◌, bit_and, bit_or, Option, none, some, ltb, ◌==◌, if◌then◌else◌,
}
use my_os.Base.Masks.{update}

pub record GdtEntry : Type 0 where
  pub limit_low : ℕ
  pub base_low : ℕ
  pub base_mid : ℕ
  pub access : ℕ
  pub granularity : ℕ
  pub base_high : ℕ

pub record GdtPtr : Type 0 where
  pub limit : ℕ
  pub base : ℕ

abbrev pub gdt_entries : ℕ
gdt_entries = 6

abbrev pub max_limit : ℕ
max_limit = 0xFFFFFFFF

abbrev pub kernel_code_selector : ℕ
kernel_code_selector = 0x10

abbrev pub kernel_data_selector : ℕ
kernel_data_selector = 0x18

abbrev pub user_code_selector : ℕ
user_code_selector = 0x20

abbrev pub user_data_selector : ℕ
user_data_selector = 0x28

unfoldable pub gdt_limit_low : ℕ → ℕ
gdt_limit_low limit = bit_and limit 0xFFFF

unfoldable pub gdt_limit_high : ℕ → ℕ
gdt_limit_high limit = bit_and (limit / 2 ^ 16) 0x0F

unfoldable pub gdt_base_low : ℕ → ℕ
gdt_base_low base = bit_and base 0xFFFF

unfoldable pub gdt_base_mid : ℕ → ℕ
gdt_base_mid base = bit_and (base / 2 ^ 16) 0xFF

unfoldable pub gdt_base_high : ℕ → ℕ
gdt_base_high base = bit_and (base / 2 ^ 24) 0xFF

-- The result is stored in a byte.
unfoldable pub gdt_combine_high_limit_and_flags : ℕ → ℕ → ℕ
gdt_combine_high_limit_and_flags high_limit flags = bit_or high_limit (flags * 2 ^ 4) % 256

unfoldable pub make_entry : (base limit access flags : ℕ) → GdtEntry
unfolding gdt_limit_low gdt_limit_high gdt_base_low gdt_base_mid gdt_base_high
    gdt_combine_high_limit_and_flags
make_entry base limit access flags = record {
  limit_low = gdt_limit_low limit;
  base_low = gdt_base_low base;
  base_mid = gdt_base_mid base;
  access = access;
  granularity = gdt_combine_high_limit_and_flags (gdt_limit_high limit) flags;
  base_high = gdt_base_high base;
}

unfoldable pub set_gdt_entry :
    (num base limit access flags : ℕ) → (ℕ → GdtEntry) → Option (ℕ → GdtEntry)
unfolding make_entry
set_gdt_entry num base limit access flags gdt =
    if ltb num gdt_entries then some (update gdt num (make_entry base limit access flags)) else none

infixl 5 ◌>>=◌
abbrev ◌>>=◌ :
    Option (ℕ → GdtEntry) → ((ℕ → GdtEntry) → Option (ℕ → GdtEntry)) → Option (ℕ → GdtEntry)
none >>= f = none
some gdt >>= f = f gdt

unfoldable pub setup_gdt_entries : (ℕ → GdtEntry) → Option (ℕ → GdtEntry)
unfolding set_gdt_entry
setup_gdt_entries gdt = do
  gdt ← set_gdt_entry 0 0 0 0 0 gdt
  gdt ← set_gdt_entry 2 0 max_limit 0x9A 0xC gdt
  gdt ← set_gdt_entry 3 0 max_limit 0x92 0xC gdt
  gdt ← set_gdt_entry 4 0 max_limit 0xFA 0xC gdt
  set_gdt_entry 5 0 max_limit 0xF2 0xC gdt

-- An entry has 8 bytes; `address` is where the table stands.
unfoldable pub init_gdt_ptr : (address : ℕ) → GdtPtr
init_gdt_ptr address = record { limit = gdt_entries * 8 - 1; base = address }
