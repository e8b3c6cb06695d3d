-- ===== src/Ports/Pci.antt =====
-- drivers/pci.c and the address of drivers/pci.h, over a machine with ports.
use my_os.Base.{ℕ, ◌*◌, ◌^◌, bit_and, bit_or}
use my_os.Io.{Ports}

abbrev pub pci_config_address_port : ℕ
pci_config_address_port = 0xCF8

abbrev pub pci_config_data_port : ℕ
pci_config_data_port = 0xCFC

unfoldable pub pci_config_address : (bus device function reg : ℕ) → ℕ
pci_config_address bus device function reg =
    bit_or (bit_or (bit_or (bit_or (2 ^ 31) (bus * 2 ^ 16)) (device * 2 ^ 11)) (function * 2 ^ 8))
      (bit_and reg 0xFC)

module _ {S : Type 0} (io : Ports S) where
  unfoldable pub pci_config_read : (bus device function reg : ℕ) → S → ℕ × S
  unfolding pci_config_address
  pci_config_read bus device function reg s =
      io.in32 pci_config_data_port
        (io.out32 pci_config_address_port (pci_config_address bus device function reg) s)

  unfoldable pub pci_config_write : (bus device function reg value : ℕ) → S → S
  unfolding pci_config_address
  pci_config_write bus device function reg value s =
      io.out32 pci_config_data_port value
        (io.out32 pci_config_address_port (pci_config_address bus device function reg) s)
