-- ===== src/Vmm/Map/Unmap.antt =====
-- What unmapping a page means for the processor's translation.
use my_os.Pmm.{Pmm}
use my_os.Vmm.State.{Vmm}
