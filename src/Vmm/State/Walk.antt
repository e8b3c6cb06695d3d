-- ===== src/Vmm/State/Walk.antt =====
-- The page tables seen through the last entry of the directory, which leads to the directory itself.
use my_os.Base.{
  ℕ, ◌+◌, ◌*◌, ◌/◌, ◌%◌, ◌^◌, ◌<◌, ◌≡◌, refl, true, false, ◌==◌, arith, if◌then◌else◌, Bool-cases,
  inl, inr,
}
use my_os.Base.Masks.{update}
use my_os.Base.Align.{bit_and-offset, bit_and-mod, bit_or-join}
use my_os.Pmm.{word}
use my_os.Vmm.Entries.{
  get_frame_addr, get_directory_index, get_table_index, get_page_table_vir_addr, get_frame_offset,
}
use my_os.Vmm.Entries.Flags.{get_frame_addr-value}
use my_os.Vmm.State.{Vmm, walk, place, get_page_table_addr}

pub get_table_index-value : (va : ℕ) → get_table_index va ≡ va / 4096 % 1024
unfolding get_table_index
get_table_index-value va = omega (arith, bit_and-mod 10 (va / 4096))

pub get_frame_offset-value : (va : ℕ) → get_frame_offset va ≡ va % 4096
unfolding get_frame_offset
get_frame_offset-value va = omega (arith, bit_and-offset (va % 2 ^ 16))

pub get_directory_index-value : (va : ℕ) → get_directory_index va ≡ va / 4194304
unfolding get_directory_index
get_directory_index-value va = refl

get_page_table_vir_addr-value :
    (i : ℕ) → i < 1024 → get_page_table_vir_addr i ≡ 1023 * 4194304 + i * 4096
unfolding get_page_table_vir_addr
get_page_table_vir_addr-value i h = omega (arith, bit_or-join 22 1023 (i * 4096) (omega arith))

-- Through the window at 0xFFC00000, entry `j` of table `i` is the word of the table's frame that
-- belongs to it.
pub walk-window :
    (m : ℕ → ℕ) (cr3 i j : ℕ)
    → i < 1024
    → j < 1024
    → get_frame_addr (m (cr3 + 4092)) ≡ cr3
    → walk m cr3 (word (get_page_table_vir_addr i + 4 * j))
      ≡ get_frame_addr (m (cr3 + 4 * i)) + 4 * j
unfolding walk
walk-window m cr3 i j hi hj window =
    let va = word (get_page_table_vir_addr i + 4 * j) in
    let at : va ≡ 1023 * 4194304 + i * 4096 + 4 * j =
      omega (arith, get_page_table_vir_addr-value i hi) in
    let d : get_directory_index va ≡ 1023 = omega (arith, at, get_directory_index-value va) in
    let t : get_table_index va ≡ i = omega (arith, at, get_table_index-value va) in
    let o : get_frame_offset va ≡ 4 * j = omega (arith, at, get_frame_offset-value va) in
    let e : cr3 + 4 * 1023 ≡ cr3 + 4092 = omega arith in rw (d, t, o, e, window) refl

-- Memory holds words of 32 bits, and with paging on the last entry of the directory leads to itself.
pub record IsSelfMapped {S : Type 0} (s : Vmm S) : Type 0 where
  pub fits : (a : ℕ) → s.memory a < 2 ^ 32
  pub frame : s.cr3 % 4096 ≡ 0
  pub window : s.paging_enabled ≡ true → get_frame_addr (s.memory (s.cr3 + 4092)) ≡ s.cr3

-- Directory `dir` is besides the one that the processor uses: its entries are reached through `dir`.
pub record IsCurrent {S : Type 0} (s : Vmm S) (dir : ℕ) : Type 0 where
  pub real : (dir == 0) ≡ false
  pub reach : (i : ℕ) → i < 1024 → place s (word (dir + 4 * i)) ≡ s.cr3 + 4 * i
  pub self : IsSelfMapped s

-- Paging on or off, the kernel reaches entry `j` of table `i` of the directory in use.
pub place-table :
    {S : Type 0}
    → (s : Vmm S) (i j : ℕ) → IsSelfMapped s
    → i < 1024
    → j < 1024
    → place s (word (get_page_table_addr s.paging_enabled (s.memory (s.cr3 + 4 * i)) i + 4 * j))
      ≡ get_frame_addr (s.memory (s.cr3 + 4 * i)) + 4 * j
unfolding place get_page_table_addr
place-table s i j c hi hj = elim (Bool-cases s.paging_enabled) [
  | inl on ↦ rw on (walk-window s.memory s.cr3 i j hi hj (c.window on))
  | inr off ↦
      let e = s.memory (s.cr3 + 4 * i) in
      rw off
        (omega (arith, get_frame_addr-value e (c.fits (s.cr3 + 4 * i)), c.fits (s.cr3 + 4 * i)))
]

-- An entry of table `T` is no entry of another aligned page.
pub apart_pages :
    (t f j k : ℕ)
    → t % 4096 ≡ 0
    → f % 4096 ≡ 0
    → (t == f) ≡ false
    → j < 1024
    → k < 1024
    → (t + 4 * j == f + 4 * k) ≡ false
apart_pages t f j k ht hf d hj hk = ground arith

-- Where the table of `va` has its entry for `va`, in memory.
abbrev pub entry_place : (m : ℕ → ℕ) (cr3 va : ℕ) → ℕ
entry_place m cr3 va = get_frame_addr (m (cr3 + 4 * (va / 4194304))) + 4 * (va / 4096 % 1024)

-- Translation after one entry of a table that is not the directory has changed: the addresses that have
-- that entry, whatever entry of the directory leads there, get the new frame.
pub walk-update :
    (m : ℕ → ℕ) (cr3 va v other : ℕ)
    → ((a : ℕ) → m a < 2 ^ 32)
    → cr3 % 4096 ≡ 0
    → va < 2 ^ 32
    → other < 2 ^ 32
    → (get_frame_addr (m (cr3 + 4 * (va / 4194304))) == cr3) ≡ false
    → walk (update m (entry_place m cr3 va) v) cr3 other ≡ (
        if entry_place m cr3 other == entry_place m cr3 va
        then get_frame_addr v + other % 4096
        else walk m cr3 other)
unfolding walk
walk-update m cr3 va v other fits frame hv ho off =
    let i = va / 4194304 in
    let j = va / 4096 % 1024 in
    let d = other / 4194304 in
    let k = other / 4096 % 1024 in
    let t = get_frame_addr (m (cr3 + 4 * i)) in
    let f = get_frame_addr (m (cr3 + 4 * d)) in
    let ht : t % 4096 ≡ 0 =
      omega (arith, get_frame_addr-value (m (cr3 + 4 * i)) (fits (cr3 + 4 * i))) in
    let dir : (t + 4 * j == cr3 + 4 * d) ≡ false =
      apart_pages t cr3 j d ht frame off (omega arith) (omega arith) in
    rw
      (
        get_directory_index-value other,
        get_table_index-value other,
        get_frame_offset-value other,
        dir,
      )
      (elim (Bool-cases (f + 4 * k == t + 4 * j)) [
        | inl same ↦
            let q : (t + 4 * j == f + 4 * k) ≡ true = ground (arith, same) in rw (same, q) refl
        | inr other_entry ↦
            let q : (t + 4 * j == f + 4 * k) ≡ false = ground (arith, other_entry) in
            rw (other_entry, q) refl
      ])
