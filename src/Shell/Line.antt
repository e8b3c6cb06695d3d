-- ===== src/Shell/Line.antt =====
-- The line that the shell reads.
use my_os.Base.{ℕ, ◌≤◌, ◌<◌, ◌≡◌, arith, some, List, [], ◌∷◌, ◌==◌, Bool-cases, inl, inr, ◌∙◌}
use my_os.Base.Masks.{update}
use my_os.Shell.{take_char, read_line}

-- From an index below 128, a line that is read leaves a NUL within its 128 bytes and changes no byte
-- past them, however many characters are typed.
pub read_line-in_bounds :
    (typed : List ℕ) (index : ℕ) (input : ℕ → ℕ) (left : List ℕ) (line : ℕ → ℕ)
    → index < 128
    → read_line typed index input ≡ some (left, line)
    → ((i : ℕ) × (i < 128) × (line i ≡ 0)) × ((k : ℕ) → 128 ≤ k → line k ≡ input k)
unfolding read_line take_char
read_line-in_bounds [] index input left line small e = absurd (ground arith)
read_line-in_bounds (c ∷ typed) index input left line small e =
    let t = take_char c index input in
    let below : t.0 < 128 = ground arith in
    let apart : (k : ℕ) → 128 ≤ k → t.1 k ≡ input k = λ k h. ground arith in
    elim (Bool-cases (c == b'\n')) [
      | inl enter ↦
          let same : line ≡ update input index 0 = ground arith in
          rw same ((index, small, ground arith), λ k h. ground arith)
      | inr other ↦
          let ih = read_line-in_bounds typed t.0 t.1 left line below (ground arith) in
          (ih.0, λ k h. ih.1 k h ∙ apart k h)
    ]
