-- ===== src/Pmm/Owners.antt =====
-- Callers of memory/pmm.c: any sequence of allocations, and of frees of frames that were handed out.
use my_os.Base.{ℕ, ◌/◌, ◌%◌, ◌^◌, ◌<◌, ◌≡◌, ◌≢◌, inl, inr, Bool, true, false, some, arith, ap}
use mathlib.Core.Path.{subst}
use my_os.Pmm.{Pmm, no_frame_available, pmm_alloc_frame, pmm_free_frame}
use my_os.Pmm.Frames.{used, IsValid}
use my_os.Pmm.Alloc.{Allocated, alloc_frame-Allocated}
use my_os.Pmm.Free.{Released, free_frame-Released}
use my_os.Base.Masks.{update}

-- The allocator, and the addresses that callers hold.
pub record System : Type 0 where
  pub pmm : Pmm
  pub held : ℕ → Bool

pub data Step : System → System → Type 0 where
  alloc :
      (y : System)
      → (pmm_alloc_frame y.pmm).0 ≢ no_frame_available
      → Step y (record {
        pmm = (pmm_alloc_frame y.pmm).1;
        held = update y.held (pmm_alloc_frame y.pmm).0 true;
      })
  refused :
      (y : System)
      → (pmm_alloc_frame y.pmm).0 ≡ no_frame_available
      → Step y (record y { pmm = (pmm_alloc_frame y.pmm).1 })
  free :
      (y : System) (a : ℕ) (s' : Pmm)
      → y.held a ≡ true
      → pmm_free_frame y.pmm a ≡ some s'
      → Step y (record { pmm = s'; held = update y.held a false })

pub data Reach (x : System) : System → Type 0 where
  here : Reach x x
  next : {y z : System} → Reach x y → Step y z → Reach x z

-- Every held address is that of a frame in use.
record IsOwned (y : System) : Type 0 where
  valid : IsValid y.pmm
  aligned : (a : ℕ) → y.held a ≡ true → a % 4096 ≡ 0
  small : (a : ℕ) → y.held a ≡ true → a < 2 ^ 32
  in_use : (a : ℕ) → y.held a ≡ true → used y.pmm (a / 4096) ≡ 1

Allocated-IsOwned :
    {y : System} (o : IsOwned y) {a : ℕ} {s' : Pmm}
    → Allocated y.pmm a s'
    → IsOwned (record { pmm = s'; held = update y.held a true })
Allocated-IsOwned {y} o {a} got = record {
  valid = got.valid;
  aligned = λ b h. ground (arith, o.aligned b, got.aligned);
  small = λ b h. ground (arith, o.small b, got.aligned, got.in_range);
  in_use = λ b h. ground (arith, o.in_use b, got.marks (b / 4096));
}

kept-IsOwned :
    {y : System} (o : IsOwned y) {a : ℕ} {s' : Pmm}
    → Allocated y.pmm a s'
    → IsOwned (record y { pmm = s' })
kept-IsOwned {y} o {a} got = record {
  valid = got.valid;
  aligned = o.aligned;
  small = o.small;
  in_use = λ b h. ground (arith, o.in_use b, got.marks (b / 4096));
}

Released-IsOwned :
    {y : System} (o : IsOwned y) {a : ℕ} {s' : Pmm}
    → a % 4096 ≡ 0
    → Released y.pmm a s'
    → IsOwned (record { pmm = s'; held = update y.held a false })
Released-IsOwned {y} o {a} al got = record {
  valid = got.valid;
  aligned = λ b h. ground (arith, o.aligned b);
  small = λ b h. ground (arith, o.small b);
  in_use = λ b h. ground (arith, o.in_use b, o.aligned b, got.marks (b / 4096));
}

Step-IsOwned : {y z : System} → Step y z → IsOwned y → IsOwned z
Step-IsOwned (alloc y ne) o = elim (alloc_frame-Allocated o.valid) [
  | inl got ↦ Allocated-IsOwned o got
  | inr (e, _) ↦ absurd (ne (ap (λ r. r.0) e))
]
Step-IsOwned (refused y e) o = elim (alloc_frame-Allocated o.valid) [
  | inl got ↦ kept-IsOwned o got
  | inr (e', _) ↦ rw e' o
]
Step-IsOwned (free y a s' h e) o = elim (free_frame-Released o.valid a (o.small a h)) [
  | inl (al, t, e', got) ↦
      let same : t ≡ s' = ground arith in
      Released-IsOwned o al (subst (λ (u : Pmm). Released y.pmm a u) same got)
  | inr (odd, _) ↦ absurd (omega (arith, o.aligned a h))
]

Reach-IsOwned : {x y : System} → IsOwned x → Reach x y → IsOwned y
Reach-IsOwned o here = o
Reach-IsOwned o (next r st) = Step-IsOwned st (Reach-IsOwned o r)

-- Start from a valid allocator of which nothing is held. After any sequence of allocations, of
-- refused allocations and of frees of held addresses, the address that `pmm_alloc_frame` returns
-- next, unless it is PMM_NO_FRAME_AVAILABLE, is held by nobody.
pub alloc_frame-ne-held :
    {x y : System}
    → IsValid x.pmm
    → ((a : ℕ) → x.held a ≡ false)
    → Reach x y
    → (pmm_alloc_frame y.pmm).0 ≢ no_frame_available
    → y.held (pmm_alloc_frame y.pmm).0 ≡ false
alloc_frame-ne-held {x} {y} v nothing r ne =
    let o : IsOwned y =
      Reach-IsOwned
        (record {
          valid = v;
          aligned = λ a h. ground (arith, nothing a);
          small = λ a h. ground (arith, nothing a);
          in_use = λ a h. ground (arith, nothing a);
        })
        r in
    elim (alloc_frame-Allocated o.valid) [
      | inl got ↦ ground (arith, got.was_free, o.in_use (pmm_alloc_frame y.pmm).0)
      | inr (e, _) ↦ absurd (ne (ap (λ p. p.0) e))
    ]
