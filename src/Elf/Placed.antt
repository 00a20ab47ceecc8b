-- ===== src/Elf/Placed.antt =====
-- Where `elf_copy_segment` copies the bytes of a segment to.
use kernel_smp.Base.{
  ℕ, zero, suc, ◌+◌, ◌-◌, ◌*◌, ◌/◌, ◌%◌, ◌^◌, ◌≤◌, ◌<◌, ◌≡◌, ◌≢◌, ◌⊎◌, inl, inr, refl, List, [],
  ◌∷◌, ltb, lt→ltb, ne→==, if◌then◌else◌, dec_lt, arith, u64, phys_to_virt,
}
use kernel_smp.Vmm.{TableMemory, vmm_virtual_to_physical}
use kernel_smp.Elf.{Copy, copy_loop, elf_copy_segment}

-- Byte `b` of the file's part of the segment is copied by the call `c`, to address `d`.
abbrev pub Places : Copy → ℕ → ℕ → ℕ → Type 0
Places c src b d = (c.src ≤ src + b) × (src + b < c.src + c.size) × (d + c.src ≡ c.dest + (src + b))

-- Some call of the list copies it.
abbrev pub PlacedIn : List Copy → ℕ → ℕ → ℕ → Type 0
PlacedIn [] src b d = ⊥
PlacedIn (c ∷ cs) src b d = Places c src b d ⊎ PlacedIn cs src b d

module _ (m : TableMemory) (cr3 vaddr src filesz : ℕ) (aligned : vaddr % 4096 ≡ 0)
    (low : vaddr + filesz < 2 ^ 64) (room : src + filesz < 2 ^ 64)
    (mapped : (p : ℕ) → p < filesz → vmm_virtual_to_physical m cr3 (vaddr + p) ≢ 0) where
  -- The frame of the page that byte `b` lies in.
  abbrev pub page_of : ℕ → ℕ
  page_of b = vmm_virtual_to_physical m cr3 (vaddr + b / 4096 * 4096)

  abbrev step : ℕ → ℕ
  step k = if ltb (filesz - k) 4096 then filesz - k else 4096

  abbrev call : ℕ → Copy
  call k = record {
    dest = phys_to_virt (vmm_virtual_to_physical m cr3 (vaddr + k));
    src = src + k;
    size = step k;
  }

  -- A round that starts at a page.
  copy_round :
      (n k : ℕ)
      → k % 4096 ≡ 0
      → k < filesz
      → copy_loop (suc n) m cr3 vaddr src filesz k
        ≡ call k ∷ copy_loop n m cr3 vaddr src filesz (k + step k)
  unfolding copy_loop
  copy_round n k start inside =
      let curr : u64 (vaddr + k) ≡ vaddr + k = omega arith in
      let from : u64 (src + k) ≡ src + k = omega arith in
      let off : (vaddr + k) % 4096 ≡ 0 = omega arith in
      let f = vmm_virtual_to_physical m cr3 (vaddr + k) in
      let dest : u64 (phys_to_virt f + 0) ≡ phys_to_virt f = omega arith in
      rw (curr, off, from, dest, lt→ltb k filesz inside, ne→== f 0 (mapped k inside))

  copy_page :
      (n k b : ℕ)
      → k % 4096 ≡ 0
      → k ≤ b
      → b < filesz
      → filesz ≤ n + k
      → PlacedIn (copy_loop n m cr3 vaddr src filesz k) src b (phys_to_virt (page_of b) + b % 4096)
  copy_page zero k b start below inside fuel = absurd (omega arith)
  copy_page (suc n) k b start below inside fuel =
      rw (copy_round n k start (omega arith)) (elim (dec_lt b (k + step k)) [
        | yes here ↦
            let page : b / 4096 * 4096 ≡ k = ground arith in
            let rest : b % 4096 + k ≡ b = omega (arith, page) in
            inl (omega arith, omega (arith, here), rw page (omega (arith, rest)))
        | no later ↦
            inr (copy_page n (k + step k) b (ground arith) (ground arith) inside (ground arith))
      ])

-- A segment that starts at a page, all of whose pages are mapped: every byte of its part of the file
-- is copied, to its place in the frame of its page, in the direct map.
pub elf_copy_segment_lem :
    (m : TableMemory) (cr3 vaddr src filesz b : ℕ)
    → vaddr % 4096 ≡ 0
    → vaddr + filesz < 2 ^ 64
    → src + filesz < 2 ^ 64
    → ((p : ℕ) → p < filesz → vmm_virtual_to_physical m cr3 (vaddr + p) ≢ 0)
    → b < filesz
    → PlacedIn
        (elf_copy_segment m cr3 vaddr src filesz)
        src
        b
        (phys_to_virt (vmm_virtual_to_physical m cr3 (vaddr + b / 4096 * 4096)) + b % 4096)
unfolding elf_copy_segment
elf_copy_segment_lem m cr3 vaddr src filesz b aligned low room mapped inside =
    copy_page m cr3 vaddr src filesz aligned low room mapped filesz 0 b refl (omega arith) inside
      (omega arith)
