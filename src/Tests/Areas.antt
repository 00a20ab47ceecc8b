-- ===== src/Tests/Areas.antt =====
-- The theorems of the areas at a task with two of them.
use kernel_smp.Base.{ℕ, ◌≡◌, inl, inr, refl, some, ◌==◌, if◌then◌else◌, arith}
use kernel_smp.Vma.{Areas, red, black, vma_find}
use kernel_smp.Vma.Find.{Ordered, Answer, vma_find_lem}

-- The root at 64 holds the pages from 0x400000 to 0x402000, its right child at 128 those from
-- 0x500000 to 0x501000.
abbrev two : Areas
two = record {
  area = λ p.
      if p == 128
      then record {
        vm_start = 0x500000;
        vm_end = 0x501000;
        vm_flags = 3;
        left = 0;
        right = 0;
        parent = 64;
        color = red;
        next = 64;
        prev = 0;
      }
      else record {
        vm_start = 0x400000;
        vm_end = 0x402000;
        vm_flags = 3;
        left = 0;
        right = 128;
        parent = 0;
        color = black;
        next = 0;
        prev = 128;
      };
  tree_root = 64;
  list_head = 128;
  count = 2;
}

two-Ordered : Ordered two 2 0 0x600000 64
unfolding Ordered
two-Ordered = inr (
  λ e. absurd (omega (arith, e)),
  omega arith,
  omega arith,
  omega arith,
  inl refl,
  inr (λ e. absurd (omega (arith, e)), omega arith, omega arith, omega arith, refl, refl),
)

vma_find_lem_example : (p : ℕ) × (vma_find 3 two 0x500010 ≡ some p) × Answer two 0x500010 2 64 p
vma_find_lem_example = vma_find_lem two 0x500010 2 0 0x600000 two-Ordered
