-- ===== src/Kernel.antt =====
-- What the allocator relies on of the system calls: `break` is the program break of sbrk(2), brk(2).
use linux_dynamic_memory_all.Prelude.{ℕ, ◌+◌, ◌≡◌, ◌≤◌, true, false, none, some}
use linux_dynamic_memory_all.Memory.{Ptr, Os, size_max}

pub record IsOs {K : Type 0} (os : Os K) (break : K → Ptr) : Type 0 where
  -- sbrk(0) finds the current break.
  pub sbrk_zero : (k : K) → os.sbrk 0 k ≡ (some (break k), k)
  -- The break is an address.
  pub break_le : (k : K) → break k ≤ size_max
  -- On success sbrk returns the previous break, and the break has grown by the increment.
  pub sbrk_grows :
      (n p : ℕ) (k k' : K) → os.sbrk n k ≡ (some p, k') → (p ≡ break k) × (break k' ≡ break k + n)
  pub sbrk_fails : (n : ℕ) (k k' : K) → os.sbrk n k ≡ (none, k') → break k' ≡ break k
  -- brk sets the break, or leaves it.
  pub brk_sets : (p : Ptr) (k k' : K) → os.brk p k ≡ (true, k') → break k' ≡ p
  pub brk_fails : (p : Ptr) (k k' : K) → os.brk p k ≡ (false, k') → break k' ≡ break k
  -- Mappings leave the break alone.
  pub mmap_keeps : (n : ℕ) (k : K) → break (os.mmap n k).1 ≡ break k
  pub munmap_keeps : (p n : ℕ) (k : K) → break (os.munmap p n k).1 ≡ break k
  pub mremap_keeps : (p n m : ℕ) (k : K) → break (os.mremap p n m k).1 ≡ break k
