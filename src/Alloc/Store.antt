-- ===== src/Alloc/Store.antt =====
-- What the allocator of src/allocator/allocator.c is for: each block a client holds is an array of
-- bytes of its own. The abstract store maps a block to its array; the calls refine its changes.
use linux_dynamic_memory_all.Prelude.{
  ℕ, ◌+◌, ◌*◌, ◌≡◌, ◌<◌, ◌⊎◌, true, Option, none, some, List, arith,
}
use linux_dynamic_memory_all.Prelude.Lists.{has}
use linux_dynamic_memory_all.Memory.{
  Ptr, null, header_size, mmap_threshold, State, Os, Cmd, update, pure, ◌>>◌,
}
use linux_dynamic_memory_all.Alloc.{total_size_of}
use linux_dynamic_memory_all.Alloc.Malloc.{my_malloc}
use linux_dynamic_memory_all.Alloc.Free.{my_free}
use linux_dynamic_memory_all.Alloc.Realloc.{my_calloc, my_realloc, lesser}
use linux_dynamic_memory_all.Alloc.Inv.{IsHeap}

-- The length of the array and its bytes.
pub record Array : Type 0 where
  pub len : ℕ
  pub data_at : ℕ → ℕ

abbrev pub Store : Type 0
Store = Ptr → Option Array

-- What a client does with the memory; a block is named by the address of its header.
pub data Op : Type 0 where
  ask_malloc : (size : ℕ) → Op
  ask_calloc : (nmemb size : ℕ) → Op
  ask_realloc : (x : Ptr) → (size : ℕ) → Op
  ask_free : (x : Ptr) → Op
  ask_write : (x : Ptr) → (i v : ℕ) → Op

-- The changes of the store that an operation may make, with the pointer it returns.
pub data Change (a : Store) : Op → Ptr → Store → Type 0 where
  no_malloc : {size : ℕ} → Change a (ask_malloc size) null a
  malloced :
      {size : ℕ} (x : Ptr) (d : ℕ → ℕ)
      → a x ≡ none
      → Change a
          (ask_malloc size)
          (x + header_size)
          (update a x (some (record { len = size; data_at = d })))
  no_calloc : {nmemb size : ℕ} → Change a (ask_calloc nmemb size) null a
  calloced :
      {nmemb size : ℕ} (x : Ptr) (d : ℕ → ℕ)
      → a x ≡ none
      → ((i : ℕ) → i < nmemb * size → d i ≡ 0)
      → Change a
          (ask_calloc nmemb size)
          (x + header_size)
          (update a x (some (record { len = nmemb * size; data_at = d })))
  no_realloc : {x size : ℕ} → Change a (ask_realloc x size) null a
  realloced :
      {x size : ℕ} (b : Array) (y : Ptr) (d : ℕ → ℕ)
      → a x ≡ some b
      → (y ≡ x) ⊎ (a y ≡ none)
      → ((i : ℕ) → i < lesser b.len size → d i ≡ b.data_at i)
      → Change a
          (ask_realloc x size)
          (y + header_size)
          (update (update a x none) y (some (record { len = size; data_at = d })))
  freed : {x : Ptr} → Change a (ask_free x) null (update a x none)
  written :
      {x i v : ℕ} (b : Array)
      → a x ≡ some b
      → Change a
          (ask_write x i v)
          null
          (update a x (some (record { len = b.len; data_at = update b.data_at i v })))

-- The client names blocks that it holds, writes within them, and asks for sizes above 0 whose blocks
-- are below MMAP_THRESHOLD.
abbrev pub IsAllowed : Store → Op → Type 0
IsAllowed a (ask_malloc size) = (0 < size) × (total_size_of size < mmap_threshold)
IsAllowed a (ask_calloc nmemb size) =
    (0 < nmemb * size) × (total_size_of (nmemb * size) < mmap_threshold)
IsAllowed a (ask_realloc x size) =
    (b : Array) × (a x ≡ some b) × (0 < size) × (total_size_of size < mmap_threshold)
IsAllowed a (ask_free x) = (b : Array) × (a x ≡ some b)
IsAllowed a (ask_write x i v) = (b : Array) × (a x ≡ some b) × (i < b.len)

module _ {K : Type 0} (os : Os K) where
  -- The calls, and a client's write to a payload.
  unfoldable pub perform : ℕ → Op → Cmd K Ptr
  perform fuel (ask_malloc size) = my_malloc os fuel size
  perform fuel (ask_calloc nmemb size) = my_calloc os fuel nmemb size
  perform fuel (ask_realloc x size) = my_realloc os fuel (x + header_size) size
  perform fuel (ask_free x) = my_free os (x + header_size) >> pure null
  perform fuel (ask_write x i v) =
      λ s. pure null (record s { bytes = update s.bytes (x + header_size + i) v })

module _ {K : Type 0} where
  -- The block `x` of the heap holds the array `b`.
  pub record Holds (s : State K) (bs : List Ptr) (x : Ptr) (b : Array) : Type 0 where
    pub mem : has x bs ≡ true
    pub used : (s.hdr x).is_free ≡ 0
    pub len : (s.hdr x).requested_size ≡ b.len
    pub same : (i : ℕ) → i < b.len → s.bytes (x + header_size + i) ≡ b.data_at i

module _ {K : Type 0} (break : K → Ptr) where
  -- The heap is in order, and each array of the store is in a block in use of its own.
  pub record Represents (a : Store) (s : State K) : Type 0 where
    pub lists : ℕ → List Ptr
    pub bs : List Ptr
    pub heap : IsHeap null (break s.kernel) s lists bs
    pub holds : (x : Ptr) (b : Array) → a x ≡ some b → Holds s bs x b

  -- A change of the store that the operation may make leads to the store after it.
  pub record Refined (a : Store) (op : Op) (p : Ptr) (s' : State K) : Type 0 where
    pub after : Store
    pub change : Change a op p after
    pub represents : Represents after s'

pub some_same : (b c : Array) (y : Option Array) → y ≡ some b → y ≡ some c → b ≡ c
some_same b c y p q = ground arith
