-- ===== src/FreeList/SizeClass.antt =====
-- `get_size_class_index` of src/allocator/free_list.c.
use linux_dynamic_memory_all.Prelude.{ℕ, zero, suc, ◌-◌, ◌≡◌, ◌≤◌, ◌<◌, arith}
use linux_dynamic_memory_all.Memory.{num_size_classes}
use linux_dynamic_memory_all.FreeList.{get_size_class_index, size_class_limits}

pub get_size_class_index-lt : (n : ℕ) → get_size_class_index n < num_size_classes
unfolding get_size_class_index
get_size_class_index-lt n = ground arith

pub get_size_class_index_mono : (m n : ℕ) → m ≤ n → get_size_class_index m ≤ get_size_class_index n
unfolding get_size_class_index
get_size_class_index_mono m n h = ground arith

-- The class of a size is the first whose limit is at least the size: the limits of the classes
-- before it are below the size, and its own limit is at least the size unless it is the last
-- class.
pub get_size_class_index_first :
    (n i : ℕ)
    → i < num_size_classes
    → (i < get_size_class_index n → size_class_limits i < n)
      × (i ≡ get_size_class_index n → i < num_size_classes - 1 → n ≤ size_class_limits i)
unfolding get_size_class_index
get_size_class_index_first n zero lt = ground arith
get_size_class_index_first n (suc zero) lt = ground arith
get_size_class_index_first n (suc (suc zero)) lt = ground arith
get_size_class_index_first n (suc (suc (suc zero))) lt = ground arith
get_size_class_index_first n (suc (suc (suc (suc zero)))) lt = ground arith
get_size_class_index_first n (suc (suc (suc (suc (suc zero))))) lt = ground arith
get_size_class_index_first n (suc (suc (suc (suc (suc (suc zero)))))) lt = ground arith
get_size_class_index_first n (suc (suc (suc (suc (suc (suc (suc zero))))))) lt = ground arith
get_size_class_index_first n (suc (suc (suc (suc (suc (suc (suc (suc i)))))))) lt =
    absurd (omega arith)
