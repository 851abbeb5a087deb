-- ===== src/Memory/Frames.antt =====
-- `BootInfoFrameAllocator` of src/0x01/pkg/kernel/src/memory/frames.rs. A `PhysFrame` is its number,
-- the address divided by 4096.
pub mod Ownership
use yat_sen_os.Prelude.{
  ℕ, zero, suc, ◌+◌, ◌*◌, ◌/◌, ◌%◌, ◌^◌, Option, none, some, List, [], ◌∷◌, ◌++◌, ◌==◌, map, length,
  if◌then◌else◌,
}

pub record BootInfoFrameAllocator : Type 0 where
  pub size : ℕ
  pub used : ℕ
  -- what the iterator has still to give
  pub frames : List ℕ
  -- the last element of the vector stands first
  pub recycled : List ℕ

-- A region of the firmware's memory map.
pub record MemoryRegion : Type 0 where
  pub ty : ℕ
  pub phys_start : ℕ
  pub page_count : ℕ

abbrev pub conventional : ℕ
conventional = 7

abbrev pub frame_size : ℕ
frame_size = 4096

-- The frames of the addresses `v * 4096 + phys_start` for `v` from `from`, `count` of them.
unfoldable pub region_frames : ℕ → ℕ → ℕ → List ℕ
region_frames phys_start from zero = []
region_frames phys_start from (suc count) =
    (from * frame_size + phys_start) / frame_size ∷ region_frames phys_start (suc from) count

unfoldable pub create_frame_iter : List MemoryRegion → List ℕ
unfolding region_frames
create_frame_iter [] = []
create_frame_iter (r ∷ rs) =
    if r.ty == conventional
    then region_frames r.phys_start 0 r.page_count ++ create_frame_iter rs
    else create_frame_iter rs

unfoldable pub init : List MemoryRegion → ℕ → BootInfoFrameAllocator
unfolding create_frame_iter
init memory_map size = record {
  size = size;
  used = 0;
  frames = create_frame_iter memory_map;
  recycled = [];
}

unfoldable pub frames_used : BootInfoFrameAllocator → ℕ
frames_used a = a.used

unfoldable pub frames_total : BootInfoFrameAllocator → ℕ
frames_total a = a.size

unfoldable pub frames_recycled : BootInfoFrameAllocator → ℕ
frames_recycled a = length a.recycled

-- `used` counts the call also where the iterator has nothing left.
unfoldable pub next_frame : BootInfoFrameAllocator → Option ℕ × BootInfoFrameAllocator
next_frame a = elim a.frames [
  | [] ↦ (none, record a { used = (a.used + 1) % 2 ^ 64 })
  | frame ∷ rest ↦ (some frame, record a { used = (a.used + 1) % 2 ^ 64; frames = rest })
]

unfoldable pub allocate_frame : BootInfoFrameAllocator → Option ℕ × BootInfoFrameAllocator
unfolding next_frame
allocate_frame a = elim a.recycled [
  | frame ∷ rest ↦ (some frame, record a { recycled = rest })
  | [] ↦ next_frame a
]

unfoldable pub deallocate_frame : ℕ → BootInfoFrameAllocator → BootInfoFrameAllocator
deallocate_frame frame a = record a { recycled = frame ∷ a.recycled }

-- Everything that the allocator can still hand out.
abbrev pub pool : BootInfoFrameAllocator → List ℕ
pool a = a.recycled ++ a.frames
