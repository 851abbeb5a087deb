-- ===== src/Tests/Frames.antt =====
-- The frame allocator.
use mathlib.Core.List.{Perm, Nodup, mem-singleton}
use mathlib.Mathlib.Data.List.Nodup
use yat_sen_os.Prelude.{◌≡◌, refl, [], ◌∷◌, arith}
use yat_sen_os.Memory.Frames.{BootInfoFrameAllocator, init, allocate_frame, deallocate_frame, pool}
use yat_sen_os.Memory.Frames.Ownership.{Owned, Step, Reach, booted, all_frames, frames_once}

-- Two pages of conventional memory at 0x10000, and a region of another type.
abbrev start : BootInfoFrameAllocator
start = record { size = 2; used = 0; frames = 16 ∷ 17 ∷ []; recycled = [] }

start_lem :
    init
      (record { ty = 7; phys_start = 0x10000; page_count = 2 }
        ∷ record { ty = 4; phys_start = 0; page_count = 9 }
        ∷ [])
      2
    ≡ start
unfolding init
start_lem = refl

-- A frame is taken and given back.
abbrev taken : Owned
taken = record {
  allocator = record { size = 2; used = 1; frames = 17 ∷ []; recycled = [] };
  held = 16 ∷ [];
}

abbrev given : Owned
given = record {
  allocator = record { size = 2; used = 1; frames = 17 ∷ []; recycled = 16 ∷ [] };
  held = [];
}

take_first : Step (booted start) taken
unfolding allocate_frame
take_first = Step.take (booted start) 16 refl

give_back : Step taken given
unfolding deallocate_frame
give_back = Step.give taken [] [] 16 refl

start-Nodup : Nodup (pool start)
start-Nodup =
    Nodup.cons (λ m. let e : 16 ≡ 17 = (mem-singleton hlevel).0 m in absurd (omega arith))
      (Nodup.Nodup-singleton 17)

frames_once_example : Nodup (all_frames given) × Perm (all_frames given) (pool start)
frames_once_example =
    frames_once start start-Nodup (Reach.next (Reach.next Reach.here take_first) give_back)
