-- ===== src/Memory/Frames/Ownership.antt =====
-- Who owns a frame: the allocator, or somebody who asked it for one.
use mathlib.Core.List.{Perm, Nodup, perm_middle}
use mathlib.Core.List.Perm
use yat_sen_os.Prelude.{
  ℕ, ◌≡◌, refl, ◌⊎◌, inl, inr, Option, none, some, List, [], ◌∷◌, ◌++◌, ap, sym, ◌∙◌,
}
use yat_sen_os.Memory.Frames.{BootInfoFrameAllocator, allocate_frame, deallocate_frame, pool}

-- Allocation takes the first frame of the pool, and fails on an empty pool only.
abbrev pub Allocates : List ℕ → Option ℕ × BootInfoFrameAllocator → Type 0
Allocates xs (r, a') =
    ((f : ℕ) × (r ≡ some f) × (xs ≡ f ∷ pool a')) ⊎ ((r ≡ none) × (xs ≡ []) × (pool a' ≡ []))

allocate_from :
    (size used : ℕ) (frames recycled : List ℕ)
    → Allocates
        (recycled ++ frames)
        (allocate_frame (record { size = size; used = used; frames = frames; recycled = recycled }))
unfolding allocate_frame
allocate_from size used [] [] = inr (refl, refl, refl)
allocate_from size used (f ∷ fs) [] = inl (f, refl, refl)
allocate_from size used fs (r ∷ rs) = inl (r, refl, refl)

pub allocate_frame-Allocates : (a : BootInfoFrameAllocator) → Allocates (pool a) (allocate_frame a)
allocate_frame-Allocates a = allocate_from a.size a.used a.frames a.recycled

-- The allocator, and the frames that are out.
pub record Owned : Type 0 where
  pub allocator : BootInfoFrameAllocator
  pub held : List ℕ

-- One call. A frame that is given back is one that is out.
pub data Step : Owned → Owned → Type 0 where
  take :
      (s : Owned) (f : ℕ)
      → (allocate_frame s.allocator).0 ≡ some f
      → Step s (record { allocator = (allocate_frame s.allocator).1; held = f ∷ s.held })
  fail :
      (s : Owned)
      → (allocate_frame s.allocator).0 ≡ none
      → Step s (record { allocator = (allocate_frame s.allocator).1; held = s.held })
  give :
      (s : Owned) (xs ys : List ℕ) (f : ℕ)
      → s.held ≡ xs ++ f ∷ ys
      → Step s (record { allocator = deallocate_frame f s.allocator; held = xs ++ ys })

pub data Reach (s : Owned) : Owned → Type 0 where
  here : Reach s s
  next : {t u : Owned} → Reach s t → Step t u → Reach s u

abbrev pub all_frames : Owned → List ℕ
all_frames s = s.held ++ pool s.allocator

module _ {ℓ} {A : Type ℓ} (f : A) where
  perm-take : (hs ps qs : List A) → qs ≡ f ∷ ps → Perm (f ∷ (hs ++ ps)) (hs ++ qs)
  perm-take hs ps qs e = rw e (Perm.symm (perm_middle hs ps))

  perm-give : (hs ps xs ys : List A) → hs ≡ xs ++ f ∷ ys → Perm ((xs ++ ys) ++ f ∷ ps) (hs ++ ps)
  perm-give hs ps xs ys e = rw e (
      Perm.trans (perm_middle (xs ++ ys) ps) (Perm.symm (Perm.append_right ps (perm_middle xs ys))))

Step-perm : {s t : Owned} → Step s t → Perm (all_frames t) (all_frames s)
unfolding deallocate_frame
Step-perm (take s f e) = elim (allocate_frame-Allocates s.allocator) [
  | inl (g, e', p) ↦
      let same : g ≡ f = cc in
      perm-take f s.held _ _ (p ∙ ap (λ x. x ∷ pool (allocate_frame s.allocator).1) same)
  | inr (e', _, _) ↦ cc (sym e ∙ e')
]
Step-perm (fail s e) = elim (allocate_frame-Allocates s.allocator) [
  | inl (g, e', _) ↦ cc (sym e ∙ e')
  | inr (_, p, p') ↦ Perm.append_left s.held (rw (p, p') Perm.rfl)
]
Step-perm (give s xs ys f e) = perm-give f s.held (pool s.allocator) xs ys e

pub Reach-perm : {s t : Owned} → Reach s t → Perm (all_frames t) (all_frames s)
Reach-perm {s} here = Perm.refl (all_frames s)
Reach-perm (next r st) = Perm.trans (Step-perm st) (Reach-perm r)

abbrev pub booted : BootInfoFrameAllocator → Owned
booted a = record { allocator = a; held = [] }

-- Whatever is allocated and given back, in any order: where the frames of the start are distinct,
-- no frame is out twice, or out and in the allocator at once, and none is lost or made up.
pub frames_once :
    (a : BootInfoFrameAllocator) {t : Owned}
    → Nodup (pool a)
    → Reach (booted a) t
    → Nodup (all_frames t) × Perm (all_frames t) (pool a)
frames_once a distinct r = (Perm.nodup (Perm.symm (Reach-perm r)) distinct, Reach-perm r)
