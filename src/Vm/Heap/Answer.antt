-- ===== src/Vm/Heap/Answer.antt =====
-- What every call of `brk` answers.
use yat_sen_os.Prelude.{
  ℕ, ◌≤◌, ◌<◌, ◌≡◌, refl, inl, inr, ◌⊎◌, Option, some, none, ok, arith, dec_lt, sym, ap, ◌∙◌,
}
use yat_sen_os.X86.{X86}
use yat_sen_os.Elf.{Space}
use yat_sen_os.Vm.Heap.{Heap, Brk, heap_start, heap_end, refused, moved, move_end, brk}
use yat_sen_os.Vm.Heap.Valid.{IsValid, eq-heap_to}
use yat_sen_os.Vm.Heap.Grow.{brk-grow}
use yat_sen_os.Vm.Heap.Shrink.{brk-shrink}

module _ (x : X86) where
  -- `None` and the heap as it was, or the end of the heap that is left, which is the one asked for
  -- or, where none was, the one before.
  abbrev pub Answers : Option ℕ → Heap → Brk x → Type 0
  Answers new_end h b =
      ((b.answer ≡ none) × (b.heap ≡ h))
      ⊎ ((b.answer ≡ some b.heap.end)
          × (((new_end ≡ none) × (b.heap ≡ h)) ⊎ (new_end ≡ some b.heap.end)))

  -- The end is never lowered.
  abbrev pub Returns : ℕ → Option ℕ → Heap → Space x → Type 0
  Returns pid new_end h s =
      (b : Brk x) × (brk x pid new_end h s ≡ ok b)
      × Answers new_end h b
      × (h.end ≤ b.heap.end)
      × (b.heap.end ≤ heap_end)

  brk-outside :
      (pid a : ℕ) (h : Heap) (s : Space x)
      → (a < heap_start) ⊎ (heap_end < a)
      → brk x pid (some a) h s ≡ ok (refused x h s)
  unfolding brk
  brk-outside pid a h s out = ground arith

  brk-same :
      (pid a : ℕ) (h : Heap) (s : Space x)
      → heap_start ≤ a
      → a ≤ heap_end
      → a ≡ h.end
      → brk x pid (some a) h s ≡ ok (moved x h a s)
  unfolding brk move_end
  brk-same pid a h s low up e = ground arith

  brk_inside :
      (pid a : ℕ) (h : Heap) (s : Space x)
      → IsValid x h s
      → heap_start ≤ a
      → a ≤ heap_end
      → Returns pid (some a) h s
  brk_inside pid a h s v low up = elim (dec_lt a h.end) [
    | yes lt ↦
        let (s', e, _) = brk-shrink x pid a h s v low lt in
        (refused x h s', e, inl (refl, refl), omega arith, v.upper)
    | no ge ↦ elim (dec_lt h.end a) [
      | yes lt ↦
          let (b, e, grown) = brk-grow x pid a h s v lt up in
          elim grown.1 [
            | inl (none', same) ↦
                let kept : b.heap ≡ h = same ∙ sym (eq-heap_to h v.based) in
                (b, e, inl (none', kept), ground (arith, kept), ground (arith, kept, v.upper))
            | inr (some', same, _, _) ↦
                let end : b.heap.end ≡ a = ap (λ g. g.end) same in
                (
                  b,
                  e,
                  inr (ground (arith, some', end), inr (ap some (sym end))),
                  ground (arith, end),
                  ground (arith, end),
                )
          ]
      | no same ↦ (
        moved x h a s,
        brk-same pid a h s low up (omega arith),
        inr (refl, inr refl),
        omega arith,
        up,
      )
    ]
  ]

-- Every call of `brk` on a valid heap returns. It answers `None` and keeps the heap, or it answers
-- the end of the heap that it leaves, which is the end asked for or, where no address was given, the
-- end of before. The end is not lowered and stays in the heap's range.
pub brk_lem :
    (x : X86) (pid : ℕ) (new_end : Option ℕ) (h : Heap) (s : Space x)
    → IsValid x h s
    → Returns x pid new_end h s
unfolding brk
brk_lem x pid none h s v =
    (moved x h h.end s, refl, inr (refl, inl (refl, refl)), omega arith, v.upper)
brk_lem x pid (some a) h s v = elim (dec_lt a heap_start) [
  | yes lt ↦
      (refused x h s, brk-outside x pid a h s (inl lt), inl (refl, refl), omega arith, v.upper)
  | no low ↦ elim (dec_lt heap_end a) [
    | yes lt ↦
        (refused x h s, brk-outside x pid a h s (inr lt), inl (refl, refl), omega arith, v.upper)
    | no up ↦ brk_inside x pid a h s v (omega arith) (omega arith)
  ]
]
