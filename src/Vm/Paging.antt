-- ===== src/Vm/Paging.antt =====
-- `PageTableContext` of src/0x01/pkg/kernel/src/proc/paging.rs. A page table is referred to by the
-- frame of its root; `refs` holds how many references `Arc` counts. The copy of a root is taken for a
-- table of its own: that both share the tables below it is not modelled.
use yat_sen_os.Prelude.{ℕ, ◌+◌, ◌-◌, Outcome, ok, unwrap, ◌>>=◌}
use mathlib.Core.Option
use yat_sen_os.BTreeMap.{Map, get, insert}
use yat_sen_os.Memory.Frames.{BootInfoFrameAllocator, allocate_frame}
use yat_sen_os.X86.{X86}
use yat_sen_os.Elf.{Space}

-- What the memories of all processes share.
pub record Machine (x : X86) : Type 0 where
  pub tables : Map x.Table
  pub refs : Map ℕ
  pub allocator : BootInfoFrameAllocator
  -- the ends of the heaps, by reference, and the next reference
  pub heap_ends : Map ℕ
  pub next_heap : ℕ
  pub cr3 : ℕ

module _ (x : X86) where
  -- The page table of that root, with the frame allocator.
  unfoldable pub mapper : ℕ → Machine x → Outcome (Space x)
  mapper root m = do
    table ← unwrap (get root m.tables)
    ok (record { table = table; allocator = m.allocator })

  unfoldable pub write_back : ℕ → Space x → Machine x → Machine x
  write_back root s m = record m { tables = insert root s.table m.tables; allocator = s.allocator }

  unfoldable pub using_count : ℕ → Machine x → ℕ
  using_count root m = Option.get_or (get root m.refs) 0

  unfoldable pub clone_level_4 : ℕ → Machine x → Outcome (ℕ × Machine x)
  clone_level_4 root m = do
    let (frame, allocator) = allocate_frame m.allocator
    new_root ← unwrap frame
    table ← unwrap (get root m.tables)
    ok (
      new_root,
      record m {
        tables = insert new_root table m.tables;
        refs = insert new_root 1 m.refs;
        allocator = allocator;
      },
    )

  unfoldable pub load : ℕ → Machine x → Machine x
  load root m = record m { cr3 = root }

  unfoldable pub fork : ℕ → Machine x → Machine x
  unfolding using_count
  fork root m = record m { refs = insert root (using_count root m + 1) m.refs }

  -- Dropping a reference.
  unfoldable pub drop : ℕ → Machine x → Machine x
  unfolding using_count
  drop root m = record m { refs = insert root (using_count root m - 1) m.refs }
