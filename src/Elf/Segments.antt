-- ===== src/Elf/Segments.antt =====
-- `load_elf` and `load_segment` of src/0x01/pkg/elf/src/lib.rs. What is copied into the frames is
-- left out: memory has no contents here.
use yat_sen_os.Prelude.{
  ℕ, ◌+◌, ◌-◌, ◌*◌, ◌/◌, Bool, true, not, List, [], ◌∷◌, ltb, if◌then◌else◌, Outcome, ok, ◌>>=◌,
  Result, okay, error,
}
use yat_sen_os.X86.{X86, PageTableFlags, MapToError, page_size, containing_address}
use yat_sen_os.Elf.{Space, PageRangeInclusive, inclusive_count, map_pages, add_addr, sub_addr}

-- What the loader reads of a program header of the crate xmas_elf.
pub record ProgramHeader : Type 0 where
  pub is_load : Bool
  pub virtual_addr : ℕ
  pub mem_size : ℕ
  pub file_size : ℕ
  pub is_write : Bool
  pub is_execute : Bool

pub record ElfFile : Type 0 where
  pub entry_point : ℕ
  pub program_iter : List ProgramHeader

unfoldable pub segment_flags : ProgramHeader → Bool → PageTableFlags
segment_flags segment user_access = record {
  present = true;
  writable = segment.is_write;
  user_accessible = user_access;
  no_execute = not segment.is_execute;
}

-- `align_up(addr, 4096)`
abbrev pub align_up : ℕ → ℕ
align_up addr = (addr + (page_size - 1)) / page_size * page_size

module _ (x : X86) where
  abbrev pub Loaded : Type 0
  Loaded = Result PageRangeInclusive MapToError × Space x

  -- The pages that the file does not fill, which are zeroed.
  unfoldable pub load_bss :
      ProgramHeader → PageTableFlags → ℕ → PageRangeInclusive → Space x → Outcome Loaded
  load_bss segment flags virt_start pages s = do
    zero_start ← add_addr x virt_start segment.file_size
    zero_end ← add_addr x virt_start segment.mem_size
    start ← x.virt_addr (align_up zero_start)
    let bss : PageRangeInclusive = record {
      start = containing_address start;
      stop = containing_address zero_end;
    }
    ok (elim (map_pages x bss.start (inclusive_count bss) flags s).0 [
      | okay _ ↦ (okay pages, (map_pages x bss.start (inclusive_count bss) flags s).1)
      | error e ↦ (error e, (map_pages x bss.start (inclusive_count bss) flags s).1)
    ])

  -- After the pages of the file.
  unfoldable pub load_rest :
      ProgramHeader
      → PageTableFlags
      → ℕ
      → PageRangeInclusive
      → Result (Unit {0}) MapToError × Space x
      → Outcome Loaded
  unfolding load_bss
  load_rest segment flags virt_start pages (error e, s) = ok (error e, s)
  load_rest segment flags virt_start pages (okay _, s) =
      if ltb segment.file_size segment.mem_size
      then load_bss segment flags virt_start pages s
      else ok (okay pages, s)

  unfoldable pub load_segment : ProgramHeader → Bool → Space x → Outcome Loaded
  unfolding segment_flags load_rest
  load_segment segment user_access s = do
    virt_start ← x.virt_addr segment.virtual_addr
    past ← add_addr x virt_start segment.file_size
    last ← sub_addr x past 1
    let flags = segment_flags segment user_access
    let pages : PageRangeInclusive = record {
      start = containing_address virt_start;
      stop = containing_address last;
    }
    load_rest segment flags virt_start pages
        (map_pages x pages.start (inclusive_count pages) flags s)

  -- The segments after the first, the page ranges in order; the first error ends it.
  unfoldable pub collect :
      (Space x → Outcome (Result (List PageRangeInclusive) MapToError × Space x))
      → Loaded
      → Outcome (Result (List PageRangeInclusive) MapToError × Space x)
  collect go_on (error e, s) = ok (error e, s)
  collect go_on (okay range, s) = do
    (rest, s') ← go_on s
    ok (elim rest [ okay ranges ↦ (okay (range ∷ ranges), s') | error e ↦ (error e, s') ])

  unfoldable pub load_segments :
      List ProgramHeader
      → Bool
      → Space x
      → Outcome (Result (List PageRangeInclusive) MapToError × Space x)
  unfolding load_segment collect
  load_segments [] user_access s = ok (okay [], s)
  load_segments (segment ∷ segments) user_access s =
      let rest = load_segments segments user_access in
      if segment.is_load then load_segment segment user_access s >>= collect rest else rest s

  unfoldable pub load_elf :
      ElfFile → Bool → Space x → Outcome (Result (List PageRangeInclusive) MapToError × Space x)
  unfolding load_segments
  load_elf elf user_access s = load_segments elf.program_iter user_access s
