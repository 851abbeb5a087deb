-- ===== src/X86/Flat.antt =====
-- A mapper that meets the laws, with an association list for the tables: for concrete runs.
use yat_sen_os.Prelude.{
  ℕ, ◌-◌, ◌^◌, ◌<◌, ◌≤◌, ◌≡◌, refl, Option, none, some, arith, ltb, ◌==◌, if◌then◌else◌, Outcome,
  ok, panic,
}
use yat_sen_os.BTreeMap.{Map, get, insert, remove, get-insert, get-remove}
use yat_sen_os.Memory.Frames.{BootInfoFrameAllocator}
use yat_sen_os.X86.{X86, Mapping, MapToError, MapResult, allocate_times}

abbrev pub flat_virt_addr : ℕ → Outcome ℕ
flat_virt_addr a =
    if ltb a (2 ^ 47) then ok a else (if ltb a (2 ^ 64 - 2 ^ 47) then panic else ok a)

abbrev pub map_unless :
    Option Mapping
    → ℕ
    → Mapping
    → Map Mapping
    → BootInfoFrameAllocator
    → MapResult × Map Mapping × BootInfoFrameAllocator
map_unless none p m t a = (MapResult.mapped, insert p m t, a)
map_unless (some n) p m t a = (MapResult.failed (MapToError.page_already_mapped n.frame), t, a)

abbrev pub unmap_found : Option Mapping → ℕ → Map Mapping → Option ℕ × Map Mapping
unmap_found none p t = (none, t)
unmap_found (some n) p t = (some n.frame, remove p t)

abbrev pub flat_map :
    ℕ
    → Mapping
    → Map Mapping
    → BootInfoFrameAllocator
    → MapResult × Map Mapping × BootInfoFrameAllocator
flat_map p m t a = map_unless (get p t) p m t a

abbrev pub flat_unmap : ℕ → Map Mapping → Option ℕ × Map Mapping
flat_unmap p t = unmap_found (get p t) p t

pub flat-low : (a : ℕ) → a < 2 ^ 47 → flat_virt_addr a ≡ ok a
flat-low a h = ground arith

pub flat-hole : (a : ℕ) → 2 ^ 47 ≤ a → a < 2 ^ 64 - 2 ^ 47 → flat_virt_addr a ≡ panic
flat-hole a h k = ground arith

pub flat-taken :
    (p : ℕ) (m n : Mapping) (t : Map Mapping) (a : BootInfoFrameAllocator)
    → get p t ≡ some n
    → (flat_map p m t a).0 ≡ MapResult.failed (MapToError.page_already_mapped n.frame)
flat-taken p m n t a e = rw e

pub flat-mapped :
    (p q : ℕ) (m : Mapping) (t : Map Mapping) (a : BootInfoFrameAllocator)
    → (flat_map p m t a).0 ≡ MapResult.mapped
    → get q (flat_map p m t a).1 ≡ (if p == q then some m else get q t)
flat-mapped p q m t a h = ground (arith, get-insert p q m t)

pub flat-failed :
    (p q : ℕ) (m : Mapping) (t : Map Mapping) (a : BootInfoFrameAllocator) (e : MapToError)
    → (flat_map p m t a).0 ≡ MapResult.failed e
    → get q (flat_map p m t a).1 ≡ get q t
flat-failed p q m t a e h = ground arith

pub flat-frames :
    (p : ℕ) (m : Mapping) (t : Map Mapping) (a : BootInfoFrameAllocator)
    → (n : ℕ) × ((flat_map p m t a).2 ≡ allocate_times n a)
flat-frames p m t a = (0, ground arith)

pub flat-unmapped :
    (p q : ℕ) (n : Mapping) (t : Map Mapping)
    → get p t ≡ some n
    → ((flat_unmap p t).0 ≡ some n.frame)
      × (get q (flat_unmap p t).1 ≡ (if p == q then none else get q t))
flat-unmapped p q n t e = ground (arith, get-remove p q t)

pub flat-missing : (p : ℕ) (t : Map Mapping) → get p t ≡ none → flat_unmap p t ≡ (none, t)
flat-missing p t e = rw e

abbrev pub flat : X86
flat = record {
  virt_addr = flat_virt_addr;
  virt_addr-low = flat-low;
  virt_addr-hole = flat-hole;
  Table = Map Mapping;
  translate = get;
  map_to = flat_map;
  unmap = flat_unmap;
  clean_up = λ t a. (t, a);
  clean_up-translate = λ p t a. refl;
  map_to-taken = flat-taken;
  map_to-mapped = flat-mapped;
  map_to-failed = flat-failed;
  map_to-frames = flat-frames;
  unmap-mapped = flat-unmapped;
  unmap-missing = flat-missing;
}
