-- ===== src/Io/Resources.antt =====
-- `Resource` and `ResourceSet` of src/0x01/pkg/kernel/src/utils/resource.rs, with `read` and `write`
-- of proc/data.rs. A read takes the input buffer and the buffer's length and returns what it writes
-- at the buffer's start; printing is left out. An `isize` is its bit pattern.
use yat_sen_os.Prelude.{
  ℕ, ◌+◌, ◌-◌, ◌/◌, ◌%◌, ◌^◌, ◌≡◌, ◌≤◌, refl, Bool, Option, some, none, List, [], ◌∷◌, ltb,
  if◌then◌else◌, length, is_some, arith, inl, inr, ◌⊎◌, Option-cases,
}
use yat_sen_os.BTreeMap.{Map, get, insert, remove}
use yat_sen_os.Io.Input.{Key, unicode, raw_key, len_utf8, try_pop_key}

pub data StdIo : Type 0 where
  stdin stdout stderr : StdIo

pub data Resource : Type 0 where
  console : StdIo → Resource
  null : Resource

pub record ResourceSet : Type 0 where
  pub handles : Map Resource

-- `char::encode_utf8`
unfoldable pub encode_utf8 : ℕ → List ℕ
encode_utf8 c =
    if ltb c 0x80
    then c ∷ []
    else (if ltb c 0x800
        then (0xC0 + c / 64) ∷ (0x80 + c % 64) ∷ []
        else (if ltb c 0x10000
            then (0xE0 + c / 4096) ∷ (0x80 + c / 64 % 64) ∷ (0x80 + c % 64) ∷ []
            else (0xF0 + c / 262144)
              ∷ (0x80 + c / 4096 % 64)
              ∷ (0x80 + c / 64 % 64)
              ∷ (0x80 + c % 64)
              ∷ []))

unfoldable pub encoded : Option Key → List ℕ
unfolding encode_utf8
encoded none = []
encoded (some (raw_key k)) = []
encoded (some (unicode c)) = encode_utf8 c

-- What a read returns: the count, the bytes written, the input buffer.
abbrev pub Read : Type 0
Read = Option ℕ × List ℕ × List Key

-- Standard input wants room for any character.
unfoldable pub read_stdin : ℕ → List Key → Read
unfolding try_pop_key encoded
read_stdin size input =
    let (key, rest) = try_pop_key input in
    if ltb size 4 then (some 0, [], input) else (some (length (encoded key)), encoded key, rest)

unfoldable pub read_resource : Resource → ℕ → List Key → Read
unfolding read_stdin
read_resource (console StdIo.stdin) size input = read_stdin size input
read_resource (console StdIo.stdout) size input = (none, [], input)
read_resource (console StdIo.stderr) size input = (none, [], input)
read_resource null size input = (some 0, [], input)

unfoldable pub write_resource : Resource → List ℕ → Option ℕ
write_resource (console StdIo.stdin) buf = none
write_resource (console StdIo.stdout) buf = some (length buf)
write_resource (console StdIo.stderr) buf = some (length buf)
write_resource null buf = some (length buf)

-- `-1`
abbrev pub minus_one : ℕ
minus_one = 2 ^ 64 - 1

abbrev pub as_isize : Option ℕ → ℕ
as_isize none = minus_one
as_isize (some n) = n

unfoldable pub open_resource : Resource → ResourceSet → ℕ × ResourceSet
open_resource res s =
    let fd = length s.handles % 2 ^ 8 in (fd, record s { handles = insert fd res s.handles })

unfoldable pub close : ℕ → ResourceSet → Bool × ResourceSet
close fd s = (is_some (get fd s.handles), record s { handles = remove fd s.handles })

unfoldable pub default : ResourceSet
unfolding open_resource
default =
    let nothing : ResourceSet = record { handles = [] } in
    let (in_fd, s) = open_resource (console StdIo.stdin) nothing in
    let (out_fd, s') = open_resource (console StdIo.stdout) s in
    (open_resource (console StdIo.stderr) s').1

unfoldable pub read : ℕ → ℕ → List Key → ResourceSet → ℕ × List ℕ × List Key
unfolding read_resource
read fd size input s = elim (get fd s.handles) [
  | none ↦ (minus_one, [], input)
  | some res ↦
      let (count, written, rest) = read_resource res size input in (as_isize count, written, rest)
]

unfoldable pub write : ℕ → List ℕ → ResourceSet → ℕ
unfolding write_resource
write fd buf s = elim (get fd s.handles) [
  | none ↦ minus_one
  | some res ↦ as_isize (write_resource res buf)
]

encode_utf8-length : (c : ℕ) → length (encode_utf8 c) ≡ len_utf8 c
unfolding encode_utf8
encode_utf8-length c = ground arith

encoded-small : (key : Option Key) → length (encoded key) ≤ 4
unfolding encoded
encoded-small none = omega arith
encoded-small (some (raw_key k)) = omega arith
encoded-small (some (unicode c)) = ground (arith, encode_utf8-length c)

-- What a caller may rely on after a read into a buffer of `size` bytes.
abbrev pub Fits : ℕ → List Key → ℕ × List ℕ × List Key → Type 0
Fits size input (count, written, rest) =
    ((count ≡ minus_one) × (written ≡ []) × (rest ≡ input))
    ⊎ ((count ≡ length written) × (length written ≤ size))

read_resource-Fits :
    (res : Resource) (size : ℕ) (input : List Key)
    → Fits size input (
      as_isize (read_resource res size input).0,
      (read_resource res size input).1,
      (read_resource res size input).2,
    )
unfolding read_resource read_stdin
read_resource-Fits (console StdIo.stdin) size input =
    inr (ground (arith, encoded-small (try_pop_key input).0))
read_resource-Fits (console StdIo.stdout) size input = inl (refl, refl, refl)
read_resource-Fits (console StdIo.stderr) size input = inl (refl, refl, refl)
read_resource-Fits null size input = inr (refl, omega arith)

-- A read of any descriptor into a buffer of `size` bytes answers -1, writes nothing and leaves the
-- input, or it answers the number of bytes that it writes, which the buffer has room for.
pub read-Fits :
    (fd size : ℕ) (input : List Key) (s : ResourceSet) → Fits size input (read fd size input s)
unfolding read
read-Fits fd size input s = elim (Option-cases (get fd s.handles)) [
  | inl gone ↦ rw (gone, read) (inl (refl, refl, refl))
  | inr (res, open_res) ↦ rw (open_res, read) (read_resource-Fits res size input)
]
