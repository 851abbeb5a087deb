-- ===== src/Io/Input/Lines.antt =====
-- What `get_line` returns.
use yat_sen_os.Prelude.{ℕ, ◌+◌, ◌≤◌, ◌≡◌, true, false, List, [], ◌∷◌, ◌++◌, ok, arith}
use yat_sen_os.Io.Input.{
  Key, unicode, raw_key, buffer_size, len_utf8, string_len, pop_last, edit, ends_line, read_line,
  get_line,
}

string_len-append : (xs ys : List ℕ) → string_len (xs ++ ys) ≡ string_len xs + string_len ys
string_len-append [] ys = omega arith
string_len-append (x ∷ xs) ys = omega (arith, string_len-append xs ys)

string_len-pop_last : (line : List ℕ) → string_len (pop_last line) ≤ string_len line
unfolding pop_last
string_len-pop_last [] = omega arith
string_len-pop_last (c ∷ []) = omega arith
string_len-pop_last (c ∷ d ∷ cs) = omega (arith, string_len-pop_last (d ∷ cs))

-- The last character may take up to four bytes.
abbrev pub line_max : ℕ
line_max = buffer_size + 3

len_utf8-max : (c : ℕ) → len_utf8 c ≤ 4
len_utf8-max c = ground arith

edit-small :
    (key : Key) (line : List ℕ) → string_len line ≤ line_max → string_len (edit key line) ≤ line_max
unfolding edit
edit-small (raw_key k) line h = h
edit-small (unicode c) line h =
    ground (arith, string_len-pop_last line, string_len-append line (c ∷ []), len_utf8-max c)

-- The keys up to the first that ends a line edit the line, one after another.
unfoldable pub edited : List Key → List ℕ → List ℕ
edited [] line = line
edited (key ∷ keys) line = edited keys (edit key line)

abbrev pub NoEnd : List Key → Type 0
NoEnd [] = Unit {0}
NoEnd (key ∷ keys) = (ends_line key ≡ false) × NoEnd keys

read_line-edited :
    (keys : List Key) (key : Key) (rest : List Key) (line : List ℕ)
    → NoEnd keys
    → ends_line key ≡ true
    → string_len line ≤ line_max
    → (read_line (keys ++ key ∷ rest) line ≡ ok (edited keys line, rest))
      × (string_len (edited keys line) ≤ line_max)
unfolding read_line edited
read_line-edited [] key rest line no_end end small = (rw end, small)
read_line-edited (k ∷ ks) key rest line no_end end small =
    let (e, h) =
      read_line-edited ks key rest (edit k line) no_end.1 end (edit-small k line small) in
    (ground (arith, e, no_end.0), h)

-- Once a key that ends a line has come, `get_line` returns: it has read the keys up to that one, each
-- of them has edited the line in turn, the later keys are left, and the line has at most 131 bytes.
pub get_line-edited :
    (keys : List Key) (key : Key) (rest : List Key)
    → NoEnd keys
    → ends_line key ≡ true
    → (get_line (keys ++ key ∷ rest) ≡ ok (edited keys [], rest))
      × (string_len (edited keys []) ≤ line_max)
unfolding get_line
get_line-edited keys key rest no_end end =
    read_line-edited keys key rest [] no_end end (omega arith)
