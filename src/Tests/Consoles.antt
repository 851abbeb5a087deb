-- ===== src/Tests/Consoles.antt =====
-- Keys, lines and file descriptors.
use yat_sen_os.Prelude.{◌≡◌, ◌≤◌, ◌++◌, refl, [], ◌∷◌, List, ok, ◌+◌, length}
use yat_sen_os.BTreeMap.{insert}
use yat_sen_os.Io.Input.{Key, unicode, raw_key, get_line, string_len, pop_last, edit}
use yat_sen_os.Io.Input.Order.{Event, pushed, popped, all_kept, all_taken, after, push-pop}
use yat_sen_os.Io.Input.Lines.{edited, get_line-edited}
use yat_sen_os.Io.Resources.{console, StdIo, default, open_resource, Fits, read, read-Fits}

abbrev events : List Event
events = pushed (unicode b'a') ∷ pushed (raw_key 3) ∷ popped ∷ []

push-pop_run :
    (all_kept events [] ≡ all_taken events [] ++ after events []) × (length (after events []) ≤ 128)
push-pop_run = push-pop events

-- `l`, `x`, backspace, `s`
abbrev typed : List Key
typed = unicode b'l' ∷ unicode b'x' ∷ unicode 0x7F ∷ unicode b's' ∷ []

typed_line : edited typed [] ≡ b'l' ∷ b's' ∷ []
unfolding edited pop_last edit
typed_line = refl

get_line-edited_example :
    (get_line (typed ++ unicode 0x0D ∷ raw_key 1 ∷ []) ≡ ok (edited typed [], raw_key 1 ∷ []))
    × (string_len (edited typed []) ≤ 128 + 3)
get_line-edited_example =
    get_line-edited typed (unicode 0x0D) (raw_key 1 ∷ []) (refl, (refl, (refl, (refl, tt)))) refl

default_handles : default ≡ record {
  handles = (0, console StdIo.stdin) ∷ (1, console StdIo.stdout) ∷ (2, console StdIo.stderr) ∷ [];
}
unfolding default open_resource insert
default_handles = refl

read-Fits_example : Fits 16 (unicode 0x4F60 ∷ []) (read 0 16 (unicode 0x4F60 ∷ []) default)
read-Fits_example = read-Fits 0 16 (unicode 0x4F60 ∷ []) default
