-- ===== src/Io/Input/Order.antt =====
-- Keys come out of the buffer in the order in which they were pushed.
use yat_sen_os.Prelude.{
  ◌≤◌, ◌≡◌, refl, sym, ap, ◌∙◌, List, [], ◌∷◌, ◌++◌, Option, some, none, ltb, if◌then◌else◌, length,
  length-append, arith,
}
use mathlib.Core.List.{append_assoc, append-nil}
use yat_sen_os.Io.Input.{Key, buffer_size, push_key, try_pop_key}

pub data Event : Type 0 where
  pushed : Key → Event
  popped : Event

unfoldable pub step : Event → List Key → List Key
unfolding push_key try_pop_key
step (pushed key) buf = push_key key buf
step popped buf = (try_pop_key buf).1

unfoldable pub after : List Event → List Key → List Key
after [] buf = buf
after (e ∷ es) buf = after es (step e buf)

-- What one event puts into the buffer, and what it takes out.
abbrev pub kept : Event → List Key → List Key
kept (pushed key) buf = if ltb (length buf) buffer_size then key ∷ [] else []
kept popped buf = []

abbrev pub listed : Option Key → List Key
listed none = []
listed (some key) = key ∷ []

abbrev pub taken : Event → List Key → List Key
taken (pushed key) buf = []
taken popped buf = listed (try_pop_key buf).0

unfoldable pub all_kept : List Event → List Key → List Key
all_kept [] buf = []
all_kept (e ∷ es) buf = kept e buf ++ all_kept es (step e buf)

unfoldable pub all_taken : List Event → List Key → List Key
all_taken [] buf = []
all_taken (e ∷ es) buf = taken e buf ++ all_taken es (step e buf)

step-order : (e : Event) (buf : List Key) → buf ++ kept e buf ≡ taken e buf ++ step e buf
unfolding step push_key try_pop_key
step-order (pushed key) buf = ground (arith, append-nil buf)
step-order popped [] = refl
step-order popped (key ∷ rest) = append-nil (key ∷ rest)

order :
    (es : List Event) (buf : List Key) → buf ++ all_kept es buf ≡ all_taken es buf ++ after es buf
unfolding all_kept all_taken after
order [] buf = append-nil buf
order (e ∷ es) buf =
    let next : List Key = step e buf in
    sym (append_assoc buf (kept e buf) (all_kept es next))
    ∙ ap (λ l. l ++ all_kept es next) (step-order e buf)
    ∙ append_assoc (taken e buf) next (all_kept es next)
    ∙ ap (λ l. taken e buf ++ l) (order es next)
    ∙ sym (append_assoc (taken e buf) (all_taken es next) (after es next))

step-small :
    (e : Event) (buf : List Key) → length buf ≤ buffer_size → length (step e buf) ≤ buffer_size
unfolding step push_key try_pop_key
step-small (pushed key) buf h = ground (arith, length-append buf (key ∷ []))
step-small popped [] h = h
step-small popped (key ∷ rest) h = omega arith

after-small :
    (es : List Event) (buf : List Key)
    → length buf ≤ buffer_size
    → length (after es buf) ≤ buffer_size
unfolding after
after-small [] buf h = h
after-small (e ∷ es) buf h = after-small es (step e buf) (step-small e buf h)

-- From an empty buffer: the keys that were not dropped, in the order in which they were pushed, are
-- the keys that were popped, in the order in which they were popped, and after them those that are
-- left; and no more than 128 keys are left.
pub push-pop :
    (es : List Event)
    → (all_kept es [] ≡ all_taken es [] ++ after es []) × (length (after es []) ≤ buffer_size)
push-pop es = (order es [], after-small es [] (omega arith))
