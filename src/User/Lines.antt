-- ===== src/User/Lines.antt =====
-- `Stdin::read_line` of src/0x01/pkg/lib/src/io.rs. What the calls of `sys_read` answer is a list:
-- `none`, or the bytes that the call has written into the buffer. What is written to descriptor 1
-- is collected. Without a further answer the loop goes on.
use yat_sen_os.Prelude.{
  ℕ, ◌≡◌, refl, sym, ◌∙◌, Bool, true, false, Option, some, none, List, [], ◌∷◌, ◌++◌, ◌==◌, ◌||◌,
  if◌then◌else◌, Outcome, ok, endless, Bool-cases, inl, inr,
}
use yat_sen_os.Io.Input.{pop_last}

abbrev pub is_return : ℕ → Bool
is_return ch = ch == 0x0D

abbrev pub is_delete : ℕ → Bool
is_delete ch = (ch == 0x08) || (ch == 0x7F)

-- The line so far, and what was echoed.
abbrev pub Typing : Type 0
Typing = List ℕ × List ℕ

-- The arm of a byte that does not end the line: `ch as char` is the code point of that number.
unfoldable pub type_byte : ℕ → Typing → Typing
unfolding pop_last
type_byte ch (line, echo) =
    if is_delete ch
    then (pop_last line, echo ++ 0x08 ∷ 0x20 ∷ 0x08 ∷ [])
    else (line ++ ch ∷ [], echo ++ ch ∷ [])

-- The inner loop, over the bytes of one answer: `true` where it has returned.
unfoldable pub type_bytes : List ℕ → Typing → Bool × Typing
unfolding type_byte
type_bytes [] t = (false, t)
type_bytes (ch ∷ bytes) t =
    let rest = type_bytes bytes (type_byte ch t) in
    if is_return ch then (true, (t.0, t.1 ++ 0x0A ∷ [])) else rest

-- What the loop does after the inner one; `go` is the next round.
abbrev pub next_round : (Typing → Outcome Typing) → Bool × Typing → Outcome Typing
next_round go (true, t) = ok t
next_round go (false, t) = go t

unfoldable pub read_loop : List (Option (List ℕ)) → Typing → Outcome Typing
unfolding type_bytes
read_loop [] t = endless
read_loop (none ∷ answers) t = read_loop answers t
read_loop (some bytes ∷ answers) t = next_round (read_loop answers) (type_bytes bytes t)

unfoldable pub read_line : List (Option (List ℕ)) → Outcome Typing
unfolding read_loop
read_line answers = read_loop answers ([], [])

-- All the bytes that were read.
abbrev pub stream : List (Option (List ℕ)) → List ℕ
stream [] = []
stream (none ∷ answers) = stream answers
stream (some bytes ∷ answers) = bytes ++ stream answers

-- One pass over a stream of bytes.
abbrev pub typed : Bool × Typing → Outcome Typing
typed (true, t) = ok t
typed (false, t) = endless

type_bytes-append :
    (xs ys : List ℕ) (t : Typing)
    → typed (type_bytes (xs ++ ys) t)
      ≡ next_round (λ t'. typed (type_bytes ys t')) (type_bytes xs t)
unfolding type_bytes
type_bytes-append [] ys t = refl
type_bytes-append (ch ∷ xs) ys t = elim (Bool-cases (is_return ch)) [
  | inl ret ↦ rw ret refl
  | inr more ↦ rw more (type_bytes-append xs ys (type_byte ch t))
]

next_round-cong :
    (f g : Typing → Outcome Typing) (r : Bool × Typing)
    → ((t : Typing) → f t ≡ g t)
    → next_round f r ≡ next_round g r
next_round-cong f g (true, t) same = refl
next_round-cong f g (false, t) same = same t

read_loop-stream :
    (answers : List (Option (List ℕ))) (t : Typing)
    → read_loop answers t ≡ typed (type_bytes (stream answers) t)
unfolding read_loop
read_loop-stream [] t = unfold type_bytes in refl
read_loop-stream (none ∷ answers) t = read_loop-stream answers t
read_loop-stream (some bytes ∷ answers) t =
    next_round-cong (read_loop answers) (λ t'. typed (type_bytes (stream answers) t'))
      (type_bytes bytes t) (read_loop-stream answers)
    ∙ sym (type_bytes-append bytes (stream answers) t)

-- The line that `read_line` returns and what it echoes do not depend on how the bytes are divided
-- among the answers of `sys_read`, or on failed calls between them: they are those of one pass over
-- all the bytes, up to the first carriage return, and without one it does not return.
pub read_line-stream :
    (answers : List (Option (List ℕ)))
    → read_line answers ≡ typed (type_bytes (stream answers) ([], []))
unfolding read_line
read_line-stream answers = read_loop-stream answers ([], [])
