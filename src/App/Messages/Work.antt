-- ===== src/App/Messages/Work.antt =====
-- How long the threads of the message queue of src/0x01/pkg/app/md/src/main.rs run.
use yat_sen_os.Prelude.{
  total, total-set, ◌+◌, ◌-◌, ◌*◌, ◌<◌, ◌≡◌, refl, ap, ◌∙◌, arith, ltb→lt, ℕ, suc,
}
use yat_sen_os.App.Messages.{
  Place, Thread, go_on, World, Step, act, Reach, here, next, start, forked,
}
use yat_sen_os.App.Messages.Counts.{after, go_on-place}
use yat_sen_os.App.Messages.Balanced.{left_after, go_on-left}

-- The statements of a message that a thread has behind it.
abbrev pub behind : Place → ℕ
behind Place.idle = 0
behind Place.granted = 1
behind Place.locked = 2
behind Place.stored = 3
behind Place.moved = 4
behind Place.unlocked = 5

-- The statements that a thread has before it.
abbrev pub work : Thread → ℕ
work t = 6 * t.left - behind t.place

abbrev pub steps : {w v : World} → Reach w v → ℕ
steps here = 0
steps (next r st) = suc (steps r)

one_less :
    (p : Place) (n : ℕ) → 0 < n → 6 * left_after p n - behind (after p) + 1 ≡ 6 * n - behind p
one_less Place.idle n h = omega arith
one_less Place.granted n h = omega arith
one_less Place.locked n h = omega arith
one_less Place.stored n h = omega arith
one_less Place.moved n h = omega arith
one_less Place.unlocked n h = omega arith

work-go_on : (t : Thread) → 0 < t.left → work (go_on t.place t) + 1 ≡ work t
work-go_on t h =
    let t' = go_on t.place t in
    ap (λ q. 6 * t'.left - behind q + 1) (go_on-place t.place t)
    ∙ ap (λ q. 6 * q - behind (after t.place) + 1) (go_on-left t.place t)
    ∙ one_less t.place t.left h

Step-work : {u v : World} → Step u v → total work v.threads + 1 ≡ total work u.threads
Step-work (act w i t s at more e) =
    let sum = total-set work w.threads i t (go_on t.place t) at in
    let less = work-go_on t (ltb→lt 0 t.left more) in omega arith

-- A world that is reached has been reached by as many statements as are missing from the 960 of all
-- threads, so no run is longer.
pub steps-work : {w : World} (r : Reach start w) → steps r + total work w.threads ≡ 960
steps-work here = unfold start forked in refl
steps-work (next r st) = let so_far = steps-work r in let less = Step-work st in omega arith
