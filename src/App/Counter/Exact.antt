-- ===== src/App/Counter/Exact.antt =====
-- That no increment of src/0x01/pkg/app/counter/src/main.rs is lost.
use yat_sen_os.Prelude.{
  ℕ, zero, suc, ◌+◌, ◌-◌, ◌≤◌, ◌<◌, ◌≡◌, ◌≢◌, refl, sym, ap, subst, some, List, [], ◌∷◌, ltb→lt,
  set, get_elem?, arith, some_inj, total, total-set, total_two, total_le, ◌⊎◌, inl, inr,
}
use yat_sen_os.App.Counter.{
  Place, Thread, World, wait, do_counter_inc, act, Reach, here, next, forked, start,
}

abbrev pub inside_at : Place → ℕ
inside_at Place.idle = 0
inside_at p = 1

abbrev pub inside : Thread → ℕ
inside t = inside_at t.place

-- The increments that a thread has still to store.
abbrev pub to_store : Place → ℕ → ℕ
to_store Place.stored left = left - 1
to_store p left = left

abbrev pub missing : Thread → ℕ
missing t = to_store t.place t.left

abbrev pub left : Thread → ℕ
left t = t.left

-- What a thread has read is still so.
abbrev pub IsFresh : ℕ → Place → ℕ → Type 0
IsFresh counter Place.loaded val = val ≡ counter
IsFresh counter Place.added val = val ≡ counter + 1
IsFresh counter p val = val ≡ val

pub record IsExact (w : World) : Type 0 where
  pub counted : w.counter + total missing w.threads ≡ 800
  pub alone : w.semaphore + total inside w.threads ≡ 1
  pub fresh :
      (i : ℕ) (t : Thread) → get_elem? w.threads i ≡ some t → IsFresh w.counter t.place t.val

-- An element of a list in which one was set.
set_inv :
    (ts : List Thread) (i j : ℕ) (t' u : Thread)
    → get_elem? (set ts i t') j ≡ some u
    → ((i ≡ j) × (t' ≡ u)) ⊎ ((i ≢ j) × (get_elem? ts j ≡ some u))
set_inv [] i j t' u e = absurd (ground arith)
set_inv (x ∷ ts) zero zero t' u e = inl (refl, some_inj e)
set_inv (x ∷ ts) zero (suc j) t' u e = inr (λ z. absurd (omega arith), e)
set_inv (x ∷ ts) (suc i) zero t' u e = inr (λ z. absurd (omega arith), e)
set_inv (x ∷ ts) (suc i) (suc j) t' u e = elim (set_inv ts i j t' u e) [
  | inl (same, found) ↦ inl (ap suc same, found)
  | inr (ne, at) ↦ inr (λ z. ne (omega arith), at)
]

to_store_le : (p : Place) (n : ℕ) → to_store p n ≤ n
to_store_le Place.idle n = omega arith
to_store_le Place.locked n = omega arith
to_store_le Place.loaded n = omega arith
to_store_le Place.added n = omega arith
to_store_le Place.stored n = omega arith

wait_inv :
    (c m : ℕ) (t t' : Thread) (c' m' : ℕ)
    → wait c m t ≡ some (t', c', m')
    → (n : ℕ) × (m ≡ suc n)
      × (◌≡◌ {A = Thread × ℕ × ℕ} (record t { place = Place.locked }, c, n) (t', c', m'))
wait_inv c zero t t' c' m' e = absurd (ground arith)
wait_inv c (suc n) t t' c' m' e = (n, refl, some_inj e)

fresh_idle : (counter counter' val : ℕ) (p : Place) → inside_at p ≡ 0 → IsFresh counter' p val
fresh_idle c c' val Place.idle e = refl
fresh_idle c c' val Place.locked e = refl
fresh_idle c c' val Place.loaded e = absurd (omega arith)
fresh_idle c c' val Place.added e = absurd (omega arith)
fresh_idle c c' val Place.stored e = refl

module _ (w : World) (i : ℕ) (t : Thread) (at : get_elem? w.threads i ≡ some t) (more : 0 < t.left)
    (b : IsExact w) where
  abbrev after : Thread → ℕ → ℕ → World
  after t' counter semaphore = record {
    threads = set w.threads i t';
    counter = counter;
    semaphore = semaphore;
  }

  reached :
      {x y : Thread × ℕ × ℕ} → x ≡ y → IsExact (after x.0 x.1 x.2) → IsExact (after y.0 y.1 y.2)
  reached same b' = subst (λ (q : Thread × ℕ × ℕ). IsExact (after q.0 q.1 q.2)) same b'

  -- The statement leaves the counter, or the thread is alone inside.
  fresh_after :
      (t' : Thread) (counter semaphore : ℕ)
      → (counter ≡ w.counter) ⊎ (inside t ≡ 1)
      → IsFresh counter t'.place t'.val
      → (j : ℕ) (u : Thread) → get_elem? (set w.threads i t') j ≡ some u
      → IsFresh counter u.place u.val
  fresh_after t' counter semaphore how mine j u at' = elim (set_inv w.threads i j t' u at') [
    | inl (same, is) ↦ subst (λ (q : Thread). IsFresh counter q.place q.val) is mine
    | inr (ne, old) ↦ elim how [
      | inl kept ↦ subst (λ c. IsFresh c u.place u.val) (sym kept) (b.fresh j u old)
      | inr held ↦
          let two = total_two inside w.threads i j t u at old ne in
          let alone = b.alone in fresh_idle w.counter counter u.val u.place (omega arith)
    ]
  ]

  exact_after :
      (t' : Thread) (counter semaphore : ℕ)
      → counter + missing t' ≡ w.counter + missing t
      → semaphore + inside t' ≡ w.semaphore + inside t
      → (counter ≡ w.counter) ⊎ (inside t ≡ 1)
      → IsFresh counter t'.place t'.val
      → IsExact (after t' counter semaphore)
  exact_after t' counter semaphore count permit how mine =
      let m = total-set missing w.threads i t t' at in
      let n = total-set inside w.threads i t t' at in
      let old = b.counted in
      let alone = b.alone in
      record {
        counted = omega arith;
        alone = omega arith;
        fresh = fresh_after t' counter semaphore how mine;
      }

  keeps :
      (p : Place) (t' : Thread) (counter semaphore : ℕ)
      → t.place ≡ p
      → do_counter_inc p t w.counter w.semaphore ≡ some (t', counter, semaphore)
      → IsExact (after t' counter semaphore)
  unfolding do_counter_inc
  keeps Place.idle t' counter semaphore ep e =
      let (permits, taken, to) = wait_inv w.counter w.semaphore t t' counter semaphore e in
      let m : missing t ≡ t.left = ap (λ q. to_store q t.left) ep in
      let n : inside t ≡ 0 = ap inside_at ep in
      reached to (exact_after _ w.counter permits (omega arith) (omega arith) (inl refl) refl)
  keeps Place.locked t' counter semaphore ep e =
      let m : missing t ≡ t.left = ap (λ q. to_store q t.left) ep in
      let n : inside t ≡ 1 = ap inside_at ep in
      reached (some_inj e)
        (exact_after _ w.counter w.semaphore (omega arith) (omega arith) (inl refl) refl)
  keeps Place.loaded t' counter semaphore ep e =
      let m : missing t ≡ t.left = ap (λ q. to_store q t.left) ep in
      let n : inside t ≡ 1 = ap inside_at ep in
      let read : t.val ≡ w.counter = subst (λ q. IsFresh w.counter q t.val) ep (b.fresh i t at) in
      let counted = b.counted in
      reached (some_inj e)
        (exact_after _ w.counter w.semaphore (omega arith) (omega arith) (inl refl) (omega arith))
  keeps Place.added t' counter semaphore ep e =
      let m : missing t ≡ t.left = ap (λ q. to_store q t.left) ep in
      let n : inside t ≡ 1 = ap inside_at ep in
      let read : t.val ≡ w.counter + 1 =
        subst (λ q. IsFresh w.counter q t.val) ep (b.fresh i t at) in
      reached (some_inj e)
        (exact_after _ t.val w.semaphore (omega arith) (omega arith) (inr n) refl)
  keeps Place.stored t' counter semaphore ep e =
      let m : missing t ≡ t.left - 1 = ap (λ q. to_store q t.left) ep in
      let n : inside t ≡ 1 = ap inside_at ep in
      reached (some_inj e)
        (exact_after _ w.counter (w.semaphore + 1) (omega arith) (omega arith) (inl refl) refl)

forked-idle : (n i : ℕ) (t : Thread) → get_elem? (forked n) i ≡ some t → t.place ≡ Place.idle
unfolding forked
forked-idle zero i t e = absurd (ground arith)
forked-idle (suc n) zero t e = ap (λ (q : Thread). q.place) (sym (some_inj e))
forked-idle (suc n) (suc i) t e = forked-idle n i t e

start-IsExact : IsExact start
unfolding start forked
start-IsExact = record {
  counted = refl;
  alone = refl;
  fresh = λ i t at. fresh_idle 0 0 t.val t.place (ap inside_at (forked-idle 8 i t at));
}

Reach-IsExact : {w : World} → Reach start w → IsExact w
Reach-IsExact here = start-IsExact
Reach-IsExact (next r (act w i t t' counter semaphore at more e)) =
    keeps w i t at (ltb→lt 0 t.left more) (Reach-IsExact r) t.place t' counter semaphore refl e

missing_le : (t : Thread) → missing t ≤ left t
missing_le t = to_store_le t.place t.left

-- However the statements of the threads follow each other, no increment is lost: the counter and
-- the increments that are still to be stored are 800 together.
pub counter-missing : {w : World} → Reach start w → w.counter + total missing w.threads ≡ 800
counter-missing r = let b = Reach-IsExact r in b.counted

-- When every thread has done its rounds.
pub counter-exact : {w : World} → Reach start w → total left w.threads ≡ 0 → w.counter ≡ 800
counter-exact {w = w} r done =
    let b = Reach-IsExact r in
    let counted = b.counted in let le = total_le missing left w.threads missing_le in omega arith
