-- ===== src/User/Spin.antt =====
-- `SpinLock` of src/0x01/pkg/lib/src/sync.rs, used by any number of threads in any interleaving.
use yat_sen_os.Prelude.{ℕ, ◌≡◌, ◌≢◌, refl, sym, ◌∙◌, Bool, true, false, arith, ℕ_discrete}
use mathlib.Core.Logic.{ite, if_pos, if_neg}

pub record SpinLock : Type 0 where
  pub bolt : Bool

unfoldable pub new : SpinLock
new = record { bolt = false }

-- `compare_exchange(false, true)`, one round of `acquire`: whether it succeeds, and the lock.
unfoldable pub compare_exchange : SpinLock → Bool × SpinLock
compare_exchange l = elim l.bolt [ false ↦ (true, record l { bolt = true }) | true ↦ (false, l) ]

unfoldable pub release : SpinLock → SpinLock
release l = record l { bolt = false }

-- Where a thread is: outside, in the loop of `acquire`, or between `acquire` and `release`.
pub data Place : Type 0 where
  outside spinning inside : Place

pub record Threads : Type 0 where
  pub lock : SpinLock
  pub place : ℕ → Place

abbrev pub move : (ℕ → Place) → ℕ → Place → ℕ → Place
move at i p j = ite (ℕ_discrete i j) p (at j)

-- A round of `acquire` brings the thread in or leaves it spinning.
abbrev pub arrive : Bool → Place
arrive true = Place.inside
arrive false = Place.spinning

-- One atomic step of one thread; a thread releases only what it has acquired.
pub data Step : Threads → Threads → Type 0 where
  begin :
      (t : Threads) (i : ℕ)
      → t.place i ≡ Place.outside
      → Step t (record t { place = move t.place i Place.spinning })
  attempt :
      (t : Threads) (i : ℕ)
      → t.place i ≡ Place.spinning
      → Step t (record {
        lock = (compare_exchange t.lock).1;
        place = move t.place i (arrive (compare_exchange t.lock).0);
      })
  leave :
      (t : Threads) (i : ℕ)
      → t.place i ≡ Place.inside
      → Step t (record { lock = release t.lock; place = move t.place i Place.outside })

pub data Reach (s : Threads) : Threads → Type 0 where
  here : Reach s s
  next : {t u : Threads} → Reach s t → Step t u → Reach s u

abbrev pub start : Threads
start = record { lock = new; place = λ i. Place.outside }

-- The bolt is up where a thread is inside, and no other thread is.
abbrev IsExclusive : Threads → Type 0
IsExclusive t =
    (i : ℕ)
    → t.place i ≡ Place.inside
    → (t.lock.bolt ≡ true) × ((j : ℕ) → t.place j ≡ Place.inside → i ≡ j)

-- A thread that does not come in.
move_out :
    (at : ℕ → Place) (i : ℕ) (p : Place)
    → p ≢ Place.inside
    → (k : ℕ) → move at i p k ≡ Place.inside
    → (at k ≡ Place.inside) × (i ≢ k)
move_out at i p out k h = elim (ℕ_discrete i k) [
  | yes e ↦ absurd (out (rw (if_pos _ e) at h))
  | no ne ↦ (rw (if_neg _ ne) at h, ne)
]

-- A thread moves and does not come in, and the lock stays as it is.
stays :
    (t : Threads) (i : ℕ) (p : Place)
    → p ≢ Place.inside
    → IsExclusive t
    → IsExclusive (record t { place = move t.place i p })
stays t i p out safe k at_k =
    let (was, ne) = move_out t.place i p out k at_k in
    ((safe k was).0, λ j at_j. (safe k was).1 j (move_out t.place i p out j at_j).0)

-- Where the bolt is down, nobody is inside, so only the thread that comes in is.
only :
    (t : Threads) (i : ℕ)
    → t.lock.bolt ≡ false
    → IsExclusive t
    → (k : ℕ) → move t.place i Place.inside k ≡ Place.inside
    → i ≡ k
only t i down safe k at_k = elim (ℕ_discrete i k) [
  | yes e ↦ e
  | no ne ↦
      let was : t.place k ≡ Place.inside = rw (if_neg _ ne) at at_k in let up = (safe k was).0 in cc
]

attempted :
    (t : Threads) (i : ℕ) (b : Bool)
    → t.lock.bolt ≡ b
    → IsExclusive t
    → IsExclusive (record {
      lock = (compare_exchange t.lock).1;
      place = move t.place i (arrive (compare_exchange t.lock).0);
    })
unfolding compare_exchange
attempted t i true up safe = rw (up, compare_exchange) (stays t i Place.spinning (λ e. cc) safe)
attempted t i false down safe =
    rw (down, compare_exchange)
      (λ k at_k. (refl, λ j at_j. sym (only t i down safe k at_k) ∙ only t i down safe j at_j))

Step-IsExclusive : {t u : Threads} → Step t u → IsExclusive t → IsExclusive u
Step-IsExclusive (begin t i out) safe = stays t i Place.spinning (λ e. cc) safe
Step-IsExclusive (attempt t i spins) safe = attempted t i t.lock.bolt refl safe
Step-IsExclusive (leave t i held) safe = λ k at_k.
    let (was, ne) = move_out t.place i Place.outside (λ e. cc) k at_k in
    absurd (ne ((safe i held).1 k was))

Reach-IsExclusive : {s t : Threads} → IsExclusive s → Reach s t → IsExclusive t
Reach-IsExclusive safe here = safe
Reach-IsExclusive safe (next r st) = Step-IsExclusive st (Reach-IsExclusive safe r)

-- From a new lock and threads outside, in any interleaving: at most one thread is between `acquire`
-- and `release`.
pub mutual_exclusion :
    {t : Threads} (i j : ℕ)
    → Reach start t
    → t.place i ≡ Place.inside
    → t.place j ≡ Place.inside
    → i ≡ j
mutual_exclusion i j r at_i at_j =
    (Reach-IsExclusive (λ k e. absurd (ground arith)) r i at_i).1 j at_j
