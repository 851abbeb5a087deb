-- ===== src/User/Sleep.antt =====
-- `sleep` of src/0x01/pkg/lib/src/syscall.rs. A `Duration` is its milliseconds; `saturating_sub` stops
-- at 0. The loop has fuel; `endless` is a loop that its fuel does not end.
use yat_sen_os.Prelude.{
  ℕ, zero, suc, ◌+◌, ◌-◌, ◌≤◌, ◌<◌, ◌≡◌, refl, true, false, ltb, Outcome, ok, endless, ◌>>=◌,
  Bool-cases, inl, inr, arith,
}

module _ {World : Type 0} (sys_time : World → Outcome (ℕ × World)) where
  unfoldable pub sleep_loop : ℕ → ℕ → ℕ → ℕ → World → Outcome World
  sleep_loop zero start dur current w = endless
  sleep_loop (suc fuel) start dur current w = elim (ltb (current - start) dur) [
    | true ↦ do (now, w') ← sys_time w; sleep_loop fuel start dur now w'
    | false ↦ ok w
  ]

  unfoldable pub sleep : ℕ → ℕ → World → Outcome World
  unfolding sleep_loop
  sleep fuel millisecs w = do (start, w') ← sys_time w; sleep_loop fuel start millisecs start w'

-- A clock: each reading tells the time of the world, and moves it on.
module _ {World : Type 0} (sys_time : World → Outcome (ℕ × World)) (time : World → ℕ)
    (later : World → World) (tells : (w : World) → sys_time w ≡ ok (time w, later w)) where
  abbrev pub readings : ℕ → World → World
  readings zero w = w
  readings (suc n) w = readings n (later w)

  -- The loop, entered after a reading at `w`.
  sleep_loop-returns :
      (k fuel start dur : ℕ) (w : World)
      → k < fuel
      → start + dur ≤ time (readings k w)
      → (j : ℕ) × (j ≤ k)
        × (sleep_loop sys_time fuel start dur (time w) (later w) ≡ ok (readings (suc j) w))
        × (dur ≤ time (readings j w) - start)
  unfolding sleep_loop
  sleep_loop-returns k zero start dur w small late = absurd (omega arith)
  sleep_loop-returns zero (suc fuel) start dur w small late =
      let done : ltb (time w - start) dur ≡ false = ground arith in
      (0, omega arith, rw (done, sleep_loop) refl, ground arith)
  sleep_loop-returns (suc k) (suc fuel) start dur w small late =
      elim (Bool-cases (ltb (time w - start) dur)) [
        | inl on ↦
            let (j, le, runs, reached) =
              sleep_loop-returns k fuel start dur (later w) (omega arith) late in
            (suc j, omega arith, rw (on, sleep_loop, tells (later w)) runs, reached)
        | inr done ↦ (0, omega arith, rw (done, sleep_loop) refl, ground arith)
      ]

  -- Where the clock, read again and again, comes to `millisecs` after the first reading at the k-th
  -- reading after it, `sleep` returns: at one of the first k readings after the first one, or at the
  -- first one, and that reading is at least `millisecs` after the first.
  pub sleep-returns :
      (k fuel millisecs : ℕ) (w : World)
      → k < fuel
      → time w + millisecs ≤ time (readings k w)
      → (j : ℕ) × (j ≤ k)
        × (sleep sys_time fuel millisecs w ≡ ok (readings (suc j) w))
        × (millisecs ≤ time (readings j w) - time w)
  unfolding sleep
  sleep-returns k fuel millisecs w small late =
      rw (tells w) (sleep_loop-returns k fuel (time w) millisecs w small late)

  module _ (day : ℕ) (within : (w : World) → time w < day) where
    sleep_loop-endless :
        (fuel start dur current : ℕ) (w : World)
        → day ≤ start + dur
        → start < day
        → current < day
        → sleep_loop sys_time fuel start dur current w ≡ endless
    unfolding sleep_loop
    sleep_loop-endless zero start dur current w far begun early = refl
    sleep_loop-endless (suc fuel) start dur current w far begun early =
        let on : ltb (current - start) dur ≡ true = ground arith in
        rw (on, sleep_loop, tells w)
          (sleep_loop-endless fuel start dur (time w) (later w) far begun (within w))

    -- On a clock that never reaches `day`, such as a time of the day in milliseconds, a `sleep` that
    -- would end at `day` or later does not end, however long it runs.
    pub sleep-endless :
        (fuel millisecs : ℕ) (w : World)
        → day ≤ time w + millisecs
        → sleep sys_time fuel millisecs w ≡ endless
    unfolding sleep
    sleep-endless fuel millisecs w far =
        rw (tells w)
          (sleep_loop-endless fuel (time w) millisecs (time w) (later w) far (within w) (within w))
