-- ===== src/Proc/Calls/Returns.antt =====
-- `switch` returns: the process that it interrupts can go on, if no other can.
use yat_sen_os.Prelude.{
  ℕ, suc, ◌+◌, ◌≡◌, ◌≢◌, refl, sym, subst, true, false, some, List, [], ◌∷◌, inl, inr, arith,
  Bool-cases, Option-cases, ok, Outcome, is_some, length, ℕ_discrete,
}
use Prim.Native.Nat.add
use yat_sen_os.BTreeMap.{get, has, has-snoc, get-modify}
use yat_sen_os.Proc.Context.{ProcessContext}
use yat_sen_os.Proc.Memory.{ProcessMemory}
use yat_sen_os.Proc.Process
use yat_sen_os.Proc.Process.{ProcessInner, ProgramStatus}
use yat_sen_os.Proc.Kernel.{
  Kernel, get_pid, get_proc, current_proc, push_ready, write_proc, save_current, switch_loop,
  switch_next,
}
use yat_sen_os.Proc.Kernel.Switch.{ready_at, loop_ready, loop_skip, pop_cons}
use yat_sen_os.Proc.Calls.{go_next, switch}

module _ (v : ProcessMemory) where
  -- A process that is ready has its memory.
  abbrev pub Armed : Kernel v → Type 0
  Armed k =
      (q : ℕ) (p : ProcessInner v)
      → get q k.processes ≡ some p
      → Process.is_ready v p ≡ true
      → is_some p.proc_vm ≡ true

  abbrev Returned : Outcome (ℕ × ProcessContext × Kernel v) → Type 0
  Returned r = (pid : ℕ) × (c : ProcessContext) × (k : Kernel v) × (r ≡ ok (pid, c, k))

  loop_returns :
      (pids : List ℕ) (fuel pid : ℕ) (context : ProcessContext) (k : Kernel v)
      → k.ready_queue ≡ pids
      → has pid pids ≡ true
      → ready_at v k pid ≡ true
      → Armed k
      → Returned (switch_loop v (length pids + fuel) context k)
  unfolding has
  loop_returns [] fuel pid context k q queued ready armed = absurd (ground arith)
  loop_returns (s ∷ ss) fuel pid context k q queued ready armed =
      elim (Bool-cases (ready_at v k s)) [
        | inl turn ↦ elim (Option-cases (get s k.processes)) [
          | inl gone ↦ absurd (ground arith)
          | inr (p, here) ↦ elim (Option-cases p.proc_vm) [
            | inl no_vm ↦ absurd (ground (arith, armed s p here))
            | inr (vm, has_vm) ↦
                let (k', e, _, _, _) =
                  loop_ready v (length ss + fuel) s p vm context k (record k { ready_queue = ss })
                    (pop_cons v s ss k q) here (ground arith) has_vm in
                rw (add.suc (length ss) fuel) (s, p.context, k', e)
          ]
        ]
        | inr no_turn ↦
            let k1 : Kernel v = record k { ready_queue = ss } in
            rw (add.suc (length ss) fuel) (
              rw (loop_skip v (length ss + fuel) s context k k1 (pop_cons v s ss k q) no_turn) (
                loop_returns ss fuel pid context k1 refl (ground (arith, ready, no_turn)) ready
                  armed))
      ]

  module _ (context : ProcessContext) (k : Kernel v) (p : ProcessInner v) where
    store : ProcessInner v → ProcessInner v
    store q = Process.save v context (Process.tick v q)

    store-vm : (store p).proc_vm ≡ p.proc_vm
    unfolding store Process.save Process.tick Process.pause Process.is_dead
    store-vm = ground arith

    saved : Kernel v
    saved = write_proc v k.current store k

    save_current-saved :
        k.current ≢ 0 → get k.current k.processes ≡ some p → save_current v context k ≡ ok saved
    unfolding save_current current_proc get_pid get_proc saved store
    save_current-saved some_one here = ground arith

    -- The process that was saved is ready, and has the memory that it had.
    saved-ready :
        get k.current k.processes ≡ some p
        → Process.is_dead v p ≡ false
        → ready_at v saved k.current ≡ true
    unfolding saved store write_proc Process.save Process.tick Process.is_dead Process.pause
        Process.is_ready
    saved-ready here alive = ground (arith, get-modify k.current k.current store k.processes)

    saved-Armed :
        get k.current k.processes ≡ some p → is_some p.proc_vm ≡ true → Armed k → Armed saved
    unfolding saved write_proc
    saved-Armed here vm armed q p' e turn = elim (ℕ_discrete k.current q) [
      | yes same ↦
          let made : p' ≡ store p = ground (arith, get-modify k.current q store k.processes) in
          subst (λ r. is_some r.proc_vm ≡ true) (sym made) (rw store-vm vm)
      | no other ↦ armed q p' (ground (arith, get-modify k.current q store k.processes)) turn
    ]

  switch-run :
      (context c : ProcessContext) (next : ℕ) (k s k' : Kernel v)
      → save_current v context k ≡ ok s
      → get_pid v s ≡ ok k.current
      → switch_next v context (push_ready v k.current s) ≡ ok (next, c, k')
      → switch v context k ≡ ok (c, k')
  unfolding switch go_next
  switch-run context c next k s k' e1 e2 e3 = rw (e1, e2, e3)

  -- A timer interrupt returns: where the processor has a current process, which is known and not
  -- dead, and this one and every process that is ready has its memory, `switch` returns, so it
  -- neither panics nor loops.
  pub switch-returns :
      (context : ProcessContext) (k : Kernel v) (p : ProcessInner v)
      → k.current ≢ 0
      → get k.current k.processes ≡ some p
      → Process.is_dead v p ≡ false
      → is_some p.proc_vm ≡ true
      → Armed k
      → (c : ProcessContext) × (k' : Kernel v) × (switch v context k ≡ ok (c, k'))
  unfolding push_ready switch_next
  switch-returns context k p some_one here alive vm armed =
      let s : Kernel v = saved context k p in
      let pushed : Kernel v = push_ready v k.current s in
      let last : has k.current pushed.ready_queue ≡ true =
        ground (arith, has-snoc k.current k.current s.ready_queue) in
      let (next, c, k', e) =
        loop_returns pushed.ready_queue 1 k.current context pushed refl last
          (saved-ready context k p here alive) (saved-Armed context k p here vm armed) in
      let rounds : suc (length pushed.ready_queue) ≡ length pushed.ready_queue + 1 = omega arith in
      let e' : switch_next v context pushed ≡ ok (next, c, k') =
        subst (λ n. switch_loop v n context pushed ≡ ok (next, c, k')) (sym rounds) e in
      let same : get_pid v s ≡ ok k.current = unfold saved write_proc get_pid in ground arith in
      (
        c,
        k',
        switch-run context c next k s k' (save_current-saved context k p some_one here) same e',
      )
