-- ===== src/Safety/Drain.antt =====
-- The loop of handle_write (src/proxy/proxy.c) empties the buffer where the kernel takes bytes.
use epoll_proxy.Base.{ℕ, zero, suc, ◌<◌, ◌≡◌, refl, List, [], arith, length, ◌⊎◌, inl, inr, subst}
use native.Mathlib.Decide.{dec_lt}
use epoll_proxy.Config.{Buffer, Connection, Fd}
use epoll_proxy.Kernel.{Os, IsPosix, wrote}
use epoll_proxy.Buffer
use epoll_proxy.Buffer.{IoResult, count, error}
use epoll_proxy.Buffer.Refine.{IsValid, contents, length-contents, contents-empty}
use epoll_proxy.Buffer.Io.{Removes, write_fd-Removes}
use epoll_proxy.Buffer.Progress.{write_fd_progress, write_fd_empty}
use epoll_proxy.Connection.{set_conn}
use epoll_proxy.Connection.Pool.Steps.{proper}
use epoll_proxy.State.{State, M, pure}
use epoll_proxy.Proxy.Write.{
  Exit, broke, count_sent, write_buffer, after_write, until_empty, write_loop, write_fuel,
}
use epoll_proxy.Safety.{IsBusy, Ensures, ensures}
use epoll_proxy.Safety.Rules.{branch}
use epoll_proxy.Safety.Assign.{set_stats-IsValid}
use epoll_proxy.Safety.Write.{waiting, touch-IsBusy, activity-IsBusy}

-- A kernel whose `write` takes at least one byte of what it is offered.
pub record IsTaking (os : Os) : Type 0 where
  pub takes :
      (k : os.Kernel) (fd : Fd) (xs : List ℕ)
      → 0 < length xs
      → (n : ℕ) × ((os.write k fd xs).0 ≡ wrote (suc n))

-- How `buffer_write_fd` answers: bytes were taken, or there were none.
write_fd-Takes :
    (os : Os)
    → IsPosix os
    → IsTaking os
    → (k : os.Kernel) (b : Buffer) (fd : Fd) → IsValid b
    → let (r, b', _) = Buffer.write_fd os k b fd in
      ((n : ℕ) × (r ≡ count (suc n))) ⊎ ((r ≡ count 0) × (contents b' ≡ []))
write_fd-Takes os posix taking k b fd v = elim (dec_lt b.pos b.len) [
  | yes some_wait ↦
      let (_, removed, _) = write_fd-Removes os posix k b fd v some_wait in
      let (n, e) = taking.takes k fd (contents b) (omega (arith, length-contents v)) in
      let (r, b', _) = Buffer.write_fd os k b fd in
      inl (n, (subst (λ reply. Removes b reply r b') e removed).0)
  | no empty ↦
      rw (write_fd_empty os posix k b fd v (omega arith))
        (inr (refl, contents-empty b (omega arith)))
]

module _ ⦃os : Os⦄ where
  -- The connection is still in use and nothing waits to be written to it.
  abbrev pub IsDrained : ℕ → Exit → State → Type 0
  IsDrained i e s = (e ≡ broke) × IsBusy i s × (contents (s.config.connections i).write_buf ≡ [])

  after_write-IsDrained :
      (rest : M Exit) (i n : ℕ) (s : State)
      → IsBusy i s
      → ((s' : State)
          → IsBusy i s'
          → waiting s'.config i ≡ waiting s.config i
          → Ensures (IsDrained i) (rest s'))
      → Ensures (IsDrained i) (after_write rest i (count (suc n)) s)
  unfolding after_write until_empty
  after_write-IsDrained rest i n s b h = activity-IsBusy i s _ b λ now k b'.
      let conn : Connection = record (s.config.connections i) { last_active = now } in
      let buf = ((set_conn s.config i conn).connections i).write_buf in
      let counted = set_stats-IsValid (count_sent (suc n) s.config.stats) b'.0 refl in
      branch (Buffer.is_empty buf) (pure broke) rest
        (λ e. ensures (refl, (counted, b'.1), contents-empty buf (ground arith)))
        (λ _. h _ (counted, b'.1) (ground arith))

  drain_loop :
      IsPosix os
      → IsTaking os
      → (fuel i : ℕ) (s : State) → IsBusy i s
      → waiting s.config i < fuel
      → Ensures (IsDrained i) (write_loop fuel i s)
  unfolding write_loop write_buffer after_write
  drain_loop posix taking zero i s b m = absurd (omega arith)
  drain_loop posix taking (suc fuel) i s b m =
      let conn = s.config.connections i in
      let p = proper b.0.sound i b.1.0 in
      let (valid, progress) =
        write_fd_progress os posix s.kernel conn.write_buf conn.fd p.writing in
      let (r, buf, k) = Buffer.write_fd os s.kernel conn.write_buf conn.fd in
      let b' =
        touch-IsBusy i (record conn { write_buf = buf }) s b
          (record { reading = p.reading; writing = valid; peer_in = p.peer_in })
          (record { state = refl; client = refl; request = refl }) k in
      elim (write_fd-Takes os posix taking s.kernel conn.write_buf conn.fd p.writing) [
        | inl (n, e) ↦ rw e (
            after_write-IsDrained (write_loop fuel i) i n _ b'
              (λ s' b'' same. drain_loop posix taking fuel i s' b'' (ground (arith, progress n e))))
        | inr (e, empty) ↦ rw e (ensures (refl, b', ground (arith, empty)))
      ]

  -- With a kernel that takes at least one byte of each write and counts as POSIX allows, the loop of
  -- `handle_write` on a connection in use, with the fuel that `handle_write` gives it, ends by
  -- `break` with nothing left in the write buffer.
  pub write_loop-IsDrained :
      IsPosix os
      → IsTaking os
      → (i : ℕ) (s : State) → IsBusy i s
      → Ensures (IsDrained i) (write_loop write_fuel i s)
  write_loop-IsDrained posix taking i s b =
      let v = (proper b.0.sound i b.1.0).writing in
      drain_loop posix taking write_fuel i s b (omega (arith, length-contents v, v.inside))
