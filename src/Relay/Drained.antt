-- ===== src/Relay/Drained.antt =====
-- The loop of handle_write (src/proxy/proxy.c) writes everything out.
use epoll_proxy.Base.{ℕ, ◌≡◌, refl, sym, ◌∙◌, ap, ◌++◌, append-nil, arith, []}
use epoll_proxy.Kernel.{Os, IsPosix}
use epoll_proxy.Buffer.Refine.{contents}
use epoll_proxy.Connection.Pool.Steps.{proper}
use epoll_proxy.Proxy.Write.{Exit, broke, returned, write_loop, write_fuel}
use epoll_proxy.State.{State}
use epoll_proxy.Safety.{IsBusy, Ensures}
use epoll_proxy.Safety.Rules.{weaken}
use epoll_proxy.Safety.Drain.{IsTaking, IsDrained, write_loop-IsDrained}
use epoll_proxy.Relay.Traffic.{IsRecorded}
use epoll_proxy.Relay.Yields.{total_of}
use epoll_proxy.Relay.Sending.{Leaving, write_loop-Leaving}

module _ ⦃os : Os⦄ (rec : IsRecorded os) (i : ℕ) where
  -- The connection is still in use, nothing waits to be written to it, and exactly what waited has
  -- gone out at its descriptor.
  pub record IsWrittenOut (s : State) (e : Exit) (t : State) : Type 0 where
    pub by_break : e ≡ broke
    pub busy : IsBusy i t
    pub empty : contents (t.config.connections i).write_buf ≡ []
    pub went_out :
        let conn = s.config.connections i in
        (rec.seen t.kernel).went conn.fd
        ≡ (rec.seen s.kernel).went conn.fd ++ contents conn.write_buf

  -- With a kernel that records its traffic, takes at least one byte of each write and counts as
  -- POSIX allows, the loop of `handle_write` on a connection in use, with the fuel that
  -- `handle_write` gives it, ends by `break`; the connection is still in use, its write buffer is
  -- empty, and exactly the bytes that waited have gone out at its descriptor, in their order.
  pub write_loop-IsWrittenOut :
      IsPosix os
      → IsTaking os
      → (s : State) → IsBusy i s
      → Ensures (λ e t. IsWrittenOut s e t) (write_loop write_fuel i s)
  write_loop-IsWrittenOut posix taking s b =
      let conn = s.config.connections i in
      let went = (rec.seen s.kernel).went conn.fd in
      weaken (λ e t q. written e t q)
        (total_of (write_loop-IsDrained posix taking i s b) (
          write_loop-Leaving rec i b.1.0 conn.fd (went ++ contents conn.write_buf) posix write_fuel
            s (record { fd_is = refl; valid = (proper b.0.sound i b.1.0).writing; sum = refl })))
    where
      written :
          (e : Exit) (t : State)
          → IsDrained i e t
            × Leaving rec i b.1.0
                (s.config.connections i).fd
                ((rec.seen s.kernel).went (s.config.connections i).fd
                  ++ contents (s.config.connections i).write_buf)
                e
                t
          → IsWrittenOut s e t
      written broke t (drained, sending) = record {
        by_break = refl;
        busy = drained.1;
        empty = drained.2;
        went_out =
            sym (append-nil _)
            ∙ ap (λ xs. (rec.seen t.kernel).went (s.config.connections i).fd ++ xs) (sym drained.2)
            ∙ sending.sum;
      }
      written returned t (drained, sending) = absurd (ground (arith, drained.0))
