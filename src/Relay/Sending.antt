-- ===== src/Relay/Sending.antt =====
-- The loop of handle_write (src/proxy/proxy.c) on one connection, against the record of the
-- traffic; and what follows it carries no bytes.
use epoll_proxy.Base.{
  ℕ, zero, suc, ◌<◌, ◌≡◌, refl, sym, ◌∙◌, ap, subst, List, ◌++◌, append_assoc, some, Bool, true,
  false, not, arith,
}
use epoll_proxy.Config.{Config, Connection, Buffer, Fd, max_connections}
use epoll_proxy.Kernel.{Os, IsPosix}
use epoll_proxy.Http
use epoll_proxy.Http.{Request}
use epoll_proxy.Buffer
use epoll_proxy.Buffer.{IoResult, count, error}
use epoll_proxy.Buffer.Refine.{IsValid, contents}
use epoll_proxy.Connection.{set_conn, timestamp_ms}
use epoll_proxy.Proxy.Lifecycle.{close, update_activity, get_timestamp_ms}
use epoll_proxy.Proxy.Write.{
  Exit, broke, returned, is_again, count_sent, count_reused, write_buffer, fail_write, until_empty,
  after_write, write_loop, refresh_events, reuse, check_requests, next_request, finish_response,
  is_finished, after_writing, is_limit_reached,
}
use epoll_proxy.State.{State, M, pure}
use epoll_proxy.Relay.Traffic.{IsRecorded}
use epoll_proxy.Relay.Yields.{Yields, stuck, yields, weaken-Yields, bind-Yields, branch-Yields}
use epoll_proxy.Relay.Silent.{refresh_events-IsSilent}
use epoll_proxy.Relay.Close.{close-IsShut, close_side-IsShut}
use epoll_proxy.Relay.Bytes.{WentOut, write_fd-WentOut}
use epoll_proxy.Relay.Write.{after_store-Yields}

module _ ⦃os : Os⦄ (rec : IsRecorded os) (i : ℕ) (hi : i < max_connections) where
  -- The traffic is as it was.
  abbrev pub IsStill : {A : Type 0} → State → A → State → Type 0
  IsStill s a t = rec.seen t.kernel ≡ rec.seen s.kernel

  refresh_events-IsStill : (s : State) → Yields (IsStill s) (refresh_events i s)
  refresh_events-IsStill s =
      let (a, k, e, same) = refresh_events-IsSilent rec i s in rw e (yields same)

  close-IsStill : (s : State) → Yields (IsStill s) (close (some i) s)
  close-IsStill s = weaken-Yields (λ _ t shut. shut.1) (close-IsShut rec i s hi)

  check_requests-IsStill : (s : State) → Yields (IsStill s) (check_requests i s)
  unfolding check_requests reuse
  check_requests-IsStill s =
      branch-Yields (is_limit_reached (s.config.connections i).requests_handled) (close (some i))
        (reuse i) (λ _. close-IsStill s)
        (λ _.
          refresh_events-IsStill
            (record s { config = record s.config { stats = count_reused s.config.stats } }))

  finish_response-IsStill :
      (finished : Bool) (s : State) → Yields (IsStill s) (finish_response finished i s)
  unfolding finish_response next_request
  finish_response-IsStill false s = refresh_events-IsStill s
  finish_response-IsStill true s =
      let conn = s.config.connections i in
      branch-Yields (not conn.keep_alive) (close (some i)) (next_request i) (λ _. close-IsStill s)
        (λ _. after_store-Yields conn.http_req Http.init s _ (λ heap. check_requests-IsStill _))

  pub after_writing-IsStill : (e : Exit) (s : State) → Yields (IsStill s) (after_writing i e s)
  unfolding after_writing
  after_writing-IsStill returned s = yields refl
  after_writing-IsStill broke s = finish_response-IsStill (is_finished s.config i) s

  module _ (fd : Fd) (total : List ℕ) where
    -- What went out at the socket and what waits for it.
    pub record IsSending (s : State) : Type 0 where
      pub fd_is : (s.config.connections i).fd ≡ fd
      pub valid : IsValid (s.config.connections i).write_buf
      pub sum : (rec.seen s.kernel).went fd ++ contents (s.config.connections i).write_buf ≡ total

    wrote-IsSending :
        (s : State) (b : Buffer) (k : os.Kernel)
        → IsSending s
        → WentOut (s.config.connections i).write_buf b fd (rec.seen s.kernel) (rec.seen k)
        → let conn : Connection = record (s.config.connections i) { write_buf = b } in
          IsSending (record s { config = set_conn s.config i conn; kernel = k })
    wrote-IsSending s b k q m =
        let conn : Connection = record (s.config.connections i) { write_buf = b } in
        let c : Config = set_conn s.config i conn in
        let same : (c.connections i).write_buf ≡ b = ground arith in
        let went = (rec.seen s.kernel).went fd in
        record {
          fd_is = ground (arith, q.fd_is);
          valid = subst IsValid (sym same) m.valid;
          sum =
              ap (λ buf. (rec.seen k).went fd ++ contents buf) same
              ∙ ap (λ xs. xs ++ contents b) m.went
              ∙ append_assoc went m.bytes (contents b)
              ∙ ap (λ xs. went ++ xs) (sym m.left)
              ∙ q.sum;
        }

    counted-IsSending :
        (s : State) (n now : ℕ) (k : os.Kernel)
        → rec.seen k ≡ rec.seen s.kernel
        → IsSending s
        → let conn : Connection = record (s.config.connections i) { last_active = now } in
          let c : Config = set_conn s.config i conn in
          IsSending (record s { config = record c { stats = count_sent n c.stats }; kernel = k })
    counted-IsSending s n now k e q =
        let conn : Connection = record (s.config.connections i) { last_active = now } in
        let c : Config = set_conn s.config i conn in
        let same : (c.connections i).write_buf ≡ (s.config.connections i).write_buf =
          ground arith in
        record {
          fd_is = ground (arith, q.fd_is);
          valid = subst IsValid (sym same) q.valid;
          sum =
              ap (λ buf. (rec.seen k).went fd ++ contents buf) same
              ∙ ap (λ t. t.went fd ++ contents (s.config.connections i).write_buf) e
              ∙ q.sum;
        }

    abbrev pub Leaving : Exit → State → Type 0
    Leaving broke t = IsSending t
    Leaving returned t = Unit

    after_write-Leaving :
        (rest : M Exit) (r : IoResult) (s : State)
        → IsSending s
        → ((t : State) → IsSending t → Yields Leaving (rest t))
        → Yields Leaving (after_write rest i r s)
    unfolding after_write until_empty fail_write update_activity get_timestamp_ms
    after_write-Leaving rest (error e) s q h =
        branch-Yields (is_again e) (pure broke) (fail_write i) (λ _. yields q)
          (λ _. bind-Yields (close_side-IsShut rec i _ hi) (λ _ t _. yields tt))
    after_write-Leaving rest (count zero) s q h = yields q
    after_write-Leaving rest (count (suc n)) s q h =
        let now = timestamp_ms (os.clock_gettime s.kernel).0 in
        let q' =
          counted-IsSending s (suc n) now (os.clock_gettime s.kernel).1 (rec.on_clock s.kernel) q in
        branch-Yields _ (pure broke) rest (λ _. yields q') (λ _. h _ q')

    pub write_loop-Leaving :
        IsPosix os → (fuel : ℕ) (s : State) → IsSending s → Yields Leaving (write_loop fuel i s)
    unfolding write_loop write_buffer
    write_loop-Leaving posix zero s q = stuck
    write_loop-Leaving posix (suc fuel) s q =
        let conn = s.config.connections i in
        let (r, b, k) = Buffer.write_fd os s.kernel conn.write_buf conn.fd in
        after_write-Leaving (write_loop fuel i) r _
          (wrote-IsSending s b k q
            (write_fd-WentOut rec posix s.kernel conn.write_buf conn.fd fd q.fd_is q.valid))
          (write_loop-Leaving posix fuel)
