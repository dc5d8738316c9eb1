-- ===== src/Relay/WriteBack.antt =====
-- handle_write (src/proxy/proxy.c) on the source of a way, and handle_error on either end.
use epoll_proxy.Base.{
  ℕ, zero, suc, List, leb, ◌<◌, ◌≡◌, ◌≢◌, refl, sym, ◌∙◌, ap, ◌++◌, inl, inr, ◌⊎◌, some, none, not,
  false, Bool-cases, ◌&&◌, arith, if◌then◌else◌,
}
use epoll_proxy.Config.{Connection, Buffer, Fd, closed, max_connections}
use epoll_proxy.Kernel.{Os}
use epoll_proxy.Buffer
use epoll_proxy.Buffer.{IoResult, count, error, write_fd}
use epoll_proxy.Connection.{set_conn, can_write}
use epoll_proxy.Proxy.Lifecycle.{close_pair}
use epoll_proxy.Proxy.Events.{is_http, count_error, close_side, handle_error}
use epoll_proxy.Proxy.Write.{
  Exit, broke, returned, is_again, count_sent, write_buffer, fail_write, until_empty, after_write,
  write_loop, finish_response, is_finished, after_writing, write_fuel, handle_write,
}
use epoll_proxy.State.{State, M, pure, done, ◌>>=◌}
use epoll_proxy.Relay.Traffic.{IsRecorded, same_fd, taken_of}
use epoll_proxy.Relay.Yields.{Yields, stuck, yields, weaken-Yields, bind-Yields, branch-Yields}
use epoll_proxy.Relay.Flow.{Way, IsFlowing, IsCut, IsCut-of_flow, SameWay-IsFlowing}
use epoll_proxy.Relay.Silent.{refresh_events-IsSilent}
use epoll_proxy.Relay.Close.{close_pair_both, close_side-IsShut}
use epoll_proxy.Relay.Read.{activity_flows}

same_fd-differs : (fd fd' : Fd) → fd ≢ fd' → same_fd fd fd' ≡ false
same_fd-differs none none ne = absurd (ne refl)
same_fd-differs none (some b) ne = refl
same_fd-differs (some a) none ne = refl
same_fd-differs (some a) (some b) ne = ground (arith, λ (e : a ≡ b). ne (ap some e))

-- What is written at another descriptor.
module _ ⦃os : Os⦄ (rec : IsRecorded os) (k : os.Kernel) (b : Buffer) (fd fd' : Fd)
    (ne : fd ≢ fd') where
  elsewhere :
      (xs : List ℕ)
      → let (_, k') = os.write k fd xs in
        ((rec.seen k').came ≡ (rec.seen k).came) × ((rec.seen k').went fd' ≡ (rec.seen k).went fd')
  elsewhere xs = (
    ap (λ t. t.came) (rec.on_write k fd xs),
    ap (λ t. t.went fd') (rec.on_write k fd xs)
        ∙ ap
            (λ here.
              if here
              then (rec.seen k).went fd' ++ taken_of xs (os.write k fd xs).0
              else (rec.seen k).went fd')
            (same_fd-differs fd fd' ne),
  )

  write_fd_elsewhere :
      let (_, _, k') = write_fd os k b fd in
      ((rec.seen k').came ≡ (rec.seen k).came) × ((rec.seen k').went fd' ≡ (rec.seen k).went fd')
  unfolding write_fd
  write_fd_elsewhere = elim (Bool-cases (leb b.len b.pos)) [
    | inl e ↦ rw e (refl, refl)
    | inr e ↦ rw e (elsewhere _)
  ]

module _ ⦃os : Os⦄ (rec : IsRecorded os) (p : Way) where
  -- The pair is whole, or both ends are closed.
  abbrev pub WholeOrShut : State → Type 0
  WholeOrShut t =
      IsFlowing rec p t ⊎ (IsCut rec p t × ((t.config.connections p.source).state ≡ closed))

  wrote_elsewhere-IsFlowing :
      (s : State) (b : Buffer) (k : os.Kernel)
      → ((rec.seen k).came ≡ (rec.seen s.kernel).came)
        × ((rec.seen k).went p.target_fd ≡ (rec.seen s.kernel).went p.target_fd)
      → IsFlowing rec p s
      → let conn : Connection = record (s.config.connections p.source) { write_buf = b } in
        IsFlowing rec p (record s { config = set_conn s.config p.source conn; kernel = k })
  wrote_elsewhere-IsFlowing s b k e f =
      SameWay-IsFlowing rec p s _
        (record {
          same_mode = refl;
          same_source_fd = ground arith;
          same_target_fd = ground arith;
          same_peer = ground arith;
          same_client = ground arith;
          same_read = ground arith;
          same_write = ground (arith, f.linked.apart);
        })
        (ap (λ g. g p.source_fd) e.0) e.1 f

  module _ (hs : p.source < max_connections) (ht : p.target < max_connections) where
    close_source-WholeOrShut :
        (s s' : State)
        → IsFlowing rec p s
        → s'.config.connections ≡ s.config.connections
        → rec.seen s'.kernel ≡ rec.seen s.kernel
        → Yields (λ _ t. WholeOrShut t) (close_pair (some p.source) s')
    close_source-WholeOrShut s s' f e same =
        weaken-Yields
          (λ _ t shut. inr (IsCut-of_flow rec p s t shut.1.0 (shut.1.1 ∙ same) f, shut.0.0))
          (close_pair_both rec p.source p.target s'
            (ap (λ c. (c p.source).peer) e ∙ f.linked.peer_is) hs ht)

    -- The source is no client in HTTP mode, so both ends are closed.
    close_side-WholeOrShut :
        (s s' : State)
        → IsFlowing rec p s
        → s'.config.connections ≡ s.config.connections
        → s'.config.mode ≡ s.config.mode
        → rec.seen s'.kernel ≡ rec.seen s.kernel
        → Yields (λ _ t. WholeOrShut t) (close_side p.source s')
    unfolding close_side
    close_side-WholeOrShut s s' f e e' same =
        let plain : (is_http s'.config.mode && (s'.config.connections p.source).is_client) ≡ false =
          ap (λ m. is_http m && (s'.config.connections p.source).is_client) e'
          ∙ ap (λ c. is_http s.config.mode && (c p.source).is_client) e
          ∙ f.linked.plain in
        rw plain (close_source-WholeOrShut s s' f e same)

    pub handle_error-WholeOrShut :
        (s : State) → IsFlowing rec p s → Yields (λ _ t. WholeOrShut t) (handle_error p.source s)
    unfolding handle_error
    handle_error-WholeOrShut s f =
        close_side-WholeOrShut s _ f refl refl
          (rec.on_error s.kernel (s.config.connections p.source).fd)

    pub handle_error-IsCut :
        (s : State) → IsFlowing rec p s → Yields (λ _ t. IsCut rec p t) (handle_error p.target s)
    unfolding handle_error
    handle_error-IsCut s f =
        weaken-Yields
          (λ _ t shut.
            IsCut-of_flow rec p s t shut.0
              (shut.1 ∙ rec.on_error s.kernel (s.config.connections p.target).fd) f)
          (close_side-IsShut rec p.target _ ht)

    -- How the loop ends: a `break` leaves the pair whole.
    abbrev Ends : Exit → State → Type 0
    Ends broke t = IsFlowing rec p t
    Ends returned t = WholeOrShut t

    after_write-Ends :
        (rest : M Exit) (r : IoResult) (s : State)
        → IsFlowing rec p s
        → ((t : State) → IsFlowing rec p t → Yields Ends (rest t))
        → Yields Ends (after_write rest p.source r s)
    unfolding after_write until_empty fail_write
    after_write-Ends rest (error e) s f h =
        branch-Yields (is_again e) (pure broke) (fail_write p.source) (λ _. yields f)
          (λ _.
            bind-Yields
              (close_side-WholeOrShut s
                (record s { config = record s.config { stats = count_error s.config.stats } }) f
                refl refl refl)
              (λ _ t w. yields w))
    after_write-Ends rest (count zero) s f h = yields f
    after_write-Ends rest (count (suc n)) s f h =
        activity_flows rec p p.source (count_sent (suc n)) s (λ _. until_empty rest p.source) f
          (λ t g.
            branch-Yields (Buffer.is_empty (t.config.connections p.source).write_buf) (pure broke)
              rest (λ _. yields g) (λ _. h t g))

    write_loop-Ends :
        (fuel : ℕ) (s : State) → IsFlowing rec p s → Yields Ends (write_loop fuel p.source s)
    unfolding write_loop write_buffer
    write_loop-Ends zero s f = stuck
    write_loop-Ends (suc fuel) s f =
        let conn = s.config.connections p.source in
        let (r, b, k) = Buffer.write_fd os s.kernel conn.write_buf conn.fd in
        after_write-Ends (write_loop fuel p.source) r _
          (wrote_elsewhere-IsFlowing s b k
            (write_fd_elsewhere rec s.kernel conn.write_buf conn.fd p.target_fd
              (λ e. f.linked.fds_apart (sym f.linked.source_is ∙ e)))
            f)
          (write_loop-Ends fuel)

    -- No response is finished here, since the source is no client in HTTP mode.
    after_writing-WholeOrShut :
        (e : Exit) (s : State)
        → Ends e s
        → Yields (λ _ t. WholeOrShut t) (after_writing p.source e s)
    unfolding after_writing finish_response is_finished
    after_writing-WholeOrShut returned s w = yields w
    after_writing-WholeOrShut broke s f =
        let conn = s.config.connections p.source in
        let open_end : is_finished s.config p.source ≡ false = ground (arith, f.linked.plain) in
        let (a, k, e, same) = refresh_events-IsSilent rec p.source s in
        rw (open_end, e)
          (yields (
            inl (
              SameWay-IsFlowing rec p s (record s { kernel = k })
                (record {
                  same_mode = refl;
                  same_source_fd = refl;
                  same_target_fd = refl;
                  same_peer = refl;
                  same_client = refl;
                  same_read = refl;
                  same_write = refl;
                })
                (ap (λ t. t.came p.source_fd) same) (ap (λ t. t.went p.target_fd) same) f)))

    pub handle_write-WholeOrShut :
        (s : State) → IsFlowing rec p s → Yields (λ _ t. WholeOrShut t) (handle_write p.source s)
    unfolding handle_write
    handle_write-WholeOrShut s f =
        branch-Yields (not (can_write (s.config.connections p.source))) done
          (write_loop write_fuel p.source >>= after_writing p.source) (λ _. yields (inl f))
          (λ _.
            bind-Yields (write_loop-Ends write_fuel s f) (λ e t l. after_writing-WholeOrShut e t l))
