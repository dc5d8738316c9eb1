-- ===== src/Relay/Read.antt =====
-- handle_read and handle_read_tcp (src/proxy/proxy.c) on the source of a way.
use epoll_proxy.Base.{
  ℕ, zero, suc, ◌-◌, min, ◌<◌, ◌≡◌, refl, sym, ◌∙◌, ap, ◌++◌, inl, inr, some, not, ◌&&◌, arith,
  append_assoc, length, take, if◌then◌else◌,
}
use epoll_proxy.Config.{Config, Connection, Stats, buffer_size, max_connections}
use epoll_proxy.Kernel.{Os, IsPosix}
use epoll_proxy.Buffer
use epoll_proxy.Buffer.{IoResult, count, error}
use epoll_proxy.Buffer.Refine.{contents}
use epoll_proxy.Connection.{can_read, is_valid, timestamp_ms}
use epoll_proxy.Proxy.Forward.{forward_data}
use epoll_proxy.Proxy.Forward.Stream.{forward_data_stream}
use epoll_proxy.Proxy.Lifecycle.{close_pair, update_activity, get_timestamp_ms}
use epoll_proxy.Proxy.Events.{is_http, count_error}
use epoll_proxy.Proxy.Write.{Exit, broke, returned, is_again}
use epoll_proxy.Proxy.Read.{
  count_received, read_buffer, forward, after_forward, after_read_tcp, read_loop_tcp, refresh_if,
  read_fuel, handle_read_tcp, handle_read_http_client, handle_read,
}
use epoll_proxy.State.{State, M, pure, done, put_stats, ◌>>=◌, ◌>>◌}
use epoll_proxy.Relay.Traffic.{IsRecorded}
use epoll_proxy.Relay.Yields.{Yields, stuck, yields, bind-Yields, branch-Yields}
use epoll_proxy.Relay.Flow.{
  Way, on_way, IsLinked, IsFlowing, Outcome, SameWay-IsFlowing, IsCut-of_flow, went, silent-Outcome,
}
use epoll_proxy.Relay.Silent.{refresh_events-IsSilent}
use epoll_proxy.Relay.Close.{close_pair_both}
use epoll_proxy.Relay.Bytes.{read_fd-CameIn}
use epoll_proxy.Relay.Steps.{touched-SameWay, CameIn-IsFlowing}

-- What `forward_data` leaves alone.
record SameEnds (conn conn' : Connection) : Type 0 where
  same_fd : conn'.fd ≡ conn.fd
  same_peer : conn'.peer ≡ conn.peer
  same_client : conn'.is_client ≡ conn.is_client

forward_data-SameEnds :
    (c : Config) (i j k : ℕ)
    → SameEnds (c.connections k) ((forward_data c (some i) (some j)).1.connections k)
unfolding forward_data
forward_data-SameEnds c i j k = record {
  same_fd = ground arith;
  same_peer = ground arith;
  same_client = ground arith;
}

mode-forward_data : (c : Config) (i j : ℕ) → (forward_data c (some i) (some j)).1.mode ≡ c.mode
unfolding forward_data
mode-forward_data c i j = ground arith

abbrev forwarded : Way → Config → Config
forwarded p c = (forward_data c (some p.source) (some p.target)).1

forwarded-IsLinked : (p : Way) (c : Config) → IsLinked p c → IsLinked p (forwarded p c)
forwarded-IsLinked p c l =
    let (_, _, _, reading, writing) = forward_data_stream c p.source p.target l.reading l.writing in
    let from = forward_data-SameEnds c p.source p.target p.source in
    record {
      apart = l.apart;
      fds_apart = l.fds_apart;
      source_is = from.same_fd ∙ l.source_is;
      target_is = (forward_data-SameEnds c p.source p.target p.target).same_fd ∙ l.target_is;
      peer_is = from.same_peer ∙ l.peer_is;
      plain = rw (mode-forward_data c p.source p.target, from.same_client) l.plain;
      reading = reading;
      writing = writing;
    }

on_way-forwarded :
    (p : Way) (c : Config)
    → IsLinked p c
    → on_way p.source p.target (forwarded p c) ≡ on_way p.source p.target c
on_way-forwarded p c l =
    let (_, joined, left, _, _) = forward_data_stream c p.source p.target l.reading l.writing in
    let wait = (c.connections p.source).read_buf in
    let out = (c.connections p.target).write_buf in
    let bytes = take (min (length (contents wait)) (buffer_size - out.len)) (contents wait) in
    let rest = contents ((forwarded p c).connections p.source).read_buf in
    ap (λ xs. xs ++ rest) joined
    ∙ append_assoc (contents out) bytes rest
    ∙ ap (λ xs. contents out ++ xs) (sym left)

module _ ⦃os : Os⦄ (rec : IsRecorded os) (p : Way) where
  forwarded-IsFlowing :
      (s : State) → IsFlowing rec p s → IsFlowing rec p (record s { config = forwarded p s.config })
  forwarded-IsFlowing s f = record {
    linked = forwarded-IsLinked p s.config f.linked;
    new = f.new;
    arrived = f.arrived;
    in_order = ap (λ xs. went rec p s ++ xs) (on_way-forwarded p s.config f.linked) ∙ f.in_order;
  }

  -- `update_activity` and the statistics carry nothing.
  pub activity_flows :
      {B : Type 0} {Q : B → State → Type 0} (i : ℕ) (count_it : Stats → Stats) (s : State)
      (f : Unit {0} → M B)
      → IsFlowing rec p s
      → ((s' : State) → IsFlowing rec p s' → Yields Q (f tt s'))
      → Yields Q ((update_activity i >>= λ _. put_stats count_it >>= f) s)
  unfolding update_activity get_timestamp_ms
  activity_flows i count_it s f w h =
      let now = timestamp_ms (os.clock_gettime s.kernel).0 in
      h _ (
        SameWay-IsFlowing rec p s _ (touched-SameWay p s.config i now (count_it s.config.stats))
          (ap (λ t. t.came p.source_fd) (rec.on_clock s.kernel))
          (ap (λ t. t.went p.target_fd) (rec.on_clock s.kernel)) w)

  module _ (hs : p.source < max_connections) (ht : p.target < max_connections) where
    close_source-IsCut :
        (s s' : State)
        → IsFlowing rec p s
        → s'.config.connections ≡ s.config.connections
        → rec.seen s'.kernel ≡ rec.seen s.kernel
        → Yields (λ _ t. Outcome rec p t) ((close_pair (some p.source) >> pure returned) s')
    close_source-IsCut s s' f e same =
        bind-Yields
          (close_pair_both rec p.source p.target s'
            (ap (λ c. (c p.source).peer) e ∙ f.linked.peer_is) hs ht)
          (λ _ t shut. yields (inr (IsCut-of_flow rec p s t shut.1.0 (shut.1.1 ∙ same) f)))

    after_forward-Outcome :
        (rest : M Exit) (s : State)
        → IsFlowing rec p s
        → ((t : State) → IsFlowing rec p t → Yields (λ _ t. Outcome rec p t) (rest t))
        → Yields (λ _ t. Outcome rec p t) ((forward p.source >>= after_forward rest p.source) s)
    unfolding forward after_forward
    after_forward-Outcome rest s f h =
        let (result, _, _, _, _) =
          forward_data_stream s.config p.source p.target f.linked.reading f.linked.writing in
        rw (f.linked.peer_is, result, after_forward)
          (h (record s { config = forwarded p s.config }) (forwarded-IsFlowing s f))

    after_read-Outcome :
        (rest : M Exit) (r : IoResult) (s : State)
        → IsFlowing rec p s
        → ((t : State) → IsFlowing rec p t → Yields (λ _ t. Outcome rec p t) (rest t))
        → Yields (λ _ t. Outcome rec p t) (after_read_tcp rest p.source r s)
    unfolding after_read_tcp
    after_read-Outcome rest (error e) s f h =
        branch-Yields (is_again e) (pure broke)
          (put_stats count_error >> (close_pair (some p.source) >> pure returned))
          (λ _. yields (inl f))
          (λ _.
            close_source-IsCut s
              (record s { config = record s.config { stats = count_error s.config.stats } }) f refl
              refl)
    after_read-Outcome rest (count zero) s f h = close_source-IsCut s s f refl refl
    after_read-Outcome rest (count (suc n)) s f h =
        activity_flows p.source (count_received (suc n)) s
          (λ _. forward p.source >>= after_forward rest p.source) f
          (λ t g. after_forward-Outcome rest t g h)

    read_loop_tcp-Outcome :
        IsPosix os
        → (fuel : ℕ) (s : State) → IsFlowing rec p s
        → Yields (λ _ t. Outcome rec p t) (read_loop_tcp fuel p.source s)
    unfolding read_loop_tcp read_buffer
    read_loop_tcp-Outcome posix zero s f = stuck
    read_loop_tcp-Outcome posix (suc fuel) s f =
        let conn = s.config.connections p.source in
        let (r, b, k) = Buffer.read_fd os s.kernel conn.read_buf conn.fd in
        after_read-Outcome (read_loop_tcp fuel p.source) r _
          (CameIn-IsFlowing rec p s b k f (
            read_fd-CameIn rec posix s.kernel conn.read_buf conn.fd p.source_fd f.linked.source_is
              f.linked.reading))
          (read_loop_tcp-Outcome posix fuel)

    refresh_if-Outcome :
        (e : Exit) (s : State)
        → Outcome rec p s
        → Yields (λ _ t. Outcome rec p t) (refresh_if p.source e s)
    refresh_if-Outcome returned s o = yields o
    refresh_if-Outcome broke s o =
        let (a, k, e, same) = refresh_events-IsSilent rec p.source s in
        rw e (yields (silent-Outcome rec p s k same o))

    handle_read_tcp-Outcome :
        IsPosix os
        → (s : State) → IsFlowing rec p s
        → Yields (λ _ t. Outcome rec p t) (handle_read_tcp p.source s)
    unfolding handle_read_tcp
    handle_read_tcp-Outcome posix s f =
        branch-Yields (not (can_read s.config p.source)) done
          (read_loop_tcp read_fuel p.source >>= refresh_if p.source) (λ _. yields (inl f))
          (λ _.
            bind-Yields (read_loop_tcp-Outcome posix read_fuel s f)
              (λ e t o. refresh_if-Outcome e t o))

    -- A read event on the source of a whole pair.
    pub handle_read-Outcome :
        IsPosix os
        → (s : State) → IsFlowing rec p s
        → Yields (λ _ t. Outcome rec p t) (handle_read p.source s)
    unfolding handle_read
    handle_read-Outcome posix s f =
        let conn = s.config.connections p.source in
        branch-Yields (not (is_valid conn)) done
          (if is_http s.config.mode && conn.is_client
            then handle_read_http_client p.source
            else handle_read_tcp p.source)
          (λ _. yields (inl f)) (λ _. rw f.linked.plain (handle_read_tcp-Outcome posix s f))
