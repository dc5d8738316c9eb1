-- ===== src/Relay/Write.antt =====
-- handle_write (src/proxy/proxy.c) on the target of a way.
use epoll_proxy.Base.{
  ℕ, zero, suc, ◌<◌, ◌≡◌, ◌≢◌, refl, ◌∙◌, ap, ◌++◌, inl, inr, Option, none, some, not, Bool, true,
  false, arith, Option-cases,
}
use epoll_proxy.Config.{Config, Stats, max_connections}
use epoll_proxy.Kernel.{Os, IsPosix}
use epoll_proxy.Http
use epoll_proxy.Http.{Request}
use epoll_proxy.Buffer
use epoll_proxy.Buffer.{IoResult, count, error}
use epoll_proxy.Buffer.Refine.{contents-empty, contents-clear, clear-IsValid}
use epoll_proxy.Connection.{set_conn, can_write}
use epoll_proxy.Proxy.Lifecycle.{close}
use epoll_proxy.Proxy.Events.{count_error}
use epoll_proxy.Proxy.Write.{
  Exit, broke, returned, is_again, count_sent, count_reused, reset_for_next, write_buffer,
  fail_write, until_empty, after_write, write_loop, refresh_events, reuse, check_requests,
  next_request, finish_response, is_finished, after_writing, write_fuel, handle_write,
  is_limit_reached,
}
use epoll_proxy.State.{State, M, pure, done, store, and_then, ◌>>=◌}
use epoll_proxy.Relay.Traffic.{IsRecorded}
use epoll_proxy.Relay.Yields.{Yields, stuck, yields, weaken-Yields, bind-Yields, branch-Yields}
use epoll_proxy.Relay.Flow.{
  Way, on_way, IsLinked, IsFlowing, Outcome, IsCut-of_flow, went, silent-Outcome,
}
use epoll_proxy.Relay.Silent.{refresh_events-IsSilent}
use epoll_proxy.Relay.Close.{close-IsShut, close_side-IsShut}
use epoll_proxy.Relay.Bytes.{write_fd-WentOut}
use epoll_proxy.Relay.Steps.{WentOut-IsFlowing}
use epoll_proxy.Relay.Read.{activity_flows}

abbrev emptied : Way → Config → Config
emptied p c = set_conn c p.target (reset_for_next (c.connections p.target))

emptied-IsLinked : (p : Way) (c : Config) → IsLinked p c → IsLinked p (emptied p c)
unfolding reset_for_next
emptied-IsLinked p c l = record {
  apart = l.apart;
  fds_apart = l.fds_apart;
  source_is = ground (arith, l.source_is);
  target_is = ground (arith, l.target_is);
  peer_is = ground (arith, l.peer_is);
  plain = ground (arith, l.plain);
  reading = ground (arith, l.reading);
  writing = ground (arith, clear-IsValid l.writing);
}

on_way-emptied :
    (p : Way) (c : Config)
    → p.source ≢ p.target
    → Buffer.is_empty (c.connections p.target).write_buf ≡ true
    → on_way p.source p.target (emptied p c) ≡ on_way p.source p.target c
unfolding reset_for_next
on_way-emptied p c ne e =
    let out = (c.connections p.target).write_buf in
    ground (arith, contents-clear out, contents-empty out (ground (arith, e)))

module _ ⦃os : Os⦄ where
  empty_of_finished :
      (c : Config) (j : ℕ)
      → is_finished c j ≡ true
      → Buffer.is_empty (c.connections j).write_buf ≡ true
  unfolding is_finished
  empty_of_finished c j e = ground (arith, e)

  -- If the request is there, it is assigned.
  pub after_store-Yields :
      {B : Type 0} {Q : B → State → Type 0} (a : Option ℕ) (req : Request) (s : State)
      (f : Unit {0} → M B)
      → ((heap : ℕ → Option Request) → Yields Q (f tt (record s { heap = heap })))
      → Yields Q (and_then (store a req s) f)
  unfolding store
  after_store-Yields none req s f h = stuck
  after_store-Yields (some a) req s f h = elim (Option-cases (s.heap a)) [
    | inl e ↦ rw (e, store) stuck
    | inr (old, e) ↦ rw (e, store) (h _)
  ]

module _ ⦃os : Os⦄ (rec : IsRecorded os) (p : Way) where
  -- How the loop ends: a `break` leaves the pair whole.
  abbrev Left : Exit → State → Type 0
  Left broke t = IsFlowing rec p t
  Left returned t = Outcome rec p t

  emptied-IsFlowing :
      (s : State) (heap : ℕ → Option Request)
      → Buffer.is_empty (s.config.connections p.target).write_buf ≡ true
      → IsFlowing rec p s
      → IsFlowing rec p (record s { config = emptied p s.config; heap = heap })
  emptied-IsFlowing s heap e f = record {
    linked = emptied-IsLinked p s.config f.linked;
    new = f.new;
    arrived = f.arrived;
    in_order =
        ap (λ xs. went rec p s ++ xs) (on_way-emptied p s.config f.linked.apart e) ∙ f.in_order;
  }

  counted-IsFlowing :
      (s : State) (st : Stats)
      → IsFlowing rec p s
      → IsFlowing rec p (record s { config = record s.config { stats = st } })
  counted-IsFlowing s st f = record {
    linked = record {
      apart = f.linked.apart;
      fds_apart = f.linked.fds_apart;
      source_is = f.linked.source_is;
      target_is = f.linked.target_is;
      peer_is = f.linked.peer_is;
      plain = f.linked.plain;
      reading = f.linked.reading;
      writing = f.linked.writing;
    };
    new = f.new;
    arrived = f.arrived;
    in_order = f.in_order;
  }

  refresh_events-Outcome :
      (s : State) → IsFlowing rec p s → Yields (λ _ t. Outcome rec p t) (refresh_events p.target s)
  refresh_events-Outcome s f =
      let (a, k, e, same) = refresh_events-IsSilent rec p.target s in
      rw e (yields (silent-Outcome rec p s k same (inl f)))

  module _ (ht : p.target < max_connections) where
    close_target-Outcome :
        (s : State) → IsFlowing rec p s → Yields (λ _ t. Outcome rec p t) (close (some p.target) s)
    close_target-Outcome s f =
        weaken-Yields (λ _ t shut. inr (IsCut-of_flow rec p s t shut.0 shut.1 f))
          (close-IsShut rec p.target s ht)

    fail_write-Left : (s : State) → IsFlowing rec p s → Yields Left (fail_write p.target s)
    unfolding fail_write
    fail_write-Left s f =
        bind-Yields
          (close_side-IsShut rec p.target
            (record s { config = record s.config { stats = count_error s.config.stats } }) ht)
          (λ _ t shut. yields (inr (IsCut-of_flow rec p s t shut.0 shut.1 f)))

    after_write-Left :
        (rest : M Exit) (r : IoResult) (s : State)
        → IsFlowing rec p s
        → ((t : State) → IsFlowing rec p t → Yields Left (rest t))
        → Yields Left (after_write rest p.target r s)
    unfolding after_write until_empty
    after_write-Left rest (error e) s f h =
        branch-Yields (is_again e) (pure broke) (fail_write p.target) (λ _. yields f)
          (λ _. fail_write-Left s f)
    after_write-Left rest (count zero) s f h = yields f
    after_write-Left rest (count (suc n)) s f h =
        activity_flows rec p p.target (count_sent (suc n)) s (λ _. until_empty rest p.target) f
          (λ t g.
            branch-Yields (Buffer.is_empty (t.config.connections p.target).write_buf) (pure broke)
              rest (λ _. yields g) (λ _. h t g))

    write_loop-Left :
        IsPosix os
        → (fuel : ℕ) (s : State) → IsFlowing rec p s
        → Yields Left (write_loop fuel p.target s)
    unfolding write_loop write_buffer
    write_loop-Left posix zero s f = stuck
    write_loop-Left posix (suc fuel) s f =
        let conn = s.config.connections p.target in
        let (r, b, k) = Buffer.write_fd os s.kernel conn.write_buf conn.fd in
        after_write-Left (write_loop fuel p.target) r _
          (WentOut-IsFlowing rec p s b k f (
            write_fd-WentOut rec posix s.kernel conn.write_buf conn.fd p.target_fd
              f.linked.target_is f.linked.writing))
          (write_loop-Left posix fuel)

    check_requests-Outcome :
        (s : State)
        → IsFlowing rec p s
        → Yields (λ _ t. Outcome rec p t) (check_requests p.target s)
    unfolding check_requests reuse
    check_requests-Outcome s f =
        branch-Yields (is_limit_reached (s.config.connections p.target).requests_handled)
          (close (some p.target)) (reuse p.target) (λ _. close_target-Outcome s f)
          (λ _. refresh_events-Outcome _ (counted-IsFlowing s (count_reused s.config.stats) f))

    finish_response-Outcome :
        (finished : Bool) (s : State)
        → is_finished s.config p.target ≡ finished
        → IsFlowing rec p s
        → Yields (λ _ t. Outcome rec p t) (finish_response finished p.target s)
    unfolding finish_response next_request
    finish_response-Outcome false s e f = refresh_events-Outcome s f
    finish_response-Outcome true s e f =
        let conn = s.config.connections p.target in
        branch-Yields (not conn.keep_alive) (close (some p.target)) (next_request p.target)
          (λ _. close_target-Outcome s f)
          (λ _. after_store-Yields conn.http_req Http.init s _ (λ heap.
            check_requests-Outcome _
              (emptied-IsFlowing s heap (empty_of_finished s.config p.target e) f)))

    after_writing-Outcome :
        (e : Exit) (s : State)
        → Left e s
        → Yields (λ _ t. Outcome rec p t) (after_writing p.target e s)
    unfolding after_writing
    after_writing-Outcome returned s o = yields o
    after_writing-Outcome broke s f =
        finish_response-Outcome (is_finished s.config p.target) s refl f

    -- A write event on the target of a whole pair.
    pub handle_write-Outcome :
        IsPosix os
        → (s : State) → IsFlowing rec p s
        → Yields (λ _ t. Outcome rec p t) (handle_write p.target s)
    unfolding handle_write
    handle_write-Outcome posix s f =
        branch-Yields (not (can_write (s.config.connections p.target))) done
          (write_loop write_fuel p.target >>= after_writing p.target) (λ _. yields (inl f))
          (λ _.
            bind-Yields (write_loop-Left posix write_fuel s f)
              (λ e t l. after_writing-Outcome e t l))
