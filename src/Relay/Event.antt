-- ===== src/Relay/Event.antt =====
-- An event of the loop of proxy_run (src/proxy/proxy.c) on either end of a way.
use epoll_proxy.Base.{ℕ, ◌<◌, ◌≡◌, refl, inl, inr, some, not, false, ◌||◌, arith}
use epoll_proxy.Config.{Connection, ConnState, closed, max_connections}
use epoll_proxy.Kernel.{Os, IsPosix, Events}
use epoll_proxy.Connection.{is_valid, is_connecting}
use epoll_proxy.Proxy.Events.{handle_error}
use epoll_proxy.Proxy.Write.{handle_write}
use epoll_proxy.Proxy.Read.{handle_read}
use epoll_proxy.Proxy.Loop.{read_write_event, handle_event}
use epoll_proxy.State.{State, done}
use epoll_proxy.Relay.Traffic.{IsRecorded}
use epoll_proxy.Relay.Yields.{Yields, yields, weaken-Yields, bind-Yields, branch-Yields}
use epoll_proxy.Relay.Flow.{Way, IsFlowing, Outcome}
use epoll_proxy.Relay.Read.{handle_read-Outcome}
use epoll_proxy.Relay.Write.{handle_write-Outcome}
use epoll_proxy.Relay.WriteBack.{
  WholeOrShut, handle_write-WholeOrShut, handle_error-WholeOrShut, handle_error-IsCut,
}

is_valid-closed : (conn : Connection) → conn.state ≡ closed → is_valid conn ≡ false
unfolding is_valid
is_valid-closed conn e = ground (arith, e)

-- The two ends of a way.
pub data End : Type 0 where
  from_source to_target : End

abbrev pub end_of : Way → End → ℕ
end_of p from_source = p.source
end_of p to_target = p.target

-- The connect of this end is over, and no input is announced at the target: what a client sends
-- goes to the parser.
abbrev pub IsPlain : ConnState → Events → End → Type 0
IsPlain st ev from_source = is_connecting st ≡ false
IsPlain st ev to_target = (is_connecting st ≡ false) × (ev.epoll_in ≡ false)

module _ ⦃os : Os⦄ (rec : IsRecorded os) (posix : IsPosix os) (p : Way)
    (hs : p.source < max_connections) (ht : p.target < max_connections) where
  handle_read_closed :
      (s : State)
      → (s.config.connections p.source).state ≡ closed
      → handle_read p.source s ≡ some (tt, s)
  unfolding handle_read
  handle_read_closed s e = rw (is_valid-closed (s.config.connections p.source) e, not) refl

  read_after :
      (s : State) → WholeOrShut rec p s → Yields (λ _ t. Outcome rec p t) (handle_read p.source s)
  read_after s (inl f) = handle_read-Outcome rec p hs ht posix s f
  read_after s (inr (cut, e)) = rw (handle_read_closed s e) (yields (inr cut))

  Outcome-of_whole : (s : State) → WholeOrShut rec p s → Outcome rec p s
  Outcome-of_whole s (inl f) = inl f
  Outcome-of_whole s (inr (cut, e)) = inr cut

  source_event :
      (ev : Events) (s : State)
      → IsFlowing rec p s
      → Yields (λ _ t. Outcome rec p t) (read_write_event ev p.source s)
  unfolding read_write_event
  source_event ev s f =
      bind-Yields
        (branch-Yields ev.epoll_out (handle_write p.source) done
          (λ _. handle_write-WholeOrShut rec p hs ht s f) (λ _. yields (inl f)))
        (λ _ t w.
          branch-Yields ev.epoll_in (handle_read p.source) done (λ _. read_after t w)
            (λ _. yields (Outcome-of_whole t w)))

  target_event :
      (ev : Events) (s : State)
      → ev.epoll_in ≡ false
      → IsFlowing rec p s
      → Yields (λ _ t. Outcome rec p t) (read_write_event ev p.target s)
  unfolding read_write_event
  target_event ev s e f =
      bind-Yields
        (branch-Yields ev.epoll_out (handle_write p.target) done
          (λ _. handle_write-Outcome rec p ht posix s f) (λ _. yields (inl f)))
        (λ _ t o. rw e (yields o))

  -- Any event at the source, and any that announces no input at the target.
  pub handle_event-Outcome :
      (rounds : ℕ) (ev : Events) (e : End) (s : State)
      → IsPlain (s.config.connections (end_of p e)).state ev e
      → IsFlowing rec p s
      → Yields (λ _ t. Outcome rec p t) (handle_event rounds ev (some (end_of p e)) s)
  unfolding handle_event
  handle_event-Outcome rounds ev from_source s plain f =
      branch-Yields (ev.epoll_err || ev.epoll_hup || ev.epoll_rdhup) (handle_error p.source) _
        (λ _.
          weaken-Yields (λ _ t w. Outcome-of_whole t w) (handle_error-WholeOrShut rec p hs ht s f))
        (λ _. rw plain (source_event ev s f))
  handle_event-Outcome rounds ev to_target s plain f =
      branch-Yields (ev.epoll_err || ev.epoll_hup || ev.epoll_rdhup) (handle_error p.target) _
        (λ _. weaken-Yields (λ _ t cut. inr cut) (handle_error-IsCut rec p hs ht s f))
        (λ _. rw plain.0 (target_event ev s plain.1 f))
