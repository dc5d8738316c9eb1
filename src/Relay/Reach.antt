-- ===== src/Relay/Reach.antt =====
-- The bytes of a response: from the socket of the backend to the socket of the client, through
-- handle_event after handle_event of proxy_run (src/proxy/proxy.c).
use epoll_proxy.Base.{
  ℕ, ◌<◌, ◌≡◌, ◌≢◌, refl, sym, List, [], ◌++◌, append-nil, inl, inr, some, false, ◌&&◌,
}
use epoll_proxy.Config.{Config, closed, max_connections}
use epoll_proxy.Kernel.{Os, IsPosix, Events}
use epoll_proxy.Proxy.Events.{is_http}
use epoll_proxy.Proxy.Loop.{handle_event}
use epoll_proxy.State.{State}
use epoll_proxy.Safety.{IsSafe, Ensures}
use epoll_proxy.Safety.Rules.{weaken}
use epoll_proxy.Safety.Running.{handle_event-Safely}
use epoll_proxy.Relay.Traffic.{IsRecorded}
use epoll_proxy.Relay.Yields.{total_of, result_of}
use epoll_proxy.Relay.Flow.{Way, on_way, SameWay, IsFlowing, Outcome, SameWay-IsFlowing}
use epoll_proxy.Relay.Event.{End, from_source, to_target, end_of, IsPlain, handle_event-Outcome}

-- Two connections with sockets of their own, the first of which has the second as its peer and is
-- no client in HTTP mode.
pub record IsPair (i j : ℕ) (c : Config) : Type 0 where
  pub in_pool : i < max_connections
  pub apart : i ≢ j
  pub fds_apart : (c.connections i).fd ≢ (c.connections j).fd
  pub peer_is : (c.connections i).peer ≡ some j
  pub plain : (is_http c.mode && (c.connections i).is_client) ≡ false

module _ ⦃os : Os⦄ (rec : IsRecorded os) (i j : ℕ) (s : State) where
  -- What has come in at the source, and what has gone out at the target.
  abbrev pub source_came : State → List ℕ
  source_came t = (rec.seen t.kernel).came (s.config.connections i).fd

  abbrev pub target_went : State → List ℕ
  target_went t = (rec.seen t.kernel).went (s.config.connections j).fd

  abbrev pub start_way : Way
  start_way = record {
    source = i;
    target = j;
    source_fd = (s.config.connections i).fd;
    target_fd = (s.config.connections j).fd;
    came_before = source_came s;
    sent_or_waiting = target_went s ++ on_way i j s.config;
  }

  -- What has come in since the start left, behind what waited then and in the same order, to the
  -- target; the rest is in the two buffers as long as the target is in use.
  pub record IsRelayed (t : State) : Type 0 where
    pub new : List ℕ
    pub rest : List ℕ
    pub arrived : source_came t ≡ source_came s ++ new
    pub in_order : target_went t ++ rest ≡ (target_went s ++ on_way i j s.config) ++ new
    pub whole : (t.config.connections j).state ≢ closed → rest ≡ on_way i j t.config

  -- What the program does between two events of the pair, if it leaves the pair and its traffic
  -- alone.
  pub record IsElsewhere (t u : State) : Type 0 where
    pub safe : IsSafe u
    pub same_way : SameWay start_way t.config u.config
    pub same_came : source_came u ≡ source_came t
    pub same_went : target_went u ≡ target_went t

  -- The states that are reached while the target is in use.
  pub data Reaches : State → Type 0 where
    start : Reaches s
    event :
        {t u : State} (rounds : ℕ) (ev : Events) (e : End)
        → Reaches t
        → (t.config.connections j).state ≢ closed
        → IsPlain (t.config.connections (end_of start_way e)).state ev e
        → handle_event rounds ev (some (end_of start_way e)) t ≡ some (tt, u)
        → Reaches u
    elsewhere :
        {t u : State}
        → Reaches t
        → (t.config.connections j).state ≢ closed
        → IsElsewhere t u
        → Reaches u

  module _ (pair : IsPair i j s.config) where
    start-IsFlowing : IsSafe s → IsFlowing rec start_way s
    start-IsFlowing v =
        let hj = v.sound.peers i j pair.in_pool pair.peer_is in
        record {
          linked = record {
            apart = pair.apart;
            fds_apart = pair.fds_apart;
            source_is = refl;
            target_is = refl;
            peer_is = pair.peer_is;
            plain = pair.plain;
            reading = (v.sound.buffers i pair.in_pool).0;
            writing = (v.sound.buffers j hj).1;
          };
          new = [];
          arrived = sym (append-nil _);
          in_order = sym (append-nil _);
        }

    Outcome-IsRelayed : (t : State) → Outcome rec start_way t → IsRelayed t
    Outcome-IsRelayed t (inl f) = record {
      new = f.new;
      rest = on_way i j t.config;
      arrived = f.arrived;
      in_order = f.in_order;
      whole = λ _. refl;
    }
    Outcome-IsRelayed t (inr f) = record {
      new = f.new;
      rest = f.lost;
      arrived = f.arrived;
      in_order = f.in_order;
      whole = λ open_end. absurd (open_end f.target_closed);
    }

    -- A target in use is not cut off.
    IsFlowing-of_open :
        (t : State)
        → (t.config.connections j).state ≢ closed
        → Outcome rec start_way t
        → IsFlowing rec start_way t
    IsFlowing-of_open t open_end (inl f) = f
    IsFlowing-of_open t open_end (inr f) = absurd (open_end f.target_closed)

    module _ (posix : IsPosix os) (v : IsSafe s) where
      target_in_pool : j < max_connections
      target_in_pool = v.sound.peers i j pair.in_pool pair.peer_is

      next_event :
          (rounds : ℕ) (ev : Events) (e : End) (t : State)
          → IsSafe t
          → IsFlowing rec start_way t
          → IsPlain (t.config.connections (end_of start_way e)).state ev e
          → Ensures
              (λ _ u. IsSafe u × Outcome rec start_way u)
              (handle_event rounds ev (some (end_of start_way e)) t)
      next_event rounds ev e t v' f plain =
          total_of
            (handle_event-Safely posix rounds ev (some (end_of start_way e)) t v' (in_pool e, tt))
            (handle_event-Outcome rec posix start_way pair.in_pool target_in_pool rounds ev e t
              plain f)
        where
          in_pool : (e : End) → end_of start_way e < max_connections
          in_pool from_source = pair.in_pool
          in_pool to_target = target_in_pool

      Reaches-Outcome : (t : State) → Reaches t → IsSafe t × Outcome rec start_way t
      Reaches-Outcome t start = (v, inl (start-IsFlowing v))
      Reaches-Outcome u (event {t} rounds ev e r open_end plain run) =
          let (v', o) = Reaches-Outcome t r in
          result_of run (next_event rounds ev e t v' (IsFlowing-of_open t open_end o) plain)
      Reaches-Outcome u (elsewhere {t} r open_end q) =
          let (v', o) = Reaches-Outcome t r in
          (
            q.safe,
            inl (
                SameWay-IsFlowing rec start_way t u q.same_way q.same_came q.same_went
                  (IsFlowing-of_open t open_end o)),
          )

      -- With a kernel that records its traffic and counts as POSIX allows, from a safe state with
      -- such a pair: in every state that events on the two reach while the second is in use, with
      -- anything in between that leaves the two and their traffic alone, the next event on either,
      -- once its connect is over and with no input announced at the second, is handled to its end,
      -- and leaves a safe state in which what came in at the first since the start has left through
      -- the second in order, behind what waited then, but for a rest: while the second is in use,
      -- it is what the two buffers hold.
      pub handle_event-IsRelayed :
          (t : State)
          → Reaches t
          → (t.config.connections j).state ≢ closed
          → (rounds : ℕ) (ev : Events) (e : End)
          → IsPlain (t.config.connections (end_of start_way e)).state ev e
          → Ensures
              (λ _ u. IsSafe u × IsRelayed u)
              (handle_event rounds ev (some (end_of start_way e)) t)
      handle_event-IsRelayed t r open_end rounds ev e plain =
          let (v', o) = Reaches-Outcome t r in
          weaken (λ _ u q. (q.0, Outcome-IsRelayed u q.1))
            (next_event rounds ev e t v' (IsFlowing-of_open t open_end o) plain)
