-- ===== src/Relay/Close.antt =====
-- connection_close and connection_close_pair (src/network/connection.c): a connection ends up
-- closed, and no bytes are carried.
use epoll_proxy.Base.{ℕ, ◌<◌, ◌≡◌, refl, sym, ◌∙◌, subst, Option, none, some, ◌&&◌, arith}
use epoll_proxy.Config.{Config, closed, max_connections}
use epoll_proxy.Kernel.{Os}
use epoll_proxy.Connection.{is_closed, unpair, free, freed}
use epoll_proxy.State.{State, done}
use epoll_proxy.Proxy.Lifecycle.{close, close_open, close_pair}
use epoll_proxy.Proxy.Events.{is_http, close_side}
use epoll_proxy.Relay.Traffic.{IsRecorded}
use epoll_proxy.Relay.Yields.{Yields, stuck, yields, bind-Yields, branch-Yields, both-Yields}
use epoll_proxy.Relay.Silent.{after-Silent, close_socket-IsSilent}

released_closes :
    (c : Config) (i : ℕ)
    → i < max_connections
    → ((free (unpair c (some i)) (some i)).connections i).state ≡ closed
unfolding free freed
released_closes c i h = ground arith

released_stays :
    (c : Config) (i j : ℕ)
    → (c.connections j).state ≡ closed
    → ((free (unpair c (some i)) (some i)).connections j).state ≡ closed
unfolding free freed unpair
released_stays c i j e = ground arith

module _ ⦃os : Os⦄ (rec : IsRecorded os) where
  -- The connection is closed, and the traffic is as it was.
  abbrev pub IsShut : {A : Type 0} → ℕ → State → A → State → Type 0
  IsShut j s a s' =
      ((s'.config.connections j).state ≡ closed) × (rec.seen s'.kernel ≡ rec.seen s.kernel)

  pub close-IsShut :
      (j : ℕ) (s : State) → j < max_connections → Yields (IsShut j s) (close (some j) s)
  unfolding close close_open
  close-IsShut j s h =
      branch-Yields (is_closed (s.config.connections j).state) done (close_open j)
        (λ e. yields (ground (arith, e), refl))
        (λ _.
          after-Silent rec s _
            (close_socket-IsSilent rec s.config.epoll_fd (s.config.connections j).fd s)
            (λ _ k same. yields (released_closes s.config j h, same)))

  -- What is closed stays closed.
  pub close_stays :
      (p : Option ℕ) (j : ℕ) (s : State)
      → (s.config.connections j).state ≡ closed
      → Yields (IsShut j s) (close p s)
  unfolding close close_open
  close_stays none j s e = yields (e, refl)
  close_stays (some i) j s e =
      branch-Yields (is_closed (s.config.connections i).state) done (close_open i)
        (λ _. yields (e, refl))
        (λ _.
          after-Silent rec s _
            (close_socket-IsSilent rec s.config.epoll_fd (s.config.connections i).fd s)
            (λ _ k same. yields (released_stays s.config i j e, same)))

  weaken-IsShut :
      {A : Type 0} {r : Option (A × State)} (j : ℕ) (s s' : State)
      → rec.seen s'.kernel ≡ rec.seen s.kernel
      → Yields (IsShut j s') r
      → Yields (IsShut j s) r
  weaken-IsShut j s s' e stuck = stuck
  weaken-IsShut j s s' e (yields p) = yields (p.0, p.1 ∙ e)

  pub close_pair-IsShut :
      (j : ℕ) (s : State) → j < max_connections → Yields (IsShut j s) (close_pair (some j) s)
  unfolding close_pair
  close_pair-IsShut j s h =
      bind-Yields (close-IsShut j s h)
        (λ _ s' q. weaken-IsShut j s s' q.1 (close_stays (s.config.connections j).peer j s' q.0))

  -- Both ends of a pair.
  pub close_pair_both :
      (i j : ℕ) (s : State)
      → (s.config.connections i).peer ≡ some j
      → i < max_connections
      → j < max_connections
      → Yields (λ a t. IsShut i s a t × IsShut j s a t) (close_pair (some i) s)
  unfolding close_pair
  close_pair_both i j s e hi hj = bind-Yields (close-IsShut i s hi) (λ _ s' q.
      subst (λ p. Yields (λ a t. IsShut i s a t × IsShut j s a t) (close p s')) (sym e)
        (both-Yields (weaken-IsShut i s s' q.1 (close_stays (some j) i s' q.0))
          (weaken-IsShut j s s' q.1 (close-IsShut j s' hj))))

  pub close_side-IsShut :
      (j : ℕ) (s : State) → j < max_connections → Yields (IsShut j s) (close_side j s)
  unfolding close_side
  close_side-IsShut j s h =
      branch-Yields (is_http s.config.mode && (s.config.connections j).is_client) (close (some j))
        (close_pair (some j)) (λ _. close-IsShut j s h) (λ _. close_pair-IsShut j s h)
