-- ===== src/Safety/Lifecycle.antt =====
-- connection_close, connection_close_pair and connection_init (src/network/connection.c) keep the
-- invariant.
use epoll_proxy.Base.{ℕ, ◌<◌, ◌≡◌, ◌≢◌, refl, sym, ◌∙◌, Option, none, some, false, arith}
use epoll_proxy.Config.{Config, Connection, ConnState, closed, max_connections}
use epoll_proxy.Kernel.{Os}
use epoll_proxy.Http.{Request}
use epoll_proxy.Connection.{unpair, free, is_closed, freed}
use epoll_proxy.Connection.FreeList.{free_stack, Absent}
use epoll_proxy.Connection.Pool.{IsSound}
use epoll_proxy.Connection.Pool.Steps.{
  unpair-IsSound, free-IsSound, free-given_back, free_count-lt, given_back, Absent-of_open,
  state-freed,
}
use epoll_proxy.State.{State, done}
use epoll_proxy.Proxy.Lifecycle.{close, close_open, close_pair}
use epoll_proxy.Safety.{IsOpen, IsValid, IsSafe, ensures, Safely}
use epoll_proxy.Safety.Rules.{bind, branch, after_quiet}
use epoll_proxy.Safety.Assign.{Keeps, Keeps-trans, Keeps-IsValid}
use epoll_proxy.Safety.Kernel.{close_socket-IsQuiet}

-- Unpairing changes nothing but peer pointers.
record SameButPeer (conn conn' : Connection) : Type 0 where
  state : conn'.state ≡ conn.state
  client : conn'.is_client ≡ conn.is_client
  request : conn'.http_req ≡ conn.http_req

unpair-SameButPeer :
    (c : Config) (i k : ℕ) → SameButPeer (c.connections k) ((unpair c (some i)).connections k)
unfolding unpair
unpair-SameButPeer c i k = ground arith

mode-unpair : (c : Config) (i : ℕ) → (unpair c (some i)).mode ≡ c.mode
unfolding unpair
mode-unpair c i = ground arith

unpair-Keeps : (c : Config) (i : ℕ) → Keeps c (unpair c (some i))
unpair-Keeps c i = record {
  same_mode = mode-unpair c i;
  client_before = λ k q. ground (arith, unpair-SameButPeer c i k);
  same_request = λ k. (unpair-SameButPeer c i k).request;
}

request-freed : (conn : Connection) → (freed conn).http_req ≡ conn.http_req
unfolding freed
request-freed conn = refl

freed-Keeps : (c : Config) (i : ℕ) → Keeps c (given_back c i)
freed-Keeps c i = record {
  same_mode = refl;
  client_before = λ k q. ground (arith, state-freed (c.connections i));
  same_request = λ k. ground (arith, request-freed (c.connections i));
}

-- A connection in use goes back to the free list.
pub record Released (c c' : Config) (i : ℕ) : Type 0 where
  pub sound : IsSound c'
  pub keeps : Keeps c c'
  pub is_closed : (c'.connections i).state ≡ closed
  pub stays_closed : (k : ℕ) → (c.connections k).state ≡ closed → (c'.connections k).state ≡ closed

pub unpair-Absent :
    (c : Config) (i : ℕ) → IsSound c → IsOpen c i → Absent i (free_stack (unpair c (some i)))
unpair-Absent c i s (h, o) =
    Absent-of_open (unpair c (some i)).connections i _
      (λ e. o (sym (unpair-SameButPeer c i i).state ∙ e)) (unpair-IsSound i s h).ready

pub free_count-unpair :
    (c : Config) (i : ℕ) → IsSound c → IsOpen c i → (unpair c (some i)).free_count < max_connections
free_count-unpair c i s o = free_count-lt i (unpair-IsSound i s o.0) o.0 (unpair-Absent c i s o)

pub release-Released :
    (c : Config) (i : ℕ) → IsSound c → IsOpen c i → Released c (free (unpair c (some i)) (some i)) i
release-Released c i s o =
    let same = free-given_back (unpair c (some i)) i o.0 (free_count-unpair c i s o) in
    rw same (record {
      sound = rw (sym same) (free-IsSound i (unpair-IsSound i s o.0) o.0 (unpair-Absent c i s o));
      keeps = Keeps-trans (unpair-Keeps c i) (freed-Keeps (unpair c (some i)) i);
      is_closed = ground (arith, state-freed ((unpair c (some i)).connections i));
      stays_closed = λ k e.
          ground (arith, unpair-SameButPeer c i k, state-freed ((unpair c (some i)).connections i));
    })

release-IsValid :
    {T : Type 0} {c : Config} {heap : ℕ → Option Request} {next : ℕ} (i : ℕ)
    → IsValid T c heap next
    → IsOpen c i
    → IsValid T (free (unpair c (some i)) (some i)) heap next
release-IsValid {c} i v o =
    let r = release-Released c i v.sound o in Keeps-IsValid v r.sound r.keeps

open_of_test : (st : ConnState) → is_closed st ≡ false → st ≢ closed
open_of_test st e h = ground arith

module _ ⦃os : Os⦄ where
  pub close-Safely :
      (i : ℕ) (s : State) → IsSafe s → i < max_connections → Safely (close (some i) s)
  unfolding close close_open
  close-Safely i s v h =
      branch (is_closed (s.config.connections i).state) done (close_open i) (λ e. ensures v)
        (λ e.
          after_quiet s _ (close_socket-IsQuiet _ _ s)
            (λ _ k. ensures (release-IsValid i v (h, open_of_test _ e))))

  pub close_peer-Safely :
      (peer : Option ℕ) (s : State)
      → IsSafe s
      → ((j : ℕ) → peer ≡ some j → j < max_connections)
      → Safely (close peer s)
  unfolding close
  close_peer-Safely none s v h = ensures v
  close_peer-Safely (some j) s v h = close-Safely j s v (h j refl)

  -- In a safe state, `connection_close_pair` on any connection of the pool, in use or not, comes to
  -- its end and leaves a safe state.
  pub close_pair-Safely :
      (i : ℕ) (s : State) → IsSafe s → i < max_connections → Safely (close_pair (some i) s)
  unfolding close_pair
  close_pair-Safely i s v h =
      bind (close-Safely i s v h) (λ _ s' v'.
        close_peer-Safely (s.config.connections i).peer s' v' (λ j. v.sound.peers i j h))
