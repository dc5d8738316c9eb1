-- ===== src/Safety/Open.antt =====
-- connection_alloc and connection_init (src/network/connection.c) keep the invariant.
use epoll_proxy.Base.{
  ℕ, ◌<◌, ◌≡◌, ◌≢◌, refl, sym, ◌∙◌, Option, some, Bool, some, false, arith, inl, subst,
}
use epoll_proxy.Config.{Config, Connection, ConnState, Fd, closed, max_connections}
use epoll_proxy.Http.{Request}
use epoll_proxy.Kernel.{Os}
use epoll_proxy.Buffer.Refine.{clear-IsValid}
use epoll_proxy.Connection.{alloc, reset, set_conn}
use epoll_proxy.Connection.FreeList.{free_stack, Absent}
use epoll_proxy.Connection.Pool.{IsSound}
use epoll_proxy.Connection.Pool.Steps.{alloc-IsSound, alloc-connections, proper}
use epoll_proxy.State.{State}
use epoll_proxy.Proxy.Lifecycle.{connection_init, get_timestamp_ms}
use epoll_proxy.Safety.{IsOpen, IsValid}
use epoll_proxy.Safety.Assign.{Keeps, Keeps-IsValid, set_conn-IsValid}

-- A slot that was handed out and is not in use yet.
pub record IsTaken (c : Config) (i : ℕ) : Type 0 where
  pub in_pool : i < max_connections
  pub absent : Absent i (free_stack c)
  pub is_closed : (c.connections i).state ≡ closed

-- What `connection_alloc` does to any slot.
SameButClosed : Connection → Connection → Type 0
SameButClosed conn conn' =
    ((conn'.state ≢ closed) → conn'.state ≡ conn.state)
    × (conn'.is_client ≡ conn.is_client)
    × (conn'.http_req ≡ conn.http_req)

alloc-SameButClosed :
    (c : Config) (k : ℕ) → SameButClosed (c.connections k) ((alloc c).1.connections k)
unfolding alloc SameButClosed
alloc-SameButClosed c k = ground arith

pub mode-alloc : (c : Config) → (alloc c).1.mode ≡ c.mode
unfolding alloc
mode-alloc c = ground arith

alloc-Keeps : (c : Config) → Keeps c (alloc c).1
unfolding SameButClosed
alloc-Keeps c = record {
  same_mode = mode-alloc c;
  client_before = λ i q.
      let same = alloc-SameButClosed c i in
      record {
        in_pool = q.in_pool;
        client = sym same.1 ∙ q.client;
        open_state = λ e. q.open_state (same.0 q.open_state ∙ e);
      };
  same_request = λ i. (alloc-SameButClosed c i).2;
}

module _ {T : Type 0} {c : Config} {heap : ℕ → Option Request} {next : ℕ} where
  pub alloc-IsValid :
      (i : ℕ)
      → IsValid T c heap next
      → (alloc c).0 ≡ some i
      → IsValid T (alloc c).1 heap next × IsTaken (alloc c).1 i
  alloc-IsValid i v e =
      let (sound, in_pool, absent, shut) = alloc-IsSound i v.sound e in
      (
        Keeps-IsValid v sound (alloc-Keeps c),
        record { in_pool = in_pool; absent = absent; is_closed = shut },
      )

  -- `connection_init` of a slot that was handed out, on the backend's side.
  pub reset-IsValid :
      (i : ℕ) (fd : Fd) (state : ConnState) (now : ℕ)
      → IsValid T c heap next
      → IsTaken c i
      → IsValid T (set_conn c i (reset (c.connections i) fd false state now)) heap next
  unfolding reset
  reset-IsValid i fd state now v t =
      let p = proper v.sound i t.in_pool in
      set_conn-IsValid i _ v
        (record {
          reading = clear-IsValid p.reading;
          writing = clear-IsValid p.writing;
          peer_in = λ j e. cc;
        })
        (inl t.absent) (λ q o. cc) refl

-- A connection in use is not the one that was handed out.
pub open_is_not_taken : (c : Config) (i j : ℕ) → IsOpen c i → IsTaken c j → i ≢ j
open_is_not_taken c i j o t e =
    o.1 (subst (λ k. (c.connections k).state ≡ closed) (sym e) t.is_closed)

-- And stays in use when one is handed out.
pub alloc-IsOpen :
    (c : Config) (i j : ℕ) → IsSound c → (alloc c).0 ≡ some j → IsOpen c i → IsOpen (alloc c).1 i
alloc-IsOpen c i j s e o = ground (arith, alloc-connections j i s e, o)

module _ ⦃os : Os⦄ where
  -- What `connection_init` does, at the time that it reads.
  pub connection_init_lem :
      (i : ℕ) (fd : Fd) (is_client : Bool) (state : ConnState) (s : State)
      → (now : ℕ) × (k : os.Kernel) × (connection_init i fd is_client state s
          ≡ some (
            tt,
            record s {
              config = set_conn s.config i (reset (s.config.connections i) fd is_client state now);
              kernel = k;
            },
          ))
  unfolding connection_init get_timestamp_ms
  connection_init_lem i fd is_client state s = (_, _, refl)
