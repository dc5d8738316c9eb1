-- ===== src/Safety/Assign.antt =====
-- Assignments that keep the invariant.
use epoll_proxy.Base.{ℕ, ◌≡◌, ◌≢◌, ◌⊎◌, refl, sym, ◌∙◌, subst, Option, true, arith, fun_ext}
use epoll_proxy.Config.{Config, Connection, Stats, closed}
use epoll_proxy.Http.{Request}
use epoll_proxy.Connection.{set_conn}
use epoll_proxy.Connection.FreeList.{free_stack, Absent}
use epoll_proxy.Connection.Pool.{IsSound, IsProper}
use epoll_proxy.Connection.Pool.Steps.{set_conn-IsSound}
use epoll_proxy.Safety.{IsClient, IsLive, IsValid, Owns, InPool}

-- No connection is opened as a client or given another request.
pub record Keeps (c c' : Config) : Type 0 where
  pub same_mode : c'.mode ≡ c.mode
  pub client_before : (i : ℕ) → IsClient c' i → IsClient c i
  pub same_request : (i : ℕ) → (c'.connections i).http_req ≡ (c.connections i).http_req

-- The same for a single connection.
abbrev pub KeepsConn : Connection → Connection → Type 0
KeepsConn conn conn' =
    conn'.is_client ≡ true → conn'.state ≢ closed → (conn.is_client ≡ true) × (conn.state ≢ closed)

pub Keeps-trans : {a b c : Config} → Keeps a b → Keeps b c → Keeps a c
Keeps-trans k l = record {
  same_mode = l.same_mode ∙ k.same_mode;
  client_before = λ i q. k.client_before i (l.client_before i q);
  same_request = λ i. l.same_request i ∙ k.same_request i;
}

pub set_conn-Keeps :
    (c : Config) (i : ℕ) (conn : Connection)
    → KeepsConn (c.connections i) conn
    → conn.http_req ≡ (c.connections i).http_req
    → Keeps c (set_conn c i conn)
set_conn-Keeps c i conn k u = record {
  same_mode = refl;
  client_before = λ j q. ground (arith, k);
  same_request = λ j. ground (arith, u);
}

module _ {T : Type 0} {c : Config} {heap : ℕ → Option Request} {next : ℕ} where
  pub Keeps-IsValid :
      {c' : Config} → IsValid T c heap next → IsSound c' → Keeps c c' → IsValid T c' heap next
  Keeps-IsValid {c'} v sound k = record {
    sound = sound;
    live = λ m i q.
        subst (IsLive heap next) (sym (k.same_request i))
          (v.live (sym k.same_mode ∙ m) i (k.client_before i q));
    apart = λ m i j ne qi qj e.
        v.apart (sym k.same_mode ∙ m) i j ne (k.client_before i qi) (k.client_before j qj)
          (sym (k.same_request i) ∙ e ∙ k.same_request j);
    unused = λ m i h. k.same_request i ∙ v.unused (sym k.same_mode ∙ m) i h;
    owned = λ t.
        subst (λ r. Owns InPool r heap next) (fun_ext (λ i. sym (k.same_request i))) (v.owned t);
  }

  -- To a connection.
  pub set_conn-IsValid :
      (i : ℕ) (conn : Connection)
      → IsValid T c heap next
      → IsProper conn
      → Absent i (free_stack c) ⊎ ((c.connections i).state ≡ closed → conn.state ≡ closed)
      → KeepsConn (c.connections i) conn
      → conn.http_req ≡ (c.connections i).http_req
      → IsValid T (set_conn c i conn) heap next
  set_conn-IsValid i conn v p h k u =
      Keeps-IsValid v (set_conn-IsSound i conn v.sound p h) (set_conn-Keeps c i conn k u)

  -- To the statistics, but for the number of active connections.
  pub set_stats-IsValid :
      (st : Stats)
      → IsValid T c heap next
      → st.active_connections ≡ c.stats.active_connections
      → IsValid T (record c { stats = st }) heap next
  set_stats-IsValid st v e =
      Keeps-IsValid v
        (record {
          bounded = v.sound.bounded;
          distinct = v.sound.distinct;
          ready = v.sound.ready;
          accounted = omega (arith, v.sound.accounted);
          buffers = v.sound.buffers;
          peers = v.sound.peers;
        })
        (record {
          same_mode = refl;
          client_before =
              λ i q. record { in_pool = q.in_pool; client = q.client; open_state = q.open_state };
          same_request = λ i. refl;
        })
