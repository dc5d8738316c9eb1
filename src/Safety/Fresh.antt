-- ===== src/Safety/Fresh.antt =====
-- A client that handle_accept (src/proxy/proxy.c) gives a request of its own.
use epoll_proxy.Connection.FreeList.{Absent, free_stack}
use epoll_proxy.Base.{ℕ, ◌+◌, ◌≡◌, ◌≢◌, Option, none, some, arith, ℕ_discrete, ◌⊎◌}
use epoll_proxy.Config.{Config, Connection, tcp, http, closed, update}
use epoll_proxy.Http.{Request}
use epoll_proxy.Connection.{set_conn}
use epoll_proxy.Connection.Pool.{IsProper}
use epoll_proxy.Connection.Pool.Steps.{set_conn-IsSound}
use epoll_proxy.Safety.{IsClient, IsValid, Owns, requests}
use epoll_proxy.Safety.Owned.{Owns-elsewhere, Owns-fresh}
use epoll_proxy.Safety.Close.{IsValidBut}

module _ {T : Type 0} {c : Config} {heap : ℕ → Option Request} {next : ℕ} where
  -- An assignment to the connection whose request is left out.
  pub set_conn-IsValidBut :
      (i : ℕ) (conn : Connection)
      → IsValidBut T i c heap next
      → IsProper conn
      → Absent i (free_stack c) ⊎ ((c.connections i).state ≡ closed → conn.state ≡ closed)
      → (c.mode ≡ tcp → conn.http_req ≡ none)
      → IsValidBut T i (set_conn c i conn) heap next
  set_conn-IsValidBut i conn v p h u = record {
    sound = set_conn-IsSound i conn v.sound p h;
    live = λ m k ne q. ground (arith, v.live m k ne (before k ne q));
    apart = λ m k l nk nl ne qk ql.
        ground (arith, v.apart m k l nk nl ne (before k nk qk) (before l nl ql));
    unused = λ m k h. ground (arith, u m, v.unused m k h);
    owned = λ t. Owns-elsewhere (λ k ne. ground (arith, ne)) (v.owned t);
  }
    where
      before : (k : ℕ) → k ≢ i → IsClient (set_conn c i conn) k → IsClient c k
      before k ne q = ground (arith, q)

module _ {T : Type 0} {c : Config} {heap : ℕ → Option Request} {next : ℕ} where
  -- In TCP mode there are no requests.
  pub tcp-IsValid : (i : ℕ) → c.mode ≡ tcp → IsValidBut T i c heap next → IsValid T c heap next
  tcp-IsValid i m v = record {
    sound = v.sound;
    live = λ m' k q. cc;
    apart = λ m' k l ne qk ql e. cc;
    unused = v.unused;
    owned = λ t. record {
      lives = λ k h n. absurd (n (v.unused m k h));
      alone = λ k l h h' ne n. absurd (n (v.unused m k h));
    };
  }

  -- In HTTP mode the client is given a fresh request.
  pub fresh-IsValid :
      (i : ℕ) (req : Request)
      → c.mode ≡ http
      → IsValidBut T i c heap next
      → (c.connections i).http_req ≡ some next
      → IsValid T c (update heap next (some req)) (next + 1)
  fresh-IsValid i req m v e = record {
    sound = v.sound;
    live = λ m' k q. o.lives k q (held k q);
    apart = λ m' k l ne qk ql. o.alone k l qk ql ne (held k qk);
    unused = v.unused;
    owned = λ t. Owns-fresh i req (v.owned t) e;
  }
    where
      others : Owns (λ k. IsClient c k × (k ≢ i)) (requests c) heap next
      others = record {
        lives = λ k h n. v.live m k h.1 h.0;
        alone = λ k l h h' ne n. v.apart m k l h.1 h'.1 ne h.0 h'.0;
      }

      o : Owns (IsClient c) (requests c) (update heap next (some req)) (next + 1)
      o = Owns-fresh i req others e

      held : (k : ℕ) → IsClient c k → requests c k ≢ none
      held k q none_held = elim (ℕ_discrete k i) [
        | yes same ↦ cc
        | no ne ↦ let l = v.live m k ne q in let at = l.is_address in cc
      ]
