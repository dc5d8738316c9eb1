-- ===== src/Safety/Touch.antt =====
-- Assignments to a connection that leave its part in the proxy as it is.
use epoll_proxy.Base.{
  ℕ, ◌<◌, ◌≡◌, inr, refl, sym, ◌∙◌, Option, some, arith, List, length, take, length-blit,
  length-take,
}
use epoll_proxy.Config.{Config, Connection, max_connections}
use epoll_proxy.Kernel.{Os}
use epoll_proxy.Http.{Request}
use epoll_proxy.Connection.{set_conn, pair, set_peer}
use epoll_proxy.Connection.Pool.{IsProper}
use epoll_proxy.Connection.Pool.Steps.{proper, pair-IsSound}
use epoll_proxy.State.{State}
use epoll_proxy.Proxy.Respond.{send_http_error, put_error, error_text}
use epoll_proxy.Safety.{IsOpen, IsValid, IsSafe, ensures, Safely}
use epoll_proxy.Safety.Assign.{Keeps, Keeps-trans, set_conn-Keeps, Keeps-IsValid, set_conn-IsValid}

pub record SameRole (conn conn' : Connection) : Type 0 where
  pub state : conn'.state ≡ conn.state
  pub client : conn'.is_client ≡ conn.is_client
  pub request : conn'.http_req ≡ conn.http_req

pair-Keeps : (c : Config) (i j : ℕ) → Keeps c (pair c i j)
unfolding pair
pair-Keeps c i j =
    Keeps-trans (set_conn-Keeps c i _ (λ q o. (q, o)) refl)
      (set_conn-Keeps (set_peer c i (some j)) j _ (λ q o. (q, o)) refl)

module _ {T : Type 0} {c : Config} {heap : ℕ → Option Request} {next : ℕ} where
  pub touch-IsValid :
      (i : ℕ) (conn : Connection)
      → IsValid T c heap next
      → IsProper conn
      → SameRole (c.connections i) conn
      → IsValid T (set_conn c i conn) heap next
  touch-IsValid i conn v p same =
      set_conn-IsValid i conn v p (inr (λ e. same.state ∙ e))
        (λ q o. (sym same.client ∙ q, (λ e. o (same.state ∙ e)))) same.request

  -- The state of a connection in use may change too.
  pub move-IsValid :
      (i : ℕ) (conn : Connection)
      → IsValid T c heap next
      → IsOpen c i
      → IsProper conn
      → conn.is_client ≡ (c.connections i).is_client
      → conn.http_req ≡ (c.connections i).http_req
      → IsValid T (set_conn c i conn) heap next
  move-IsValid i conn v o p client request =
      set_conn-IsValid i conn v p (inr (λ e. absurd (o.1 e))) (λ q _. (sym client ∙ q, o.1)) request

  pub pair-IsValid :
      (i j : ℕ)
      → IsValid T c heap next
      → i < max_connections
      → j < max_connections
      → IsValid T (pair c i j) heap next
  pair-IsValid i j v hi hj = Keeps-IsValid v (pair-IsSound i j v.sound hi hj) (pair-Keeps c i j)

pub touch-IsOpen :
    (c : Config) (i k : ℕ) (conn : Connection)
    → conn.state ≡ (c.connections i).state
    → IsOpen c k
    → IsOpen (set_conn c i conn) k
touch-IsOpen c i k conn e o = ground (arith, o)

put_error-SameRole :
    (conn : Connection) (code : ℕ) (message : List ℕ) → SameRole conn (put_error conn code message)
unfolding put_error
put_error-SameRole conn code message = ground arith

put_error-IsProper :
    (conn : Connection) (code : ℕ) (message : List ℕ)
    → IsProper conn
    → IsProper (put_error conn code message)
unfolding put_error
put_error-IsProper conn code message p =
    let response = error_text code message in
    record {
      reading = ground (arith, p.reading);
      writing = ground (
        arith,
        p.writing,
        length-take (length response) response,
        length-blit conn.write_buf.bytes 0 (take (length response) response),
      );
      peer_in = λ j e. ground (arith, p.peer_in j);
    }

module _ ⦃os : Os⦄ where
  pub send_http_error-Safely :
      (i code : ℕ) (message : List ℕ) (s : State)
      → IsSafe s
      → i < max_connections
      → Safely (send_http_error i code message s)
  unfolding send_http_error
  send_http_error-Safely i code message s v h = ensures (
      touch-IsValid i _ v (put_error-IsProper _ code message (proper v.sound i h))
        (put_error-SameRole _ code message))
