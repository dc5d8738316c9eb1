-- ===== src/Safety/Refused.antt =====
-- handle_http_request (src/proxy/proxy.c) where the request cannot be forwarded.
use epoll_proxy.Base.{
  ℕ, ◌<◌, ◌≡◌, refl, List, length, none, some, ◌⊎◌, inl, inr, false, arith, codes, ap,
}
use epoll_proxy.Config.{Connection, Fd, Buffer}
use epoll_proxy.Kernel.{Os}
use epoll_proxy.Buffer.Refine.{contents}
use epoll_proxy.Connection.{alloc, set_conn}
use epoll_proxy.Connection.FreeList.{alloc_pops}
use epoll_proxy.Epoll.{create_backend_connection, close_fd}
use epoll_proxy.State.{State}
use epoll_proxy.Proxy.Respond.{error_text, put_error, response_size, send_http_error}
use epoll_proxy.Proxy.Request.{handle_http_request, with_socket, with_backend}
use epoll_proxy.Safety.{Ensures, ensures}
use epoll_proxy.Safety.Unsent.{put_error-contents}

-- 502 where the connection to the backend was not begun, 503 where no slot is left for it.
abbrev pub refusal : Fd → List ℕ
refusal none = error_text 502 (codes "Bad Gateway")
refusal (some fd) = error_text 503 (codes "Service Unavailable")

length-refusal : (fd : Fd) → length (refusal fd) < response_size
unfolding error_text
length-refusal none = omega arith
length-refusal (some fd) = omega arith

put_error-fields :
    (conn : Connection) (code : ℕ) (message : List ℕ)
    → length (error_text code message) < response_size
    → put_error conn code message
      ≡ record conn { write_buf = (put_error conn code message).write_buf; keep_alive = false }
unfolding put_error
put_error-fields conn code message h = ground (arith, h)

-- The response waits at the client, whole and alone, and the client is to be closed after it. But
-- for these two fields, the client, the rest of the configuration and the requests are as they were.
pub record IsRefused ⦃os : Os⦄ (client : ℕ) (answer : List ℕ) (s t : State) : Type 0 where
  pub buffer : Buffer
  pub answered : contents buffer ≡ answer
  pub same_config :
      let conn : Connection = s.config.connections client in
      t.config ≡ set_conn s.config client (record conn { write_buf = buffer; keep_alive = false })
  pub same_heap : t.heap ≡ s.heap
  pub same_next : t.next ≡ s.next

module _ ⦃os : Os⦄ (client : ℕ) (s : State) where
  refused :
      (code : ℕ) (message : List ℕ) (k : os.Kernel)
      → length (error_text code message) < response_size
      → Ensures
          (λ _ t. IsRefused client (error_text code message) s t)
          (send_http_error client code message (record s { kernel = k }))
  unfolding send_http_error
  refused code message k h =
      let conn = s.config.connections client in
      ensures (record {
        buffer = (put_error conn code message).write_buf;
        answered = put_error-contents conn code message h;
        same_config = ap (set_conn s.config client) (put_error-fields conn code message h);
        same_heap = refl;
        same_next = refl;
      })

  alloc-none : (alloc s.config).0 ≡ none → alloc s.config ≡ (none, s.config)
  alloc-none e = elim (alloc_pops s.config) [
    | inl (empty, same) ↦ same
    | inr (i, top, taken) ↦ ground (arith, e, taken)
  ]

  -- If the connection to the backend is not begun, or no slot is left for it, `handle_http_request`
  -- comes to its end with exactly the response 502 or 503 in the client's write buffer and with the
  -- client marked to be closed after it; the other fields of the client, the rest of the
  -- configuration and the requests on the heap are as they were.
  pub handle_http_request-IsRefused :
      (fd : Fd) (k : os.Kernel)
      → create_backend_connection s.config.backend_addr s.config.backend_port s
        ≡ some (fd, record s { kernel = k })
      → (fd ≡ none) ⊎ ((alloc s.config).0 ≡ none)
      → Ensures (λ _ t. IsRefused client (refusal fd) s t) (handle_http_request client s)
  unfolding handle_http_request with_socket with_backend close_fd
  handle_http_request-IsRefused none k begun h = rw begun (refused 502 _ k (length-refusal none))
  handle_http_request-IsRefused (some fd) k begun (inl e) = absurd (ground (arith, e))
  handle_http_request-IsRefused (some fd) k begun (inr e) =
      rw (begun, alloc-none e) (refused 503 _ _ (length-refusal (some fd)))
