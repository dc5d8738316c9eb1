-- ===== src/Safety/Unsent.antt =====
-- send_http_error and handle_write (src/proxy/proxy.c) on a client that waits for its response.
use epoll_proxy.Base.{
  ℕ, ◌<◌, ◌≡◌, refl, ◌⊎◌, inl, inr, some, false, arith, List, length, take-le, slice-blit_front,
}
use epoll_proxy.Config.{Connection, ConnState, reading_request, request_complete}
use epoll_proxy.Kernel.{Os}
use epoll_proxy.Buffer.Refine.{contents}
use epoll_proxy.Connection.{can_write}
use epoll_proxy.State.{State}
use epoll_proxy.Proxy.Respond.{error_text, put_error, response_size, send_http_error}
use epoll_proxy.Proxy.Write.{handle_write}

-- The states in which the handlers send an error response.
abbrev pub IsAwaiting : ConnState → Type 0
IsAwaiting st = (st ≡ reading_request) ⊎ (st ≡ request_complete)

-- The response that fits is in the write buffer, whole and alone.
pub put_error-contents :
    (conn : Connection) (code : ℕ) (message : List ℕ)
    → length (error_text code message) < response_size
    → contents (put_error conn code message).write_buf ≡ error_text code message
unfolding put_error contents
put_error-contents conn code message h =
    let text = error_text code message in
    ground
      (arith, take-le (length text) text (omega arith), slice-blit_front conn.write_buf.bytes text)

can_write-put_error :
    (conn : Connection) (code : ℕ) (message : List ℕ)
    → IsAwaiting conn.state
    → can_write (put_error conn code message) ≡ false
unfolding put_error can_write
can_write-put_error conn code message (inl e) = ground arith
can_write-put_error conn code message (inr e) = ground arith

module _ ⦃os : Os⦄ where
  -- For a client that is reading a request or has a complete one, `send_http_error` puts the whole
  -- response into the write buffer if it fits into the local array, and no write event takes any of
  -- it out: `handle_write` returns at once and leaves the state as it is.
  pub handle_write-send_http_error :
      (i code : ℕ) (message : List ℕ) (s : State)
      → IsAwaiting (s.config.connections i).state
      → length (error_text code message) < response_size
      → (s' : State) × (send_http_error i code message s ≡ some (tt, s'))
        × (contents (s'.config.connections i).write_buf ≡ error_text code message)
        × (handle_write i s' ≡ some (tt, s'))
  unfolding send_http_error handle_write
  handle_write-send_http_error i code message s st h = (
    _,
    refl,
    ground (arith, put_error-contents (s.config.connections i) code message h),
    ground (arith, can_write-put_error (s.config.connections i) code message st),
  )
