-- ===== src/Proxy/Respond.antt =====
-- send_http_error (src/proxy/proxy.c).
use epoll_proxy.Base.{
  ℕ, ◌+◌, List, [], ◌∷◌, ◌++◌, false, ltb, if◌then◌else◌, length, take, blit, codes,
}
use epoll_proxy.Base.Decimal.{decimal}
use epoll_proxy.Config.{Connection, buffer_size}
use epoll_proxy.Kernel.{Os}
use epoll_proxy.Http.Chars.{crlf}
use epoll_proxy.Http.Query.{get_status_line}
use epoll_proxy.State.{M, get_conn, put_conn, ◌>>=◌}

unfoldable pub error_text : ℕ → List ℕ → List ℕ
unfolding decimal get_status_line
error_text status_code message =
    get_status_line status_code
    ++ (codes "Content-Type: text/plain"
        ++ (crlf
            ++ (codes "Content-Length: "
                ++ (decimal 20 (length message + 1)
                    ++ (crlf
                        ++ (codes "Connection: close"
                            ++ (crlf ++ (crlf ++ (message ++ b'\n' ∷ [])))))))))

-- The size of the local array `response`.
abbrev pub response_size : ℕ
response_size = 1024

-- A response that does not fit in the array is not sent.
unfoldable pub put_error : Connection → ℕ → List ℕ → Connection
put_error conn status_code message =
    let response = error_text status_code message in
    let copy_len = if ltb (length response) buffer_size then length response else buffer_size in
    if ltb (length response) response_size
    then record conn {
      write_buf = record conn.write_buf {
        bytes = blit conn.write_buf.bytes 0 (take copy_len response);
        len = copy_len;
        pos = 0;
      };
      keep_alive = false;
    }
    else conn

module _ ⦃os : Os⦄ where
  unfoldable pub send_http_error : ℕ → ℕ → List ℕ → M (Unit {0})
  send_http_error i status_code message = do
    conn ← get_conn i
    put_conn i (put_error conn status_code message)
