-- ===== src/Epoll/Quiet.antt =====
-- The socket utilities of src/core/epoll.c change nothing but the kernel's state.
use epoll_proxy.Base.{ℕ, refl, List, Option, none, some, Bool, true, false}
use epoll_proxy.Config.{Fd}
use epoll_proxy.Kernel.{Os, FdReply, opened, Errno}
use epoll_proxy.Epoll.{
  close_fd, set_flag, set_nonblocking, set_more_options, set_socket_options, give_up, unless_failed,
  start_connecting, start_listening, with_socket, create_backend_connection, create_listen_socket,
  succeeded, epoll_init, listen_backlog,
}
use epoll_proxy.State.{M, pure, system, ◌>>=◌}
use epoll_proxy.Safety.{IsQuiet}
use epoll_proxy.Safety.Rules.{pure-IsQuiet, bind-IsQuiet, branch-IsQuiet}

module _ ⦃os : Os⦄ where
  set_flag-IsQuiet : (fd : Fd) (flags : Option ℕ) → IsQuiet (set_flag fd flags)
  unfolding set_flag
  set_flag-IsQuiet fd none s = (_, _, refl)
  set_flag-IsQuiet fd (some flags) s = (_, _, refl)

  pub set_nonblocking-IsQuiet : (fd : Fd) → IsQuiet (set_nonblocking fd)
  unfolding set_nonblocking
  set_nonblocking-IsQuiet fd s = set_flag-IsQuiet fd _ _

  set_more_options-IsQuiet : (fd : Fd) (more : Bool) → IsQuiet (set_more_options fd more)
  unfolding set_more_options
  set_more_options-IsQuiet fd false s = (_, _, refl)
  set_more_options-IsQuiet fd true s = (_, _, refl)

  pub set_socket_options-IsQuiet : (fd : Fd) → IsQuiet (set_socket_options fd)
  unfolding set_socket_options
  set_socket_options-IsQuiet fd s = set_more_options-IsQuiet fd _ _

  unless_failed-IsQuiet :
      (fd : Fd) (step : M Bool) (rest : M Fd)
      → IsQuiet step
      → IsQuiet rest
      → IsQuiet (unless_failed fd step rest)
  unfolding close_fd
  unless_failed-IsQuiet fd step rest p q =
      bind-IsQuiet step _ p (λ ok. branch-IsQuiet ok rest (give_up fd) q (λ s. (_, _, refl)))

  call-IsQuiet :
      (f : os.Kernel → Option Errno × os.Kernel) → IsQuiet (do r ← system f; pure (succeeded r))
  call-IsQuiet f s = (_, _, refl)

  start_connecting-IsQuiet :
      (addr : List ℕ) (port : ℕ) (fd : Fd) → IsQuiet (start_connecting addr port fd)
  unfolding start_connecting
  start_connecting-IsQuiet addr port fd =
      unless_failed-IsQuiet fd _ _ (set_nonblocking-IsQuiet fd) (
        unless_failed-IsQuiet fd _ _ (set_socket_options-IsQuiet fd) (
          unless_failed-IsQuiet fd _ _ (pure-IsQuiet _)
            (unless_failed-IsQuiet fd _ _ (λ s. (_, _, refl)) (pure-IsQuiet fd))))

  start_listening-IsQuiet :
      (addr : List ℕ) (port : ℕ) (fd : Fd) → IsQuiet (start_listening addr port fd)
  unfolding start_listening
  start_listening-IsQuiet addr port fd =
      unless_failed-IsQuiet fd _ _ (set_socket_options-IsQuiet fd) (
        unless_failed-IsQuiet fd _ _ (set_nonblocking-IsQuiet fd) (
          unless_failed-IsQuiet fd _ _ (pure-IsQuiet (os.inet_pton addr)) (
            unless_failed-IsQuiet fd _ _ (call-IsQuiet (λ k. os.bind k fd addr port)) (
              unless_failed-IsQuiet fd _ _ (call-IsQuiet (λ k. os.listen k fd listen_backlog))
                (pure-IsQuiet fd)))))

  with_socket-IsQuiet :
      (use_fd : Fd → M Fd) (r : FdReply)
      → ((fd : Fd) → IsQuiet (use_fd fd))
      → IsQuiet (with_socket use_fd r)
  unfolding with_socket
  with_socket-IsQuiet use_fd (opened fd) h s = h (some fd) s
  with_socket-IsQuiet use_fd (FdReply.failed e) h s = (_, _, refl)

  pub create_backend_connection-IsQuiet :
      (addr : List ℕ) (port : ℕ) → IsQuiet (create_backend_connection addr port)
  unfolding create_backend_connection
  create_backend_connection-IsQuiet addr port s =
      with_socket-IsQuiet _ _ (start_connecting-IsQuiet addr port) _

  pub create_listen_socket-IsQuiet :
      (addr : List ℕ) (port : ℕ) → IsQuiet (create_listen_socket addr port)
  unfolding create_listen_socket
  create_listen_socket-IsQuiet addr port s =
      with_socket-IsQuiet _ _ (start_listening-IsQuiet addr port) _

  pub epoll_init-IsQuiet : IsQuiet epoll_init
  unfolding epoll_init
  epoll_init-IsQuiet s = (_, _, refl)
