-- ===== src/Examples/Pairs.antt =====
-- The theorems on a client and its backends at concrete states.
use epoll_proxy.Base.{◌≡◌, refl, some, arith}
use epoll_proxy.Config.{Config, closed, reading_request}
use epoll_proxy.Connection.{alloc, pair}
use epoll_proxy.State.{State}
use epoll_proxy.Proxy.Lifecycle.{close}
use epoll_proxy.Safety.{IsOpen, IsSafe, Ensures}
use epoll_proxy.Safety.Touch.{pair-IsValid}
use epoll_proxy.Safety.Stale.{close-pair}
use epoll_proxy.Examples.Net.{net}
use epoll_proxy.Examples.Clients.{reading, reading-IsSafe}

-- The client of slot 0 after two requests.
abbrev twice : Config
twice = pair (pair reading.config 0 1) 0 2

abbrev paired_twice : State
paired_twice = record reading { config = twice }

paired_twice-IsSafe : IsSafe paired_twice
paired_twice-IsSafe =
    pair-IsValid 0 2 (pair-IsValid 0 1 reading-IsSafe (omega arith) (omega arith)) (omega arith)
      (omega arith)

state-twice : (twice.connections 0).state ≡ reading_request
unfolding pair
state-twice = refl

paired_twice-IsOpen : IsOpen twice 0
paired_twice-IsOpen = (omega arith, λ e. let same = state-twice in cc)

close-pair_example :
    Ensures
      (λ _ s.
        ((s.config.connections 0).state ≡ closed)
        × ((s.config.connections 1).peer ≡ some 0)
        × ((alloc s.config).0 ≡ some 0))
      (close (some 0) paired_twice)
close-pair_example =
    close-pair 0 1 2 reading.config paired_twice paired_twice-IsSafe refl paired_twice-IsOpen
      (λ e. omega arith) (λ e. omega arith) (λ e. omega arith)
