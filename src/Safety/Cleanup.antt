-- ===== src/Safety/Cleanup.antt =====
-- proxy_cleanup (src/proxy/proxy.c) against the invariant.
use epoll_proxy.Base.{
  ℕ, zero, suc, ◌+◌, ◌≤◌, ◌<◌, ◌≡◌, ◌≢◌, sym, ◌∙◌, subst, Option, none, some, inl, inr, arith,
  Option-cases, ℕ_discrete,
}
use epoll_proxy.Config.{Config, Connection, Fd, closed, max_connections}
use epoll_proxy.Kernel.{Os, IsReliable}
use epoll_proxy.Http.{Request}
use epoll_proxy.Connection.{is_closed, set_conn}
use epoll_proxy.Connection.Pool.{IsSound}
use epoll_proxy.Connection.Pool.Steps.{proper, set_conn-IsSound}
use epoll_proxy.State.{State, done, ◌>>◌, put_conn}
use epoll_proxy.Proxy.Lifecycle.{close, close_open}
use epoll_proxy.Proxy.Cleanup.{
  drop_open, drop_slot, drop_slots, drop_listener, drop_epoll, proxy_cleanup,
}
use epoll_proxy.Safety.{IsOpen, IsLive, IsSafe, Owns, requests, Ensures, ensures, IsQuiet}
use epoll_proxy.Safety.Rules.{bind, branch, after_quiet, bind-IsQuiet, pure-IsQuiet}
use epoll_proxy.Safety.Kernel.{close_socket-IsQuiet, epoll_del-IsQuiet, close_fd-IsQuiet}
use epoll_proxy.Safety.Lifecycle.{release-Released}
use epoll_proxy.Safety.Owned.{freed-IsLive}
use epoll_proxy.Safety.Close.{after_release, after_release-none}

-- The slots that the loop has not come to.
abbrev IsAhead : ℕ → ℕ → Type 0
IsAhead i k = (k < max_connections) × (i ≤ k)

-- Before the round `i` of the loop.
record IsRest ⦃os : Os⦄ (i : ℕ) (s : State) : Type 0 where
  sound : IsSound s.config
  owned : Owns (IsAhead i) (requests s.config) s.heap s.next
  behind : (k : ℕ) → k < i → (s.config.connections k).state ≡ closed

-- A slot leaves, and what the others point to stays live.
Owns-rest :
    {P Q : ℕ → Type 0} {reqs reqs' : ℕ → Option ℕ} {heap heap' : ℕ → Option Request} {next i : ℕ}
    → Owns P reqs heap next
    → P i
    → ((k : ℕ) → Q k → P k × (k ≢ i) × (reqs' k ≡ reqs k))
    → ((p : Option ℕ) → IsLive heap next p → p ≢ reqs i → IsLive heap' next p)
    → Owns Q reqs' heap' next
Owns-rest {reqs} {heap'} {next} {i} o in_P sub stays = record {
  lives = λ k q n.
      let (p, ne, e) = sub k q in
      let n' : reqs k ≢ none = λ e'. n (e ∙ e') in
      subst (IsLive heap' next) (sym e) (stays _ (o.lives k p n') (o.alone k i p in_P ne n'));
  alone = λ k l q r ne n same.
      let (p, _, e) = sub k q in
      let (p', _, e') = sub l r in o.alone k l p p' ne (λ e''. n (e ∙ e'')) (sym e ∙ same ∙ e');
}

module _ ⦃os : Os⦄ where
  -- The pool is sound and every slot is closed.
  abbrev pub IsShut : State → Type 0
  IsShut s =
      IsSound s.config × ((i : ℕ) → i < max_connections → (s.config.connections i).state ≡ closed)

  -- A closed slot is passed over.
  skip-IsRest :
      (i : ℕ) (s : State) → IsRest i s → (s.config.connections i).state ≡ closed → IsRest (i + 1) s
  skip-IsRest i s r e = record {
    sound = r.sound;
    owned = record {
      lives = λ k h. r.owned.lives k (h.0, omega (arith, h.1));
      alone = λ k l h h'. r.owned.alone k l (h.0, omega (arith, h.1)) (h'.0, omega (arith, h'.1));
    };
    behind =
        λ k h. elim (ℕ_discrete k i) [ yes same ↦ rw same e | no ne ↦ r.behind k (omega arith) ];
  }

  -- The connection of the round is closed, its request freed before.
  close-IsRest :
      (i : ℕ) (heap : ℕ → Option Request) (s : State)
      → IsRest i s
      → IsOpen s.config i
      → ((p : Option ℕ)
          → IsLive s.heap s.next p
          → p ≢ (s.config.connections i).http_req
          → IsLive heap s.next p)
      → Ensures
          (λ _. IsRest (i + 1))
          ((put_conn i (record (s.config.connections i) { http_req = none }) >> close (some i))
            (record s { heap = heap }))
  unfolding close close_open
  close-IsRest i heap s r o stays =
      let conn : Connection = record (s.config.connections i) { http_req = none } in
      let c : Config = set_conn s.config i conn in
      let s' : State = record s { config = c; heap = heap } in
      let p = proper r.sound i o.0 in
      let sound : IsSound c =
        set_conn-IsSound i conn r.sound
          (record { reading = p.reading; writing = p.writing; peer_in = p.peer_in })
          (inr (λ e. absurd (o.1 e))) in
      let o' : IsOpen c i = (o.0, ground (arith, o)) in
      let rel = release-Released c i sound o' in
      branch (is_closed (c.connections i).state) done (close_open i)
        (λ e. absurd (o'.1 (ground arith)))
        (λ _. after_quiet s' _ (close_socket-IsQuiet c.epoll_fd (c.connections i).fd s') (λ _ k.
          ensures (record {
            sound = rel.sound;
            owned =
                Owns-rest r.owned (o.0, omega arith)
                  (λ k h. (
                    (h.0, omega (arith, h.1)),
                    omega (arith, h.1),
                    rel.keeps.same_request k ∙ ground (arith, h.1),
                  ))
                  stays;
            behind = λ k h. elim (ℕ_discrete k i) [
              | yes same ↦ rw same rel.is_closed
              | no ne ↦ rel.stays_closed k (ground (arith, r.behind k))
            ];
          })))

  drop_open-IsRest :
      (i : ℕ) (s : State)
      → IsRest i s
      → IsOpen s.config i
      → Ensures (λ _. IsRest (i + 1)) (drop_open i s)
  unfolding drop_open
  drop_open-IsRest i s r o = elim (Option-cases (s.config.connections i).http_req) [
    | inl e ↦ after_release-none _ s _ e (close-IsRest i s.heap s r o (λ p l _. l))
    | inr (a, e) ↦
        let l = r.owned.lives i (o.0, omega arith) (λ e'. cc) in
        after_release _ s _ l (
          close-IsRest i _ s r o
            (λ p l' ne. freed-IsLive l.address l' (λ e'. ne (e' ∙ sym l.is_address))))
  ]

  drop_slot-IsRest :
      (i : ℕ) (s : State)
      → IsRest i s
      → i < max_connections
      → Ensures (λ _. IsRest (i + 1)) (drop_slot i s)
  unfolding drop_slot
  drop_slot-IsRest i s r h =
      branch (is_closed (s.config.connections i).state) done (drop_open i)
        (λ e. ensures (skip-IsRest i s r (ground arith)))
        (λ e. drop_open-IsRest i s r (h, λ e'. ground arith))

  drop_slots-IsRest :
      (rounds i : ℕ) (s : State)
      → IsRest i s
      → i + rounds ≡ max_connections
      → Ensures (λ _. IsRest max_connections) (drop_slots rounds i s)
  unfolding drop_slots
  drop_slots-IsRest zero i s r e =
      ensures (subst (λ n. IsRest n s) (let h : i ≡ max_connections = omega arith in h) r)
  drop_slots-IsRest (suc rounds) i s r e =
      bind (drop_slot-IsRest i s r (omega arith))
        (λ _ s' r'. drop_slots-IsRest rounds (i + 1) s' r' (omega arith))

  drop_listener-IsQuiet : (epoll_fd fd : Fd) → IsQuiet (drop_listener epoll_fd fd)
  unfolding drop_listener
  drop_listener-IsQuiet epoll_fd none = pure-IsQuiet tt
  drop_listener-IsQuiet epoll_fd (some fd) =
      bind-IsQuiet _ _ (epoll_del-IsQuiet epoll_fd (some fd)) (λ _. close_fd-IsQuiet (some fd))

  drop_epoll-IsQuiet : (fd : Fd) → IsQuiet (drop_epoll fd)
  unfolding drop_epoll
  drop_epoll-IsQuiet none = pure-IsQuiet tt
  drop_epoll-IsQuiet (some fd) = close_fd-IsQuiet (some fd)

  start-IsRest : IsReliable os → (s : State) → IsSafe s → IsRest 0 s
  start-IsRest reliable s v =
      let o = v.owned reliable in
      record {
        sound = v.sound;
        owned = record { lives = λ k h. o.lives k h.0; alone = λ k l h h'. o.alone k l h.0 h'.0 };
        behind = λ k h. absurd (omega arith);
      }

  -- With a kernel that never refuses to register a descriptor, `proxy_cleanup` in a safe state comes
  -- to its end (no request is freed twice) and leaves a sound pool in which every slot is closed.
  pub proxy_cleanup-IsShut :
      IsReliable os → (s : State) → IsSafe s → Ensures (λ _. IsShut) (proxy_cleanup s)
  unfolding proxy_cleanup
  proxy_cleanup-IsShut reliable s v =
      bind (drop_slots-IsRest max_connections 0 s (start-IsRest reliable s v) (omega arith))
        (λ _ s' r.
          after_quiet s' _ (drop_listener-IsQuiet s'.config.epoll_fd s'.config.listen_fd s') (λ _ k.
            let (_, _, same) = drop_epoll-IsQuiet s'.config.epoll_fd (record s' { kernel = k }) in
            rw same (ensures (r.sound, r.behind))))
