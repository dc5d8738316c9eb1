-- ===== src/Connection/Pool/Steps.antt =====
-- Every operation on the pool keeps its invariant (src/network/connection.c).
use epoll_proxy.Base.{
  ℕ, ◌+◌, ◌-◌, ◌<◌, ◌≡◌, ◌≢◌, ◌⊎◌, inl, inr, refl, subst, List, [], ◌∷◌, Option, some, none, arith,
  Option-cases, add_size, sub_size,
}
use epoll_proxy.Config.{Config, Connection, closed, update, max_connections}
use epoll_proxy.Buffer.Refine.{clear-IsValid}
use epoll_proxy.Connection.{set_conn, set_peer, alloc, free, freed, unpair, pair}
use epoll_proxy.Connection.FreeList.{
  free_stack, stack_of, length-stack_of, stack_of-pop, stack_of-push, All, Absent, Distinct,
  length_of_Distinct,
}
use epoll_proxy.Connection.Pool.{IsFree, IsSound, IsProper}

pub proper : {c : Config} → IsSound c → (i : ℕ) → i < max_connections → IsProper (c.connections i)
proper s i h = record {
  reading = (s.buffers i h).0;
  writing = (s.buffers i h).1;
  peer_in = λ j. s.peers i j h;
}

-- A slot keeps what makes it free if a closed connection is not reopened in it.
ready-update :
    (conns : ℕ → Connection) (i : ℕ) (conn : Connection) (xs : List ℕ)
    → Absent i xs ⊎ ((conns i).state ≡ closed → conn.state ≡ closed)
    → All (IsFree conns) xs
    → All (IsFree (update conns i conn)) xs
ready-update conns i conn [] h r = tt
ready-update conns i conn (x ∷ xs) (inl a) r =
    ground (arith, ready-update conns i conn xs (inl a.1) r.1)
ready-update conns i conn (x ∷ xs) (inr k) r =
    ground (arith, ready-update conns i conn xs (inr k) r.1)

-- A slot in use is not in the free list.
pub Absent-of_open :
    (conns : ℕ → Connection) (i : ℕ) (xs : List ℕ)
    → (conns i).state ≢ closed
    → All (IsFree conns) xs
    → Absent i xs
Absent-of_open conns i [] h r = tt
Absent-of_open conns i (x ∷ xs) h r =
    ((λ e. h (subst (λ k. (conns k).state ≡ closed) e r.0.1)), Absent-of_open conns i xs h r.1)

-- An assignment to a connection keeps the invariant, if it does not open a slot that is free.
pub set_conn-IsSound :
    {c : Config} (i : ℕ) (conn : Connection)
    → IsSound c
    → IsProper conn
    → Absent i (free_stack c) ⊎ ((c.connections i).state ≡ closed → conn.state ≡ closed)
    → IsSound (set_conn c i conn)
set_conn-IsSound {c} i conn s p h = record {
  bounded = s.bounded;
  distinct = s.distinct;
  ready = ready-update c.connections i conn (free_stack c) h s.ready;
  accounted = s.accounted;
  buffers = λ j h. ground (arith, s.buffers j h, p);
  peers = λ j k h e. ground (arith, s.peers j k h, p.peer_in k);
}

pub set_peer-IsSound :
    {c : Config} (i : ℕ) (peer : Option ℕ)
    → IsSound c
    → i < max_connections
    → ((j : ℕ) → peer ≡ some j → j < max_connections)
    → IsSound (set_peer c i peer)
set_peer-IsSound {c} i peer s hi h =
    set_conn-IsSound i _ s
      (record { reading = (s.buffers i hi).0; writing = (s.buffers i hi).1; peer_in = h })
      (inr (λ e. e))

pub unpair-IsSound :
    {c : Config} (i : ℕ) → IsSound c → i < max_connections → IsSound (unpair c (some i))
unfolding unpair
unpair-IsSound {c} i s h = elim (Option-cases (c.connections i).peer) [
  | inl e ↦ rw (e, unpair) s
  | inr (j, e) ↦
      rw (e, unpair)
        (set_peer-IsSound i none (set_peer-IsSound j none s (s.peers i j h e) (λ k e'. cc)) h
          (λ k e'. cc))
]

pub pair-IsSound :
    {c : Config} (i j : ℕ)
    → IsSound c
    → i < max_connections
    → j < max_connections
    → IsSound (pair c i j)
unfolding pair
pair-IsSound i j s hi hj =
    set_peer-IsSound j (some i) (set_peer-IsSound i (some j) s hi (λ k e. ground arith)) hj
      (λ k e. ground arith)

ready_mono :
    (conns conns' : ℕ → Connection) (xs : List ℕ)
    → ((i : ℕ) → (conns i).state ≡ closed → (conns' i).state ≡ closed)
    → All (IsFree conns) xs
    → All (IsFree conns') xs
ready_mono conns conns' [] h r = tt
ready_mono conns conns' (x ∷ xs) h r = ((r.0.0, h x r.0.1), ready_mono conns conns' xs h r.1)

-- The pool after the slot `i` is taken from the top of its free list.
abbrev pub taken : Config → ℕ → Config
taken c i = record c {
  free_count = c.free_count - 1;
  connections = update c.connections i (c.connections i);
  stats = record c.stats {
    total_connections = add_size c.stats.total_connections 1;
    active_connections = add_size c.stats.active_connections 1;
  };
}

-- The free list's entries, with the top one apart.
record Top (c : Config) (i : ℕ) : Type 0 where
  some_left : c.free_count ≢ 0
  distinct : Distinct (i ∷ stack_of c.free_list (c.free_count - 1))
  ready : All (IsFree c.connections) (i ∷ stack_of c.free_list (c.free_count - 1))

top : {c : Config} → IsSound c → c.free_count ≢ 0 → Top c (c.free_list (c.free_count - 1))
top {c} s h = record {
  some_left = h;
  distinct = subst Distinct (stack_of-pop c.free_list c.free_count h) s.distinct;
  ready = subst (All (IsFree c.connections)) (stack_of-pop c.free_list c.free_count h) s.ready;
}

alloc-taken :
    {c : Config} (i : ℕ) → IsSound c → (alloc c).0 ≡ some i → Top c i × ((alloc c).1 ≡ taken c i)
unfolding alloc
alloc-taken {c} i s e =
    let left : c.free_count ≢ 0 = λ z. ground arith in
    let same : c.free_list (c.free_count - 1) ≡ i = ground arith in
    let t = top s left in (subst (Top c) same t, ground (arith, t.ready))

pub alloc-connections :
    {c : Config} (i k : ℕ)
    → IsSound c
    → (alloc c).0 ≡ some i
    → (alloc c).1.connections k ≡ c.connections k
alloc-connections {c} i k s e = let (t, same) = alloc-taken i s e in ground arith

taken-IsSound : {c : Config} (i : ℕ) → IsSound c → Top c i → IsSound (taken c i)
taken-IsSound {c} i s t = record {
  bounded = omega (arith, s.bounded);
  distinct = t.distinct.1;
  ready = ready-update c.connections i (c.connections i) _ (inr (λ e. e)) t.ready.1;
  accounted = omega (arith, s.accounted, t.some_left);
  buffers = λ j h. ground (arith, s.buffers j h);
  peers = λ j k h e. ground (arith, s.peers j k h);
}

-- From a sound pool, a slot that `connection_alloc` hands out lies in the pool, is closed and has
-- left the free list, and the pool is sound again.
pub alloc-IsSound :
    {c : Config} (i : ℕ)
    → IsSound c
    → (alloc c).0 ≡ some i
    → IsSound (alloc c).1
      × (i < max_connections)
      × Absent i (free_stack (alloc c).1)
      × (((alloc c).1.connections i).state ≡ closed)
alloc-IsSound {c} i s e =
    let (t, same) = alloc-taken i s e in
    rw same (taken-IsSound i s t, t.ready.0.0, t.distinct.0, ground (arith, t.ready))

-- With a slot in use, the free list has room: the overflow that `connection_free` reports as a bug
-- does not happen.
pub free_count-lt :
    {c : Config} (i : ℕ)
    → IsSound c
    → i < max_connections
    → Absent i (free_stack c)
    → c.free_count < max_connections
free_count-lt {c} i s h a = omega (
  arith,
  length-stack_of c.free_list c.free_count,
  length_of_Distinct max_connections (i ∷ free_stack c) (a, s.distinct)
      (h, below (free_stack c) s.ready),
)
  where
    below : (xs : List ℕ) → All (IsFree c.connections) xs → All (λ x. x < max_connections) xs
    below [] r = tt
    below (x ∷ xs) r = (r.0.0, below xs r.1)

pub state-freed : (conn : Connection) → (freed conn).state ≡ closed
unfolding freed
state-freed conn = refl

pub freed-IsProper : {conn : Connection} → IsProper conn → IsProper (freed conn)
unfolding freed
freed-IsProper p = record {
  reading = clear-IsValid p.reading;
  writing = clear-IsValid p.writing;
  peer_in = λ j e. cc;
}

-- The pool after the slot `i` is put back.
abbrev pub given_back : Config → ℕ → Config
given_back c i = record c {
  connections = update c.connections i (freed (c.connections i));
  free_list = update c.free_list c.free_count i;
  free_count = c.free_count + 1;
  stats = record c.stats { active_connections = sub_size c.stats.active_connections 1 };
}

pub free-given_back :
    (c : Config) (i : ℕ)
    → i < max_connections
    → c.free_count < max_connections
    → free c (some i) ≡ given_back c i
unfolding free
free-given_back i h room = ground arith

given_back-IsSound :
    {c : Config} (i : ℕ)
    → IsSound c
    → i < max_connections
    → Absent i (free_stack c)
    → IsSound (given_back c i)
given_back-IsSound {c} i s h a = record {
  bounded = omega (arith, free_count-lt i s h a);
  distinct = rw (stack_of-push c.free_list c.free_count i) (a, s.distinct);
  ready = rw (stack_of-push c.free_list c.free_count i) (
    ground (arith, h, state-freed (c.connections i)),
    ready-update c.connections i _ (free_stack c) (inl a) s.ready,
  );
  accounted = omega (arith, s.accounted, free_count-lt i s h a);
  buffers = λ j hj. ground (arith, s.buffers j hj, freed-IsProper (proper s i h));
  peers = λ j k hj e. ground (arith, s.peers j k hj, (freed-IsProper (proper s i h)).peer_in k);
}

-- In a sound pool, `connection_free` of a slot of the pool that is not in the free list leaves a
-- sound pool.
pub free-IsSound :
    {c : Config} (i : ℕ)
    → IsSound c
    → i < max_connections
    → Absent i (free_stack c)
    → IsSound (free c (some i))
free-IsSound {c} i s h a =
    rw (free-given_back c i h (free_count-lt i s h a)) (given_back-IsSound i s h a)
