-- ===== src/Buffer/Queue.antt =====
-- Any sequence of calls of src/network/buffer.c against a first-in first-out queue of bytes.
use epoll_proxy.Base.{
  ℕ, ◌≡◌, sym, ◌∙◌, ap, List, [], ◌∷◌, ◌++◌, take, arith, append_assoc, leb, subst, zero, suc, ◌-◌,
  if◌then◌else◌, append-nil, true, false,
}
use native.Mathlib.Decide.{dec_lt}
use epoll_proxy.Config.{Buffer, Fd, buffer_size}
use epoll_proxy.Kernel.{Os, IsPosix, ReadReply, received, WriteReply, wrote}
use epoll_proxy.Buffer.{IoResult, compact, read_fd, write_fd}
use epoll_proxy.Buffer.Refine.{IsValid, contents, compact-IsValid, contents-compact}
use epoll_proxy.Buffer.Io.{Appends, Removes, read_fd-Appends, write_fd-Removes}
use epoll_proxy.Buffer.Progress.{read_fd_full, write_fd_empty}

-- What passes between the kernel and the queue in one call.
pub data Transfer : Type 0 where
  came went : List ℕ → Transfer
  nothing : Transfer

-- The queue: bytes come in behind and go out in front, as many as the kernel pleases.
pub data Step : List ℕ → Transfer → List ℕ → Type 0 where
  push : (q xs : List ℕ) → Step q (came xs) (q ++ xs)
  pop : (xs q : List ℕ) → Step (xs ++ q) (went xs) q
  stay : (q : List ℕ) → Step q nothing q

pub data IsRun : List ℕ → List Transfer → List ℕ → Type 0 where
  stop : (q : List ℕ) → IsRun q [] q
  step :
      {q q' q'' : List ℕ} {t : Transfer} {ts : List Transfer}
      → Step q t q'
      → IsRun q' ts q''
      → IsRun q (t ∷ ts) q''

-- All that came in, and all that went out, in order.
unfoldable pub all_in : List Transfer → List ℕ
all_in [] = []
all_in (came xs ∷ ts) = xs ++ all_in ts
all_in (went xs ∷ ts) = all_in ts
all_in (nothing ∷ ts) = all_in ts

unfoldable pub all_out : List Transfer → List ℕ
all_out [] = []
all_out (came xs ∷ ts) = all_out ts
all_out (went xs ∷ ts) = xs ++ all_out ts
all_out (nothing ∷ ts) = all_out ts

-- Nothing is lost, repeated or reordered.
IsRun-in_order :
    {q q' : List ℕ} {ts : List Transfer} → IsRun q ts q' → all_out ts ++ q' ≡ q ++ all_in ts
unfolding all_in all_out
IsRun-in_order (stop q) = sym (append-nil q)
IsRun-in_order (step (push q xs) r) = IsRun-in_order r ∙ append_assoc q xs _
IsRun-in_order (step (pop xs q) r) =
    append_assoc xs _ _ ∙ ap (◌++◌ xs) (IsRun-in_order r) ∙ sym (append_assoc xs q _)
IsRun-in_order (step (stay q) r) = IsRun-in_order r

-- A call on the buffer.
pub data Call : Type 0 where
  read_call write_call : Fd → Call
  compact_call : Call

module _ (os : Os) where
  -- What the call does.
  unfoldable pub perform : Call → os.Kernel → Buffer → Buffer × os.Kernel
  perform (read_call fd) k b = let (_, b', k') = read_fd os k b fd in (b', k')
  perform (write_call fd) k b = let (_, b', k') = write_fd os k b fd in (b', k')
  perform compact_call k b = (compact b, k)

  abbrev transfer_in : ReadReply → Transfer
  transfer_in (received xs) = came xs
  transfer_in (ReadReply.failed e) = nothing

  abbrev transfer_out : List ℕ → WriteReply → Transfer
  transfer_out q (wrote n) = went (take n q)
  transfer_out q (WriteReply.failed e) = nothing

  -- What the kernel hands over or takes in it; a full buffer asks for nothing, and an empty one
  -- offers nothing.
  unfoldable pub transfer : Call → os.Kernel → Buffer → Transfer
  transfer (read_call fd) k b =
      if leb buffer_size b.len then nothing else transfer_in (os.read k fd (buffer_size - b.len)).0
  transfer (write_call fd) k b =
      if leb b.len b.pos then nothing else transfer_out (contents b) (os.write k fd (contents b)).0
  transfer compact_call k b = nothing

  unfoldable pub perform_all : List Call → os.Kernel → Buffer → Buffer × os.Kernel
  perform_all [] k b = (b, k)
  perform_all (c ∷ cs) k b = let (b', k') = perform c k b in perform_all cs k' b'

  unfoldable pub transfers : List Call → os.Kernel → Buffer → List Transfer
  transfers [] k b = []
  transfers (c ∷ cs) k b = let (b', k') = perform c k b in transfer c k b ∷ transfers cs k' b'

  module _ (posix : IsPosix os) where
    Appends-Step :
        (b b' : Buffer) (reply : ReadReply) (r : IoResult)
        → Appends b reply r b'
        → Step (contents b) (transfer_in reply) (contents b')
    Appends-Step b b' (received xs) r a = subst (Step _ _) (sym a.1) (push _ _)
    Appends-Step b b' (ReadReply.failed e) r a =
        subst (λ c. Step (contents b) nothing (contents c)) (sym a.1) (stay _)

    Removes-Step :
        (b b' : Buffer) (reply : WriteReply) (r : IoResult)
        → Removes b reply r b'
        → Step (contents b) (transfer_out (contents b) reply) (contents b')
    Removes-Step b b' (wrote zero) r a =
        subst (λ c. Step (contents b) (went []) (contents c)) (sym a.1) (pop [] _)
    Removes-Step b b' (wrote (suc n)) r a =
        subst (λ q. Step q (went (take (suc n) (contents b))) (contents b')) (sym a.1) (pop _ _)
    Removes-Step b b' (WriteReply.failed e) r a =
        subst (λ c. Step (contents b) nothing (contents c)) (sym a.1) (stay _)

    perform-Step :
        (c : Call) (k : os.Kernel) (b : Buffer)
        → IsValid b
        → let b' = (perform c k b).0 in
          IsValid b' × Step (contents b) (transfer c k b) (contents b')
    unfolding perform transfer
    perform-Step (read_call fd) k b v = elim (dec_lt b.len buffer_size) [
      | yes room ↦
          let (valid, appended, _) = read_fd-Appends os posix k b fd v room in
          let e : leb buffer_size b.len ≡ false = ground arith in
          rw e (valid, Appends-Step b _ _ _ appended)
      | no full ↦
          let e : leb buffer_size b.len ≡ true = ground arith in
          rw (e, read_fd_full os posix k b fd v (omega arith)) (v, stay _)
    ]
    perform-Step (write_call fd) k b v = elim (dec_lt b.pos b.len) [
      | yes waiting ↦
          let (valid, removed, _) = write_fd-Removes os posix k b fd v waiting in
          let e : leb b.len b.pos ≡ false = ground arith in
          rw e (valid, Removes-Step b _ _ _ removed)
      | no none_wait ↦
          let e : leb b.len b.pos ≡ true = ground arith in
          rw (e, write_fd_empty os posix k b fd v (omega arith)) (v, stay _)
    ]
    perform-Step compact_call k b v =
        (compact-IsValid v, subst (Step (contents b) nothing) (sym (contents-compact v)) (stay _))

    transfers-IsRun :
        (cs : List Call) (k : os.Kernel) (b : Buffer)
        → IsValid b
        → let b' = (perform_all cs k b).0 in
          IsValid b' × IsRun (contents b) (transfers cs k b) (contents b')
    unfolding perform_all transfers
    transfers-IsRun [] k b v = (v, stop _)
    transfers-IsRun (c ∷ cs) k b v =
        let (v', s) = perform-Step c k b v in
        let (b', k') = perform c k b in
        let (valid, run) = transfers-IsRun cs k' b' v' in (valid, step s run)

    -- In any sequence of reads, writes and compactions, from a valid buffer, with read and write
    -- counts that POSIX allows, the buffer stays valid and its waiting bytes take the steps of a
    -- first-in first-out queue; what went out and what waits at the end are together what waited at
    -- the start and what came in, in this order.
    pub perform_all-IsRun :
        (cs : List Call) (k : os.Kernel) (b : Buffer)
        → IsValid b
        → let b' = (perform_all cs k b).0 in
          let ts = transfers cs k b in
          IsValid b'
          × IsRun (contents b) ts (contents b')
          × (all_out ts ++ contents b' ≡ contents b ++ all_in ts)
    perform_all-IsRun cs k b v =
        let (valid, run) = transfers-IsRun cs k b v in (valid, run, IsRun-in_order run)
