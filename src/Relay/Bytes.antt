-- ===== src/Relay/Bytes.antt =====
-- buffer_read_fd and buffer_write_fd (src/network/buffer.c) against the record of the traffic.
use epoll_proxy.Base.{
  ℕ, zero, suc, ◌-◌, ◌≡◌, refl, sym, ◌∙◌, ap, List, [], ◌++◌, none, some, true, append-nil, arith,
  if◌then◌else◌,
}
use native.Mathlib.Decide.{dec_lt}
use epoll_proxy.Config.{Buffer, Fd, buffer_size}
use epoll_proxy.Kernel.{Os, IsPosix, ReadReply, received, WriteReply, wrote}
use epoll_proxy.Buffer.{IoResult, read_fd, write_fd}
use epoll_proxy.Buffer.Refine.{IsValid, contents}
use epoll_proxy.Buffer.Io.{Appends, Removes, read_fd-Appends, write_fd-Removes}
use epoll_proxy.Buffer.Progress.{read_fd_full, write_fd_empty}
use epoll_proxy.Relay.Traffic.{
  IsRecorded, Traffic, same_fd, append_at, bytes_of, taken_of, note_came, note_went,
}

same_fd_refl : (fd : Fd) → same_fd fd fd ≡ true
same_fd_refl none = refl
same_fd_refl (some a) = ground arith

append_at-here :
    (f : Fd → List ℕ) (fd fd' : Fd) (xs : List ℕ) → fd ≡ fd' → append_at f fd xs fd' ≡ f fd' ++ xs
append_at-here f fd fd' xs e =
    ap (λ b. if b then f fd' ++ xs else f fd') (ap (same_fd fd) (sym e) ∙ same_fd_refl fd)

Appends-bytes_of :
    (b b' : Buffer) (reply : ReadReply) (r : IoResult)
    → Appends b reply r b'
    → contents b' ≡ contents b ++ bytes_of reply
Appends-bytes_of b b' (received xs) r a = a.1
Appends-bytes_of b b' (ReadReply.failed e) r a = ap contents a.1 ∙ sym (append-nil (contents b))

Removes-taken_of :
    (b b' : Buffer) (reply : WriteReply) (r : IoResult)
    → Removes b reply r b'
    → contents b ≡ taken_of (contents b) reply ++ contents b'
Removes-taken_of b b' (wrote zero) r a = ap contents (sym a.1)
Removes-taken_of b b' (wrote (suc n)) r a = a.1
Removes-taken_of b b' (WriteReply.failed e) r a = ap contents (sym a.1)

-- Bytes came in at a descriptor and were put behind those that wait in the buffer.
pub record CameIn (b b' : Buffer) (fd : Fd) (t t' : Traffic) : Type 0 where
  pub valid : IsValid b'
  pub bytes : List ℕ
  pub joined : contents b' ≡ contents b ++ bytes
  pub came : t'.came fd ≡ t.came fd ++ bytes
  pub same_went : t'.went ≡ t.went

-- Bytes left the front of the buffer and went out at a descriptor.
pub record WentOut (b b' : Buffer) (fd : Fd) (t t' : Traffic) : Type 0 where
  pub valid : IsValid b'
  pub bytes : List ℕ
  pub left : contents b ≡ bytes ++ contents b'
  pub went : t'.went fd ≡ t.went fd ++ bytes
  pub same_came : t'.came ≡ t.came

module _ ⦃os : Os⦄ (rec : IsRecorded os) (posix : IsPosix os) (k : os.Kernel) (b : Buffer)
    (fd fd' : Fd) (is_fd : fd ≡ fd') (v : IsValid b) where
  pub read_fd-CameIn :
      let (_, b', k') = read_fd os k b fd in CameIn b b' fd' (rec.seen k) (rec.seen k')
  read_fd-CameIn = elim (dec_lt b.len buffer_size) [
    | yes room ↦
        let (reply, after) = os.read k fd (buffer_size - b.len) in
        let (valid, appended, last) = read_fd-Appends os posix k b fd v room in
        let seen : rec.seen (read_fd os k b fd).2 ≡ note_came fd reply (rec.seen k) =
          ap rec.seen last ∙ rec.on_read k fd (buffer_size - b.len) in
        record {
          valid = valid;
          bytes = bytes_of reply;
          joined = Appends-bytes_of b _ reply _ appended;
          came = ap (λ t. t.came fd') seen ∙ append_at-here (rec.seen k).came fd fd' _ is_fd;
          same_went = ap (λ t. t.went) seen;
        }
    | no full ↦ rw (read_fd_full os posix k b fd v (omega arith)) (record {
      valid = v;
      bytes = [];
      joined = sym (append-nil _);
      came = sym (append-nil _);
      same_went = refl;
    })
  ]

  pub write_fd-WentOut :
      let (_, b', k') = write_fd os k b fd in WentOut b b' fd' (rec.seen k) (rec.seen k')
  write_fd-WentOut = elim (dec_lt b.pos b.len) [
    | yes some_wait ↦
        let (reply, after) = os.write k fd (contents b) in
        let (valid, removed, last) = write_fd-Removes os posix k b fd v some_wait in
        let seen : rec.seen (write_fd os k b fd).2 ≡ note_went fd (contents b) reply (rec.seen k) =
          ap rec.seen last ∙ rec.on_write k fd (contents b) in
        record {
          valid = valid;
          bytes = taken_of (contents b) reply;
          left = Removes-taken_of b _ reply _ removed;
          went = ap (λ t. t.went fd') seen ∙ append_at-here (rec.seen k).went fd fd' _ is_fd;
          same_came = ap (λ t. t.came) seen;
        }
    | no empty ↦
        rw (write_fd_empty os posix k b fd v (omega arith)) (record {
          valid = v;
          bytes = [];
          left = refl;
          went = sym (append-nil _);
          same_came = refl;
        })
  ]
