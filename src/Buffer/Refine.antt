-- ===== src/Buffer/Refine.antt =====
-- src/network/buffer.c as a queue of bytes: what each function does to the bytes that wait.
use epoll_proxy.Base.{
  ℕ, ◌+◌, ◌-◌, ◌%◌, ◌^◌, ◌≤◌, ◌≡◌, refl, sym, sub_size, ap, ◌∙◌, List, [], ◌∷◌, ◌++◌, arith, length,
  take, slice, blit, length-slice, length-blit, length-replicate, slice-blit_after,
  slice-blit_front, slice-add, slice-zero, take-slice, append-nil, slice-front,
}
use epoll_proxy.Config.{Buffer, buffer_size}
use epoll_proxy.Kernel.{received, wrote}
use epoll_proxy.Buffer.{init, clear, compact, readable_bytes, writable_bytes, fill, drain}

-- The positions are in order and inside an array of the declared size.
pub record IsValid (b : Buffer) : Type 0 where
  pub whole : length b.bytes ≡ buffer_size
  pub ordered : b.pos ≤ b.len
  pub inside : b.len ≤ buffer_size

-- The bytes that wait to be written out, oldest first.
unfoldable pub contents : Buffer → List ℕ
contents b = slice b.pos (b.len - b.pos) b.bytes

pub length-contents : {b : Buffer} → IsValid b → length (contents b) ≡ b.len - b.pos
unfolding contents
length-contents {b} v = length-slice b.pos (b.len - b.pos) b.bytes (omega arith)

pub contents-front : (b : Buffer) → b.pos ≡ 0 → take b.len b.bytes ≡ contents b
unfolding contents
contents-front b e = sym (
    ap (λ p. slice p (b.len - p) b.bytes) e
    ∙ ap (λ n. slice 0 n b.bytes) (let e' : b.len - 0 ≡ b.len = omega arith in e')
    ∙ slice-front b.len b.bytes)

pub init-IsValid : IsValid init
unfolding init
init-IsValid = record {
  whole = length-replicate {A = ℕ} buffer_size 0;
  ordered = omega arith;
  inside = omega arith;
}

pub contents-empty : (b : Buffer) → b.len ≤ b.pos → contents b ≡ []
unfolding contents
contents-empty b h =
    ap (λ n. slice b.pos n b.bytes) (let e : b.len - b.pos ≡ 0 = omega arith in e)
    ∙ slice-zero b.pos b.bytes

pub len-init : (init.len ≡ 0) × (init.pos ≡ 0)
unfolding init
len-init = (refl, refl)

pub clear-IsValid : {b : Buffer} → IsValid b → IsValid (clear b)
unfolding clear
clear-IsValid v = ground arith

pub contents-clear : (b : Buffer) → contents (clear b) ≡ []
unfolding clear
contents-clear b = contents-empty _ (omega arith)

-- For a valid buffer the readable bytes are those that wait, and the writable bytes are the rest of
-- the array behind the data: neither subtraction wraps.
pub counters :
    {b : Buffer}
    → IsValid b
    → (readable_bytes b ≡ length (contents b)) × (writable_bytes b + b.len ≡ buffer_size)
unfolding readable_bytes writable_bytes
counters {b} v = omega (arith, length-contents v)

pub fill-IsValid :
    {b : Buffer} (xs : List ℕ)
    → IsValid b
    → length xs ≤ buffer_size - b.len
    → IsValid (fill b (received xs)).1
unfolding fill
fill-IsValid [] v h = v
fill-IsValid {b} (x ∷ xs) v h = ground (arith, length-blit b.bytes b.len (x ∷ xs))

pub fill_appends :
    {b : Buffer} (xs : List ℕ)
    → IsValid b
    → length xs ≤ buffer_size - b.len
    → contents (fill b (received xs)).1 ≡ contents b ++ xs
unfolding fill contents
fill_appends {b} [] v h = sym (append-nil _)
fill_appends {b} (x ∷ xs) v h =
    ap (λ n. slice b.pos n (blit b.bytes b.len (x ∷ xs)))
      (let e : (b.len + length (x ∷ xs)) % 2 ^ 64 - b.pos ≡ b.len - b.pos + length (x ∷ xs) =
          omega arith in
        e)
    ∙ slice-blit_after b.bytes b.pos (b.len - b.pos) b.len (x ∷ xs) (omega arith) (omega arith)

pub drain-IsValid :
    {b : Buffer} (n : ℕ) → IsValid b → n ≤ b.len - b.pos → IsValid (drain b (wrote n)).1
unfolding drain
drain-IsValid n v h = ground arith

pub slice-split :
    (k from n : ℕ) (xs : List ℕ)
    → k ≤ n
    → slice from n xs ≡ slice from k xs ++ slice (from + k) (n - k) xs
slice-split k from n xs h =
    ap (λ i. slice from i xs) (let e : n ≡ k + (n - k) = omega arith in e)
    ∙ slice-add from k (n - k) xs

pub drain_removes :
    {b : Buffer} (n : ℕ)
    → IsValid b
    → n ≤ b.len - b.pos
    → contents b ≡ take n (contents b) ++ contents (drain b (wrote n)).1
unfolding drain contents
drain_removes {b} n v h = ground (
  arith,
  take-slice n b.pos (b.len - b.pos) b.bytes h,
  slice-split n b.pos (b.len - b.pos) b.bytes h,
  slice-zero b.pos b.bytes,
  slice-zero 0 b.bytes,
  append-nil (slice b.pos n b.bytes),
)

pub compact-IsValid : {b : Buffer} → IsValid b → IsValid (compact b)
unfolding compact
compact-IsValid {b} v = ground (
  arith,
  length-blit b.bytes 0 (slice b.pos (sub_size b.len b.pos) b.bytes),
  length-slice b.pos (sub_size b.len b.pos) b.bytes,
)

-- `buffer_compact` leaves the waiting bytes of a valid buffer as they are.
pub contents-compact : {b : Buffer} → IsValid b → contents (compact b) ≡ contents b
unfolding compact contents
contents-compact {b} v = ground (
  arith,
  slice-zero b.pos b.bytes,
  slice-zero 0 b.bytes,
  slice-blit_front b.bytes (slice b.pos (sub_size b.len b.pos) b.bytes),
  length-slice b.pos (sub_size b.len b.pos) b.bytes,
)
