-- ===== src/IoBuf/Contents.antt =====
-- src/psl_io_buf.h as a queue of the bytes that are left to consume.
use libpalmsocket.Base.{
  ℕ, ◌+◌, ◌≤◌, ◌<◌, ◌≡◌, sym, ap, ◌∙◌, none, some, List, [], leb, ◌>>=◌, Bool-cases, inl, inr,
  arith, length, take, drop, length-take, length-drop, drop-take, drop-drop, take_all,
  take-append_le, length-append, length-eq_zero,
}
use libpalmsocket.IoBuf.{
  GArray, IoBuf, get_data_size, reset_data, move_down, extend_if_possible, truncate_data, consume,
}
use libpalmsocket.IoBuf.Bounds.{IsValid, left, granted, extended, extend_lem}

-- The bytes left, in order.
abbrev pub contents : IoBuf → List ℕ
contents b = drop b.next_consume_index b.bytes

-- On a valid buffer, consuming no more than the bytes left succeeds, and drops that many.
pub consume-drop :
    {b : IoBuf} (n : ℕ)
    → IsValid b
    → n ≤ length (contents b)
    → (b' : IoBuf) × (consume b n ≡ some b') × (contents b' ≡ drop n (contents b))
unfolding consume get_data_size
consume-drop {b} n v h = (
  record b { next_consume_index = b.next_consume_index + n },
  ground (arith, length-drop b.next_consume_index b.bytes),
  sym (drop-drop b.next_consume_index n b.bytes),
)

pub consume_too_much :
    {b : IoBuf} (n : ℕ) → IsValid b → length (contents b) < n → consume b n ≡ none
unfolding consume get_data_size
consume_too_much {b} n v h = ground (arith, length-drop b.next_consume_index b.bytes)

-- Consuming from a valid buffer in two pieces is consuming once, failed assertions included.
pub consume-consume :
    {b : IoBuf} (n k : ℕ) → IsValid b → (consume b n >>= λ b'. consume b' k) ≡ consume b (n + k)
unfolding consume get_data_size
consume-consume {b} n k v = ground arith

-- Shrinking an array is taking a prefix, and growing it keeps what was there in front.
cut_lem : (g : GArray) (n : ℕ) (xs : List ℕ) → n ≤ length xs → g.set_size xs n ≡ take n xs
cut_lem g n xs h =
    sym (take_all n (g.set_size xs n) (omega (arith, g.length-set_size xs n)))
    ∙ g.take-set_size xs n n (omega arith) h

grow_lem :
    (g : GArray) (n : ℕ) (xs : List ℕ) → length xs ≤ n → take (length xs) (g.set_size xs n) ≡ xs
grow_lem g n xs h =
    g.take-set_size xs n (length xs) h (omega arith) ∙ take_all (length xs) xs (omega arith)

grown_front :
    (g : GArray) (b : IoBuf) (req : ℕ)
    → IsValid b
    → take
        (left b)
        (drop b.next_consume_index (g.set_size b.bytes (length b.bytes + granted b req)))
      ≡ drop b.next_consume_index b.bytes
grown_front g b req v =
    sym (drop-take b.next_consume_index (left b) grown)
    ∙ ap (λ k. drop b.next_consume_index (take k grown)) whole
    ∙ ap (drop b.next_consume_index) (grow_lem g _ b.bytes (omega arith))
  where
    grown : List ℕ
    grown = g.set_size b.bytes (length b.bytes + granted b req)

    whole : b.next_consume_index + left b ≡ length b.bytes
    whole = omega (arith, v.index_in)

moved_front :
    (g : GArray) (b : IoBuf) (extra : ℕ)
    → IsValid b
    → take (left b) (g.set_size (move_down b (left b)) (left b + extra))
      ≡ drop b.next_consume_index b.bytes
moved_front g b extra v =
    g.take-set_size (move_down b (left b)) (left b + extra) (left b) (omega arith) long_enough
    ∙ take-append_le (left b) piece (drop (left b) b.bytes) (omega (arith, length-piece))
    ∙ take_all (left b) piece (omega (arith, length-piece))
    ∙ take_all (left b) data_left (omega (arith, length-drop b.next_consume_index b.bytes))
  where
    data_left : List ℕ
    data_left = drop b.next_consume_index b.bytes

    piece : List ℕ
    piece = take (left b) data_left

    length-piece : length piece ≡ left b
    length-piece =
        omega (arith, length-take (left b) data_left, length-drop b.next_consume_index b.bytes)

    long_enough : left b ≤ length (move_down b (left b))
    long_enough = omega (arith, length-append piece (drop (left b) b.bytes), length-piece)

module _ (g : GArray) where
  pub reset_data-contents : (b : IoBuf) → contents (reset_data g b) ≡ []
  unfolding reset_data
  reset_data-contents b = length-eq_zero _ (ground (arith, g.length-set_size b.bytes 0))

  -- Truncating a valid buffer to no more than the bytes left succeeds, and keeps exactly the first of
  -- them.
  pub truncate_data-take :
      {b : IoBuf} (n : ℕ)
      → IsValid b
      → n ≤ length (contents b)
      → (b' : IoBuf) × (truncate_data g b n ≡ some b') × (contents b' ≡ take n (contents b))
  unfolding truncate_data get_data_size
  truncate_data-take {b} n v h = (
    record b { bytes = g.set_size b.bytes (b.next_consume_index + n) },
    ground (arith, length-drop b.next_consume_index b.bytes),
    ap (drop b.next_consume_index) (cut_lem g (b.next_consume_index + n) b.bytes fits)
        ∙ drop-take b.next_consume_index n b.bytes,
  )
    where
      fits : b.next_consume_index + n ≤ length b.bytes
      fits = omega (arith, length-drop b.next_consume_index b.bytes)

  -- Where extending a valid buffer gives a buffer, the bytes left before are the first of the bytes left
  -- after, wherever they were moved.
  pub take-extend :
      {b b' : IoBuf} (req : ℕ)
      → IsValid b
      → extend_if_possible g b req ≡ some b'
      → take (length (contents b)) (contents b') ≡ contents b
  take-extend {b} {b'} req v e =
      rw (same, length-drop b.next_consume_index b.bytes)
        (elim (Bool-cases (leb (length b.bytes + granted b req) b.max_size)) [
          | inl fits ↦ rw fits (grown_front g b req v)
          | inr full ↦ rw full (moved_front g b (granted b req) v)
        ])
    where
      same : b' ≡ extended g b req
      same = cc (extend_lem g req v)
