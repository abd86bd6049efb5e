-- ===== src/IoBuf/Bounds.antt =====
-- The representation invariant of src/psl_io_buf.h, and the sizes that its functions promise.
use libpalmsocket.Base.{
  refl, false, ◌⊎◌, inl, inr, Bool-cases, ℕ, ◌+◌, ◌-◌, ◌^◌, ◌≤◌, ◌<◌, min, ◌≡◌, true, none, some,
  pos, leb, if◌then◌else◌, arith, length,
}
use libpalmsocket.IoBuf.{
  GArray, IoBuf, move_down, init, get_data_size, is_empty, get_data_ptr, reset_data, reset_set_size,
  extension, compact, extend_if_possible, truncate_data, consume,
}

-- The consume index stays inside the array, the array inside the limit, and the limit in a `guint`.
pub record IsValid (b : IoBuf) : Type 0 where
  pub index_in : b.next_consume_index ≤ length b.bytes
  pub size_in : length b.bytes ≤ b.max_size
  pub limit_in : b.max_size < 2 ^ 32

-- the bytes left, as the number that the signed size is in a valid buffer
abbrev pub left : IoBuf → ℕ
left b = length b.bytes - b.next_consume_index

pub get_data_size-left : {b : IoBuf} → IsValid b → get_data_size b ≡ pos (left b)
unfolding get_data_size
get_data_size-left v = ground arith

-- A valid buffer gives NULL if it is empty, and otherwise a pointer inside the array.
pub get_data_ptr_lem :
    {b : IoBuf}
    → IsValid b
    → ((is_empty b ≡ true) × ((get_data_ptr b).0 ≡ none))
      ⊎ ((is_empty b ≡ false) × ((p : ℕ) × ((get_data_ptr b).0 ≡ some p) × (p < length b.bytes)))
unfolding get_data_ptr is_empty
get_data_ptr_lem {b} v = elim (Bool-cases (is_empty b)) [
  | inl e ↦ inl (e, rw e refl)
  | inr e ↦ inr (e, (b.next_consume_index, rw e refl, ground arith))
]

pub init-IsValid : (n : ℕ) {b : IoBuf} → n < 2 ^ 32 → init n ≡ some b → IsValid b
unfolding init
init-IsValid n h e = ground arith

pub consume-IsValid : {b b' : IoBuf} (n : ℕ) → IsValid b → consume b n ≡ some b' → IsValid b'
unfolding consume
consume-IsValid n v e = ground arith

-- The buffer once `n` more bytes are consumed.
abbrev pub advanced : ℕ → IoBuf → IoBuf
advanced n b = record b { next_consume_index = b.next_consume_index + n }

pub consume_lem :
    {b : IoBuf} (n : ℕ)
    → IsValid b
    → n ≤ left b
    → (consume b n ≡ some (advanced n b)) × IsValid (advanced n b)
unfolding consume get_data_size
consume_lem n v h = (
  ground arith,
  record { index_in = omega (arith, v.index_in, h); size_in = v.size_in; limit_in = v.limit_in },
)

-- What is granted of a request.
abbrev pub granted : IoBuf → ℕ → ℕ
granted b req = min req (b.max_size - left b)

extension-granted : {b : IoBuf} (req : ℕ) → IsValid b → extension b req ≡ pos (granted b req)
unfolding extension get_data_size
extension-granted {b} req v = ground arith

module _ (g : GArray) where
  -- the buffer that extending a valid buffer leaves: grown in place, or moved down and grown
  abbrev pub extended : IoBuf → ℕ → IoBuf
  extended b req =
      if leb (length b.bytes + granted b req) b.max_size
      then record b { bytes = g.set_size b.bytes (length b.bytes + granted b req) }
      else record b {
        bytes = g.set_size (move_down b (left b)) (left b + granted b req);
        next_consume_index = 0;
      }

  pub reset_data-IsValid : {b : IoBuf} → IsValid b → IsValid (reset_data g b)
  unfolding reset_data
  reset_data-IsValid {b} v = ground (arith, g.length-set_size b.bytes 0)

  pub reset_set_size-IsValid :
      {b : IoBuf} (req : ℕ)
      → IsValid b
      → IsValid (reset_set_size g b req) × (left (reset_set_size g b req) ≡ min req b.max_size)
  unfolding reset_set_size
  reset_set_size-IsValid {b} req v =
      ground (arith, g.length-set_size b.bytes req, g.length-set_size b.bytes b.max_size)

  pub truncate_data-IsValid :
      {b b' : IoBuf} (n : ℕ) → IsValid b → truncate_data g b n ≡ some b' → IsValid b'
  unfolding truncate_data
  truncate_data-IsValid {b} n v e =
      ground (arith, g.length-set_size b.bytes (b.next_consume_index + n))

  pub extend_lem :
      {b : IoBuf} (req : ℕ) → IsValid b → extend_if_possible g b req ≡ some (extended b req)
  unfolding extend_if_possible compact get_data_size
  extend_lem {b} req v = rw (extension-granted req v) (ground arith)

  -- Extending a valid buffer gives a buffer, which is valid and has the bytes left before and those asked
  -- for, up to the limit.
  pub extend-IsValid :
      {b : IoBuf} (req : ℕ)
      → IsValid b
      → (b' : IoBuf) × (extend_if_possible g b req ≡ some b')
        × IsValid b'
        × (left b' ≡ min (left b + req) b.max_size)
  extend-IsValid {b} req v =
      (extended b req, extend_lem req v, ground (arith, grown, moved), ground (arith, grown, moved))
    where
      grown :
          length (g.set_size b.bytes (length b.bytes + granted b req))
          ≡ length b.bytes + granted b req
      grown = g.length-set_size _ _

      moved :
          length (g.set_size (move_down b (left b)) (left b + granted b req))
          ≡ left b + granted b req
      moved = g.length-set_size _ _
