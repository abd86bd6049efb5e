-- ===== src/IoBuf.antt =====
-- src/psl_io_buf.h: the byte buffer that is filled once and then consumed piece by piece.
-- The pointer that the C functions return is the offset into the array, `none` for NULL. Those that
-- change the buffer return that of the new buffer; it is left to `get_data_ptr` here.
-- A `none` for a whole buffer is a failed assertion.
pub mod Bounds
pub mod Contents
pub mod Tests
use libpalmsocket.Base.{
  ℕ, ◌+◌, ◌≤◌, ◌≡◌, Bool, true, false, Option, none, some, List, [], ◌++◌, ℤ, pos, negsuc, sub_ℕ,
  ◌+ℤ◌, ◌-ℤ◌, leb_ℤ, guint, leb, ltb, if◌then◌else◌, ◌>>=◌, ◌>>◌, psl_assert, length, take, drop,
  min,
}

-- `g_array_set_size` of glib on an array of bytes. What it appends is not specified.
pub record GArray : Type 0 where
  pub set_size : List ℕ → ℕ → List ℕ
  pub length-set_size : (xs : List ℕ) (n : ℕ) → length (set_size xs n) ≡ n
  pub take-set_size :
      (xs : List ℕ) (n k : ℕ) → k ≤ n → k ≤ length xs → take k (set_size xs n) ≡ take k xs

-- `PslIOBuf`: `bytes` is `garray_`, whose `len` is the list's length.
pub record IoBuf : Type 0 where
  pub max_size : ℕ
  pub bytes : List ℕ
  pub next_consume_index : ℕ

-- `psl_io_buf_init`; the allocation of an empty array does not fail in glib, it aborts.
unfoldable pub init : ℕ → Option IoBuf
init max_size = do
  psl_assert (ltb 0 max_size)
  some (record { max_size = max_size; bytes = []; next_consume_index = 0 })

pub get_max_capacity : IoBuf → ℕ
get_max_capacity b = b.max_size

-- `psl_io_buf_get_data_size`, in signed arithmetic as in the source
unfoldable pub get_data_size : IoBuf → ℤ
get_data_size b = sub_ℕ (length b.bytes) b.next_consume_index

abbrev is_zero : ℤ → Bool
is_zero (pos n) = leb n 0
is_zero (negsuc _) = false

unfoldable pub is_empty : IoBuf → Bool
unfolding get_data_size
is_empty b = is_zero (get_data_size b)

-- `psl_io_buf_get_data_ptr_impl_`: the offset of the first byte left, and the count
unfoldable pub get_data_ptr : IoBuf → Option ℕ × ℤ
unfolding get_data_size
get_data_ptr b =
    (if is_zero (get_data_size b) then none else some b.next_consume_index, get_data_size b)

unfoldable pub consume : IoBuf → ℕ → Option IoBuf
unfolding get_data_size
consume b count = do
  psl_assert (leb_ℤ (pos count) (get_data_size b))
  some (record b { next_consume_index = b.next_consume_index + count })

-- `memmove(data, data + index, count)`: the bytes behind the moved ones stay as they were.
abbrev move_down : IoBuf → ℕ → List ℕ
move_down b count = take count (drop b.next_consume_index b.bytes) ++ drop count b.bytes

-- the space that is granted
extension : IoBuf → ℕ → ℤ
unfolding get_data_size
extension b req =
    let max_res = pos b.max_size -ℤ get_data_size b in
    if leb_ℤ (pos req) max_res then pos req else max_res

module _ (g : GArray) where
  open g use {set_size}

  pub reset_data : IoBuf → IoBuf
  reset_data b = record b {
    bytes = if ltb 0 (length b.bytes) then set_size b.bytes 0 else b.bytes;
    next_consume_index = 0;
  }

  unfoldable pub reset_set_size : IoBuf → ℕ → IoBuf
  reset_set_size b req =
      let allowed = if leb req b.max_size then req else b.max_size in
      record b { bytes = set_size b.bytes (guint (pos allowed)); next_consume_index = 0 }

  -- the branch that moves the data to the front; a negative size is no valid count for `memmove`
  compact : IoBuf → ℤ → ℤ → Option IoBuf
  compact b (pos old) extra = some (record b {
    bytes = set_size (move_down b old) (guint (pos old +ℤ extra));
    next_consume_index = 0;
  })
  compact b (negsuc _) extra = none

  -- `psl_io_buf_extend_if_possible`
  pub extend_if_possible : IoBuf → ℕ → Option IoBuf
  unfolding extension compact get_data_size
  extend_if_possible b req =
      let new_len = pos (length b.bytes) +ℤ extension b req in
      if leb_ℤ new_len (pos b.max_size)
      then some (record b { bytes = set_size b.bytes (guint new_len) })
      else compact b (get_data_size b) (extension b req)

  pub truncate_data : IoBuf → ℕ → Option IoBuf
  unfolding get_data_size
  truncate_data b keep = do
    psl_assert (leb_ℤ (pos keep) (get_data_size b))
    some (record b { bytes = set_size b.bytes (guint (pos (b.next_consume_index + keep))) })
