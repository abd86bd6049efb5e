-- ===== src/IoBuf/Tests.antt =====
-- Runs of the byte buffer of src/psl_io_buf.h.
use libpalmsocket.Base.{
  ℕ, ◌-◌, ◌≡◌, refl, ◌∙◌, take-take_le, some, List, [], ◌∷◌, ◌++◌, arith, length, take, replicate,
  length-append, length-take, length-replicate, take-append_le,
}
use libpalmsocket.IoBuf.{GArray, IoBuf, compact, get_data_size, extend_if_possible}
use libpalmsocket.IoBuf.Bounds.{IsValid, left, extend-IsValid}
use libpalmsocket.IoBuf.Contents.{contents, take-extend}

-- an array that is padded with 0
abbrev pub resized : List ℕ → ℕ → List ℕ
resized xs n = take n xs ++ replicate (n - length xs) 0

abbrev pub padded : GArray
padded = record {
  set_size = resized;
  length-set_size = λ xs n. omega (
    arith,
    length-append (take n xs) (replicate (n - length xs) 0),
    length-take n xs,
    length-replicate {A = ℕ} (n - length xs) 0,
  );
  take-set_size = λ xs n k h l.
      take-append_le k (take n xs) (replicate (n - length xs) 0) (omega (arith, length-take n xs))
      ∙ take-take_le k n xs h;
}

-- 6 bytes of 8, of which 2 are consumed
abbrev some_bytes : IoBuf
some_bytes = record { max_size = 8; bytes = 1 ∷ 2 ∷ 3 ∷ 4 ∷ 5 ∷ 6 ∷ []; next_consume_index = 2 }

some_bytes-IsValid : IsValid some_bytes
some_bytes-IsValid = record {
  index_in = omega arith;
  size_in = omega arith;
  limit_in = omega arith;
}

-- Extending by 3 has to move the bytes down first.
extend-IsValid_example :
    (b' : IoBuf) × (extend_if_possible padded some_bytes 3 ≡ some b') × IsValid b' × (left b' ≡ 7)
extend-IsValid_example = extend-IsValid padded 3 some_bytes-IsValid

abbrev moved_bytes : IoBuf
moved_bytes = record {
  max_size = 8;
  bytes = 3 ∷ 4 ∷ 5 ∷ 6 ∷ 5 ∷ 6 ∷ 0 ∷ [];
  next_consume_index = 0;
}

moved_bytes_run : extend_if_possible padded some_bytes 3 ≡ some moved_bytes
unfolding extend_if_possible compact get_data_size
moved_bytes_run = refl

take-extend_example : take 4 (contents moved_bytes) ≡ 3 ∷ 4 ∷ 5 ∷ 6 ∷ []
take-extend_example = take-extend padded 3 some_bytes-IsValid moved_bytes_run
