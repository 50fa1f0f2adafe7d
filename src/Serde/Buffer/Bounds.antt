-- ===== src/Serde/Buffer/Bounds.antt =====
-- When the buffers accept a read or a write, and that they stay in bounds.
use ncaf.Common.{
  ℕ, ◌+◌, ◌≤◌, ◌<◌, ◌≡◌, ◌⊎◌, length, take, drop, ok, err, buffer_overflow, length_error, arith,
}
use ncaf.Serde.Bytes.{decode_le}
use ncaf.Serde.Buffer.{BufferReader, size_t_mod, max_string, next_primitive, pull_string}

-- The reader stands inside its buffer, which is no longer than a std::string can be.
pub record InBounds (r : BufferReader) : Type 0 where
  pub inside : r.offset ≤ length r.buffer
  pub small : length r.buffer ≤ max_string

-- In bounds, NextPrimitive of `n` bytes, n < 2^63, throws buffer_overflow exactly when fewer than
-- `n` bytes are left; else it decodes the next `n` bytes and moves past them, in bounds.
pub next_primitive_cases :
    (n : ℕ) (r : BufferReader)
    → InBounds r
    → n ≤ max_string
    → ((length r.buffer < r.offset + n) × (next_primitive n r ≡ err buffer_overflow))
      ⊎ ((r.offset + n ≤ length r.buffer)
          × (next_primitive n r
              ≡ ok (
                decode_le (take n (drop r.offset r.buffer)),
                record r { offset = r.offset + n },
              )))
unfolding next_primitive
next_primitive_cases n r v h = ground arith

-- In bounds, PullString with any 64-bit length never reads past the end: it returns the next `len`
-- bytes and moves past them when so many are left. When not, it throws buffer_overflow, or
-- length_error exactly when offset_ + len is 2^64 or more: the sum then wraps and passes the check of
-- PullString, and std::string's own check refuses the length.
pub pull_string_cases :
    (len : ℕ) (r : BufferReader)
    → InBounds r
    → len < size_t_mod
    → ((r.offset + len ≤ length r.buffer)
        × (pull_string len r
            ≡ ok (take len (drop r.offset r.buffer), record r { offset = r.offset + len })))
      ⊎ ((length r.buffer < r.offset + len)
          × (((r.offset + len < size_t_mod) × (pull_string len r ≡ err buffer_overflow))
              ⊎ ((size_t_mod ≤ r.offset + len) × (pull_string len r ≡ err length_error))))
unfolding pull_string
pull_string_cases len r v h = ground arith
