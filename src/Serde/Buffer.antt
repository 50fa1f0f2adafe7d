-- ===== src/Serde/Buffer.antt =====
-- include/ncaf/internal/serialization.h, `BufferReader` and `BufferWriter`. `start_` and `size_` are
-- the beginning and the length of `buffer`.
pub mod Bounds
pub mod Filling
use ncaf.Common.{
  ℕ, ◌+◌, ◌-◌, ◌%◌, ◌^◌, List, ◌++◌, Bool, length, take, drop, leb, nat_beq, if◌then◌else◌, Result,
  ok, err, ◌>>=◌, ◌>>◌, check, buffer_overflow, length_error, out_of_bounds,
}
use ncaf.Serde.Bytes.{encode_le, decode_le}

abbrev pub size_t_mod : ℕ
size_t_mod = 2 ^ 64

-- std::string::max_size().
abbrev pub max_string : ℕ
max_string = 2 ^ 63 - 1

pub record BufferReader : Type 0 where
  pub buffer : List ℕ
  pub offset : ℕ

unfoldable pub open_reader : List ℕ → BufferReader
open_reader buffer = record { buffer = buffer; offset = 0 }

-- `n` bytes from Current() on; a read past the end is undefined behaviour.
unfoldable pub read_current : BufferReader → ℕ → Result (List ℕ)
read_current r n =
    if leb (r.offset + n) (length r.buffer)
    then ok (take n (drop r.offset r.buffer))
    else err out_of_bounds

-- `offset_ + n` and `offset_ += n` are of type size_t.
advance : BufferReader → ℕ → BufferReader
advance r n = record r { offset = (r.offset + n) % size_t_mod }

-- NextPrimitive<T>() with `sizeof(T)` bytes.
unfoldable pub next_primitive : ℕ → BufferReader → Result (ℕ × BufferReader)
unfolding read_current advance
next_primitive sizeof r = do
  check (leb ((r.offset + sizeof) % size_t_mod) (length r.buffer)) buffer_overflow
  bytes ← read_current r sizeof
  ok (decode_le bytes, advance r sizeof)

-- std::string's constructor throws on a length above max_size().
unfoldable pub pull_string : ℕ → BufferReader → Result (List ℕ × BufferReader)
unfolding read_current advance
pull_string len r = do
  check (leb ((r.offset + len) % size_t_mod) (length r.buffer)) buffer_overflow
  check (leb len max_string) length_error
  value ← read_current r len
  ok (value, advance r len)

-- RemainingSize(), and the bytes that Current() points to.
pub remaining_size : BufferReader → ℕ
remaining_size r = (length r.buffer + size_t_mod - r.offset % size_t_mod) % size_t_mod

unfoldable pub rest_bytes : BufferReader → List ℕ
rest_bytes r = drop r.offset r.buffer

pub record BufferWriter : Type 0 where
  pub buffer : List ℕ
  pub offset : ℕ

unfoldable pub open_writer : List ℕ → BufferWriter
open_writer buffer = record { buffer = buffer; offset = 0 }

-- CopyFrom(data, size); a write past the end is undefined behaviour.
unfoldable pub copy_from : List ℕ → BufferWriter → Result BufferWriter
copy_from bytes w = do
  check (leb ((w.offset + length bytes) % size_t_mod) (length w.buffer)) buffer_overflow
  check (leb (w.offset + length bytes) (length w.buffer)) out_of_bounds
  ok (record {
    buffer = take w.offset w.buffer ++ (bytes ++ drop (w.offset + length bytes) w.buffer);
    offset = (w.offset + length bytes) % size_t_mod;
  })

-- WritePrimitive<T>(value) with `sizeof(T)` bytes.
unfoldable pub write_primitive : ℕ → ℕ → BufferWriter → Result BufferWriter
unfolding copy_from
write_primitive sizeof value w = copy_from (encode_le sizeof value) w

unfoldable pub end_reached : BufferWriter → Bool
end_reached w = nat_beq w.offset (length w.buffer)
