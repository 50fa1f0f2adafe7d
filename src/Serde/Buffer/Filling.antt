-- ===== src/Serde/Buffer/Filling.antt =====
-- Writing a buffer from the front, and reading it back.
use ncaf.Common.{
  ℕ, suc, ◌+◌, ◌%◌, ◌^◌, ◌≤◌, ◌<◌, ◌≡◌, ◌∙◌, sym, ap, List, [], ◌∷◌, ◌++◌, length, take, drop, leb,
  true, length-append, take-length-append, drop-length-append, append_assoc, ok, arith,
}
use ncaf.Serde.Bytes.{encode_le, decode_le, length-encode_le, decode_le-encode_le}
use ncaf.Serde.Buffer.{
  BufferReader, BufferWriter, size_t_mod, max_string, next_primitive, pull_string, copy_from,
  read_current, write_primitive,
}

-- A writer that has written `done`, with `room` left as it was allocated.
abbrev pub filled : List ℕ → List ℕ → BufferWriter
filled done room = record { buffer = done ++ room; offset = length done }

-- A reader that has read `done`, with `rest` ahead.
abbrev pub reading : List ℕ → List ℕ → BufferReader
reading done rest = record { buffer = done ++ rest; offset = length done }

drop-append : (xs ys : List ℕ) (n : ℕ) → drop (length xs + n) (xs ++ ys) ≡ drop n ys
drop-append [] ys n = let e : 0 + n ≡ n = omega arith in rw e
drop-append (x ∷ xs) ys n =
    let e : suc (length xs) + n ≡ suc (length xs + n) = omega arith in rw e (drop-append xs ys n)

-- A write that fits fills the next bytes of the room.
pub copy_from-filled :
    (done room bytes : List ℕ)
    → length bytes ≤ length room
    → length done + length room < size_t_mod
    → copy_from bytes (filled done room) ≡ ok (filled (done ++ bytes) (drop (length bytes) room))
unfolding copy_from
copy_from-filled done room bytes fits small =
    rw (accepted, in_bounds) λ i. ok (record { buffer = contents i; offset = moved i })
  where
    accepted : leb ((length done + length bytes) % size_t_mod) (length (done ++ room)) ≡ true
    accepted = ground (arith, length-append done room)

    in_bounds : leb (length done + length bytes) (length (done ++ room)) ≡ true
    in_bounds = ground (arith, length-append done room)

    contents :
        take (length done) (done ++ room)
          ++ (bytes ++ drop (length done + length bytes) (done ++ room))
        ≡ (done ++ bytes) ++ drop (length bytes) room
    contents =
        rw (take-length-append done room, drop-append done room (length bytes))
          (sym (append_assoc done bytes (drop (length bytes) room)))

    moved : (length done + length bytes) % size_t_mod ≡ length (done ++ bytes)
    moved = omega (arith, length-append done bytes)

pub write_primitive-filled :
    (n value : ℕ) (done room : List ℕ)
    → n ≤ length room
    → length done + length room < size_t_mod
    → write_primitive n value (filled done room)
      ≡ ok (filled (done ++ encode_le n value) (drop n room))
unfolding write_primitive
write_primitive-filled n value done room fits small =
    copy_from-filled done room (encode_le n value) (omega (arith, length-encode_le n value)) small
    ∙ ap (λ k. ok (filled (done ++ encode_le n value) (drop k room))) (length-encode_le n value)

-- A read returns the next bytes and moves past them.
pub read_current-reading :
    (done next rest : List ℕ) → read_current (reading done (next ++ rest)) (length next) ≡ ok next
unfolding read_current
read_current-reading done next rest =
    rw (in_bounds, drop-length-append done (next ++ rest), take-length-append next rest)
  where
    in_bounds : leb (length done + length next) (length (done ++ (next ++ rest))) ≡ true
    in_bounds = ground (arith, length-append done (next ++ rest), length-append next rest)

moved_past :
    (done next rest : List ℕ)
    → length (done ++ (next ++ rest)) < size_t_mod
    → (let r : BufferReader = record {
      buffer = done ++ (next ++ rest);
      offset = (length done + length next) % size_t_mod;
    } in
        r)
      ≡ reading (done ++ next) rest
moved_past done next rest small =
    λ i. record { buffer = sym (append_assoc done next rest) i; offset = past i }
  where
    past : (length done + length next) % size_t_mod ≡ length (done ++ next)
    past =
        omega (
          arith,
          length-append done (next ++ rest),
          length-append next rest,
          length-append done next,
        )

next_bytes :
    (bytes done rest : List ℕ)
    → length (done ++ (bytes ++ rest)) < size_t_mod
    → next_primitive (length bytes) (reading done (bytes ++ rest))
      ≡ ok (decode_le bytes, reading (done ++ bytes) rest)
unfolding next_primitive
next_bytes bytes done rest small =
    rw (accepted, read) (ap (λ r. ok (decode_le bytes, r)) (moved_past done bytes rest small))
  where
    accepted :
        leb ((length done + length bytes) % size_t_mod) (length (done ++ (bytes ++ rest))) ≡ true
    accepted = ground (arith, length-append done (bytes ++ rest), length-append bytes rest)

    read : read_current (reading done (bytes ++ rest)) (length bytes) ≡ ok bytes
    read = read_current-reading done bytes rest

pub next_primitive-reading :
    (n value : ℕ) (done rest : List ℕ)
    → value < 256 ^ n
    → length (done ++ (encode_le n value ++ rest)) < size_t_mod
    → next_primitive n (reading done (encode_le n value ++ rest))
      ≡ ok (value, reading (done ++ encode_le n value) rest)
next_primitive-reading n value done rest fits small =
    ap (λ k. next_primitive k (reading done (encode_le n value ++ rest)))
      (sym (length-encode_le n value))
    ∙ next_bytes (encode_le n value) done rest small
    ∙ ap (λ v. ok (v, reading (done ++ encode_le n value) rest)) (decode_le-encode_le n value fits)

pub pull_string-reading :
    (value : List ℕ) (done rest : List ℕ)
    → length value ≤ max_string
    → length (done ++ (value ++ rest)) < size_t_mod
    → pull_string (length value) (reading done (value ++ rest))
      ≡ ok (value, reading (done ++ value) rest)
unfolding pull_string
pull_string-reading value done rest fits small =
    rw (accepted, short, read) (ap (λ r. ok (value, r)) (moved_past done value rest small))
  where
    accepted :
        leb ((length done + length value) % size_t_mod) (length (done ++ (value ++ rest))) ≡ true
    accepted = ground (arith, length-append done (value ++ rest), length-append value rest)

    short : leb (length value) max_string ≡ true
    short = ground arith

    read : read_current (reading done (value ++ rest)) (length value) ≡ ok value
    read = read_current-reading done value rest
