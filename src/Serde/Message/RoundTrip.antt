-- ===== src/Serde/Message/RoundTrip.antt =====
-- What one node writes, another reads.
use ncaf.Common.{
  ℕ, ◌+◌, ◌-◌, ◌≤◌, ◌<◌, ◌≡◌, ap, ◌∙◌, List, [], ◌++◌, append_assoc, append-nil, length, drop,
  length-append, length-drop, drop-length-append, nil_of_length, writer_not_ended, Result, ok,
  ◌>>=◌, check, arith,
}
use ncaf.Serde.Bytes.{encode_le, length-encode_le}
use ncaf.Serde.Buffer.{
  BufferWriter, size_t_mod, max_string, open_reader, open_writer, next_primitive, rest_bytes,
  copy_from, write_primitive, end_reached,
}
use ncaf.Serde.Buffer.Filling.{
  filled, reading, copy_from-filled, write_primitive-filled, next_primitive-reading,
  pull_string-reading,
}
use ncaf.Serde.Message.{
  Alloc, request_byte, actor_creation_request, creation_request, creation, read_handler_key,
  parse_request,
}

-- Writing and reading back, step by step: the header of a request.
abbrev pub key_header : ℕ → List ℕ → List ℕ
key_header type key = (encode_le 1 type ++ encode_le 8 (length key)) ++ key

pub header_length : (type : ℕ) (key : List ℕ) → length (key_header type key) ≡ 9 + length key
header_length type key = omega (
  arith,
  length-append (encode_le 1 type ++ encode_le 8 (length key)) key,
  length-append (encode_le 1 type) (encode_le 8 (length key)),
  length-encode_le 1 type,
  length-encode_le 8 (length key),
)

pub header_written :
    (type : ℕ) (key room : List ℕ) (then' : BufferWriter → Result (List ℕ))
    → 9 + length key ≤ length room
    → length room < size_t_mod
    → (write_primitive 1 type (open_writer room) >>= λ w₁.
        write_primitive 8 (length key) w₁ >>= λ w₂. copy_from key w₂ >>= then')
      ≡ then' (filled (key_header type key) (drop (length key) (drop 8 (drop 1 room))))
unfolding open_writer
header_written type key room then' fits small =
    rw (write_primitive-filled 1 type [] room (omega arith) (omega arith)) (
      rw
        (write_primitive-filled 8 (length key) (encode_le 1 type) (drop 1 room)
          (omega (arith, length-drop 1 room))
          (omega (arith, length-drop 1 room, length-encode_le 1 type)))
        (rw (
          copy_from-filled (encode_le 1 type ++ encode_le 8 (length key)) (drop 8 (drop 1 room)) key
            (omega (arith, length-drop 1 room, length-drop 8 (drop 1 room)))
            (omega (
              arith,
              length-drop 1 room,
              length-drop 8 (drop 1 room),
              length-append (encode_le 1 type) (encode_le 8 (length key)),
              length-encode_le 1 type,
              length-encode_le 8 (length key),
            )))))

pub after_header-length :
    (key room : List ℕ)
    → length (drop (length key) (drop 8 (drop 1 room))) ≡ length room - 1 - 8 - length key
after_header-length key room = omega (
  arith,
  length-drop 1 room,
  length-drop 8 (drop 1 room),
  length-drop (length key) (drop 8 (drop 1 room)),
)

-- The whole of a message that starts with `key_header`, by its parts.
pub header-split :
    (type : ℕ) (key rest : List ℕ)
    → key_header type key ++ rest ≡ encode_le 1 type ++ (encode_le 8 (length key) ++ (key ++ rest))
header-split type key rest = simp append_assoc

pub type_read :
    (type : ℕ) (key rest : List ℕ)
    → type < 256
    → length (key_header type key ++ rest) < size_t_mod
    → next_primitive 1 (open_reader (key_header type key ++ rest))
      ≡ ok (type, reading (encode_le 1 type) (encode_le 8 (length key) ++ (key ++ rest)))
unfolding open_reader
type_read type key rest byte small = rw (header-split type key rest) (
    next_primitive-reading 1 type [] (encode_le 8 (length key) ++ (key ++ rest)) (omega arith)
      (rw (← header-split type key rest) small))

pub key_read :
    (type : ℕ) (key rest : List ℕ)
    → length key ≤ max_string
    → length (key_header type key ++ rest) < size_t_mod
    → read_handler_key (reading (encode_le 1 type) (encode_le 8 (length key) ++ (key ++ rest)))
      ≡ ok (key, reading (key_header type key) rest)
unfolding read_handler_key
key_read type key rest short small =
    rw
      (next_primitive-reading 8 (length key) (encode_le 1 type) (key ++ rest) (omega arith)
        (rw (← header-split type key rest) small))
      (pull_string-reading key (encode_le 1 type ++ encode_le 8 (length key)) rest short
        (rw (← append_assoc (encode_le 1 type ++ encode_le 8 (length key)) key rest) small))

all_full :
    (done rest : List ℕ)
    → rest ≡ []
    → check (end_reached (filled done rest)) writer_not_ended ≡ ok tt
unfolding end_reached
all_full done rest e = rw (e, append-nil done) (ground arith)

module _ (alloc : Alloc) (sized : (n : ℕ) → length (alloc n) ≡ n) where
  creation_written :
      (key args : List ℕ)
      → length args + 8 + length key + 1 < size_t_mod
      → creation_request alloc key args
        ≡ ok (key_header (request_byte actor_creation_request) key ++ args)
  unfolding creation_request
  creation_written key args small =
      header_written 0 key room _ (omega (arith, sized n)) (omega (arith, sized n))
      ∙ rw
          (copy_from-filled (key_header 0 key) (drop (length key) (drop 8 (drop 1 room))) args
            (omega (arith, sized n, after_header-length key room))
            (omega (arith, sized n, after_header-length key room, header_length 0 key)))
          (rw (all_full (key_header 0 key ++ args) left full)
            (rw full (ap ok (append-nil (key_header 0 key ++ args)))))
    where
      n : ℕ
      n = length args + 8 + length key + 1

      room : List ℕ
      room = alloc n

      left : List ℕ
      left = drop (length args) (drop (length key) (drop 8 (drop 1 room)))

      full : left ≡ []
      full = nil_of_length left (
          omega (
            arith,
            sized n,
            after_header-length key room,
            length-drop (length args) (drop (length key) (drop 8 (drop 1 room))),
          ))

-- CreateActor's request arrives as it was sent, whatever bytes its buffer was allocated with: the
-- writer fills the buffer exactly, and the receiver reads the same handler key and the same
-- serialized arguments. The sizes are those of a buffer that fits the address space.
pub creation_round_trip :
    (alloc : Alloc) (key args : List ℕ)
    → ((n : ℕ) → length (alloc n) ≡ n)
    → length key ≤ max_string
    → length args + 8 + length key + 1 < size_t_mod
    → (buffer : List ℕ) × (creation_request alloc key args ≡ ok buffer)
      × (length buffer ≡ length args + 8 + length key + 1)
      × (parse_request buffer ≡ ok (creation key args))
unfolding parse_request rest_bytes
creation_round_trip alloc key args sized short small = (
  key_header 0 key ++ args,
  creation_written alloc sized key args small,
  whole,
  rw (type_read 0 key args (omega arith) (omega (arith, whole))) (
      rw (key_read 0 key args short (omega (arith, whole)))
        (ap (λ rest. ok (creation key rest)) (drop-length-append (key_header 0 key) args))),
)
  where
    whole : length (key_header 0 key ++ args) ≡ length args + 8 + length key + 1
    whole = omega (arith, length-append (key_header 0 key) args, header_length 0 key)
