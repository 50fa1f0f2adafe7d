-- ===== src/Serde/Message/Replies.antt =====
-- A reply, from the node that fills it to the node that reads it.
use ncaf.Common.{
  ℕ, ◌+◌, ◌<◌, ◌≡◌, ap, List, [], ◌++◌, append-nil, length, drop, ◌^◌, length-append, length-drop,
  nil_of_length, drop-length-append, ok, arith,
}
use ncaf.Serde.Bytes.{encode_le, length-encode_le}
use ncaf.Serde.Buffer.{size_t_mod, open_reader, open_writer, next_primitive, rest_bytes}
use ncaf.Serde.Buffer.Filling.{
  reading, copy_from-filled, write_primitive-filled, next_primitive-reading,
}
use ncaf.Serde.Message.{Alloc, NetworkReplyType, reply_byte, id_reply, bytes_reply, error_reply}

pub reply_byte-lt : (type : NetworkReplyType) → reply_byte type < 256
reply_byte-lt type = ground arith

-- The type of a reply comes first.
pub reply_type_read :
    (type : NetworkReplyType) (bytes : List ℕ)
    → 1 + length bytes < size_t_mod
    → next_primitive 1 (open_reader (encode_le 1 (reply_byte type) ++ bytes))
      ≡ ok (reply_byte type, reading (encode_le 1 (reply_byte type)) bytes)
unfolding open_reader
reply_type_read type bytes small =
    next_primitive-reading 1 (reply_byte type) [] bytes (omega (arith, reply_byte-lt type)) (
      omega (
        arith,
        length-append (encode_le 1 (reply_byte type)) bytes,
        length-encode_le 1 (reply_byte type),
      ))

pub id_read :
    (type : NetworkReplyType) (actor_id : ℕ)
    → actor_id < 2 ^ 64
    → next_primitive 8 (reading (encode_le 1 (reply_byte type)) (encode_le 8 actor_id ++ []))
      ≡ ok (actor_id, reading (encode_le 1 (reply_byte type) ++ encode_le 8 actor_id) [])
id_read type actor_id fits =
    next_primitive-reading 8 actor_id (encode_le 1 (reply_byte type)) [] (omega arith) (
      omega (
        arith,
        length-append (encode_le 1 (reply_byte type)) (encode_le 8 actor_id ++ []),
        length-append (encode_le 8 actor_id) [],
        length-encode_le 1 (reply_byte type),
        length-encode_le 8 actor_id,
      ))

pub bytes_read :
    (type : NetworkReplyType) (bytes : List ℕ)
    → rest_bytes (reading (encode_le 1 (reply_byte type)) bytes) ≡ bytes
unfolding rest_bytes
bytes_read type bytes = drop-length-append (encode_le 1 (reply_byte type)) bytes

module _ (alloc : Alloc) (sized : (n : ℕ) → length (alloc n) ≡ n) where
  pub bytes_reply_lem :
      (type : NetworkReplyType) (bytes : List ℕ)
      → 1 + length bytes < size_t_mod
      → bytes_reply alloc type bytes ≡ ok (encode_le 1 (reply_byte type) ++ bytes)
  unfolding bytes_reply open_writer
  bytes_reply_lem type bytes small =
      rw (write_primitive-filled 1 t [] room (omega (arith, sized n)) (omega (arith, sized n))) (
        rw
          (copy_from-filled (encode_le 1 t) (drop 1 room) bytes
            (omega (arith, sized n, length-drop 1 room))
            (omega (arith, sized n, length-drop 1 room, length-encode_le 1 t)))
          (rw full (ap ok (append-nil (encode_le 1 t ++ bytes)))))
    where
      t : ℕ
      t = reply_byte type

      n : ℕ
      n = 1 + length bytes

      room : List ℕ
      room = alloc n

      full : drop (length bytes) (drop 1 room) ≡ []
      full =
          nil_of_length (drop (length bytes) (drop 1 room))
            (omega (arith, sized n, length-drop 1 room, length-drop (length bytes) (drop 1 room)))

  pub id_reply_lem :
      (type : NetworkReplyType) (actor_id : ℕ)
      → id_reply alloc type actor_id
        ≡ ok (encode_le 1 (reply_byte type) ++ (encode_le 8 actor_id ++ []))
  unfolding id_reply open_writer
  id_reply_lem type actor_id =
      rw (write_primitive-filled 1 t [] room (omega (arith, sized 9)) (omega (arith, sized 9))) (
        rw
          (write_primitive-filled 8 actor_id (encode_le 1 t) (drop 1 room)
            (omega (arith, sized 9, length-drop 1 room))
            (omega (arith, sized 9, length-drop 1 room, length-encode_le 1 t)))
          (rw (full, append-nil (encode_le 8 actor_id))
            (ap ok (append-nil (encode_le 1 t ++ encode_le 8 actor_id)))))
    where
      t : ℕ
      t = reply_byte type

      room : List ℕ
      room = alloc 9

      full : drop 8 (drop 1 room) ≡ []
      full =
          nil_of_length (drop 8 (drop 1 room))
            (omega (arith, sized 9, length-drop 1 room, length-drop 8 (drop 1 room)))

  pub error_reply_lem :
      (type : NetworkReplyType) → error_reply alloc type ≡ ok (encode_le 1 (reply_byte type) ++ [])
  unfolding error_reply open_writer
  error_reply_lem type =
      rw (write_primitive-filled 1 t [] (alloc 1) (omega (arith, sized 1)) (omega (arith, sized 1)))
        (rw (nil_of_length (drop 1 (alloc 1)) (omega (arith, sized 1, length-drop 1 (alloc 1)))))
    where
      t : ℕ
      t = reply_byte type
