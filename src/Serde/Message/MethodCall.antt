-- ===== src/Serde/Message/MethodCall.antt =====
-- ActorRef::SendInternal's request, as it is received.
use ncaf.Common.{
  ℕ, ◌+◌, ◌^◌, ◌≤◌, ◌<◌, ◌≡◌, sym, ap, ◌∙◌, List, ◌++◌, append_assoc, length, drop, length-append,
  length-drop, drop-drop, drop-length-append, ok, arith,
}
use ncaf.Serde.Bytes.{encode_le, length-encode_le}
use ncaf.Serde.Buffer.{size_t_mod, max_string, rest_bytes}
use ncaf.Serde.Buffer.Filling.{copy_from-filled, write_primitive-filled, next_primitive-reading}
use ncaf.Serde.Message.{Alloc, method_call_request, method_call, parse_request}
use ncaf.Serde.Message.RoundTrip.{
  key_header, header_length, header_written, after_header-length, type_read, key_read,
}

abbrev pub request_size : List ℕ → List ℕ → ℕ
request_size key args = 1 + 8 + 8 + length key + 8 + length args

module _ (alloc : Alloc) (key args : List ℕ) (actor_id : ℕ) (sized : (n : ℕ) → length (alloc n) ≡ n)
    (small : request_size key args < size_t_mod) where
  room : List ℕ
  room = alloc (request_size key args)

  after_key : List ℕ
  unfolding room
  after_key = drop (length key) (drop 8 (drop 1 room))

  after_key-length : length after_key ≡ 16 + length args
  unfolding after_key
  after_key-length = omega (arith, sized (request_size key args), after_header-length key room)

  unwritten : List ℕ
  unfolding after_key
  unwritten = drop (length args) (drop 8 after_key)

  unwritten-length : length unwritten ≡ 8
  unfolding unwritten
  unwritten-length = omega (
    arith,
    after_key-length,
    length-drop 8 after_key,
    length-drop (length args) (drop 8 after_key),
  )

  unwritten-allocated :
      unwritten ≡ drop (17 + length key + length args) (alloc (request_size key args))
  unfolding unwritten
  unwritten-allocated =
      drop-drop (length args) 8 after_key
      ∙ drop-drop (8 + length args) (length key) (drop 8 (drop 1 room))
      ∙ drop-drop (length key + (8 + length args)) 8 (drop 1 room)
      ∙ drop-drop (8 + (length key + (8 + length args))) 1 room
      ∙ ap (λ n. drop n room) (omega arith)

  before_args : List ℕ
  before_args = key_header 1 key ++ encode_le 8 actor_id

  before_args-length : length before_args ≡ 17 + length key
  unfolding before_args
  before_args-length = omega (
    arith,
    length-append (key_header 1 key) (encode_le 8 actor_id),
    header_length 1 key,
    length-encode_le 8 actor_id,
  )

  written : method_call_request alloc key actor_id args ≡ ok ((before_args ++ args) ++ unwritten)
  unfolding method_call_request unwritten before_args
  written =
      header_written 1 key room _ (omega (arith, sized (request_size key args)))
        (omega (arith, sized (request_size key args)))
      ∙ rw
          (write_primitive-filled 8 actor_id (key_header 1 key) after_key
            (omega (arith, after_key-length))
            (omega (arith, after_key-length, header_length 1 key)))
          (rw (
            copy_from-filled before_args (drop 8 after_key) args
              (omega (arith, after_key-length, length-drop 8 after_key))
              (omega (arith, after_key-length, before_args-length, length-drop 8 after_key))))

  by_parts :
      (before_args ++ args) ++ unwritten
      ≡ key_header 1 key ++ (encode_le 8 actor_id ++ (args ++ unwritten))
  unfolding before_args
  by_parts = simp append_assoc

  whole-length : length ((before_args ++ args) ++ unwritten) ≡ request_size key args
  whole-length = omega (
    arith,
    length-append (before_args ++ args) unwritten,
    length-append before_args args,
    before_args-length,
    unwritten-length,
  )

  parsed :
      length key ≤ max_string
      → actor_id < 2 ^ 64
      → parse_request ((before_args ++ args) ++ unwritten)
        ≡ ok (method_call key actor_id (args ++ unwritten))
  unfolding parse_request rest_bytes
  parsed short id_fits =
      let rest = encode_le 8 actor_id ++ (args ++ unwritten) in
      let fits : length (key_header 1 key ++ rest) < size_t_mod =
        omega (arith, ap length by_parts, whole-length) in
      rw by_parts (
        rw (type_read 1 key rest (omega arith) fits) (
          rw (key_read 1 key rest short fits) (
            rw
              (next_primitive-reading 8 actor_id (key_header 1 key) (args ++ unwritten)
                (omega arith) fits)
              (ap (λ left. ok (method_call key actor_id left))
                (drop-length-append (key_header 1 key ++ encode_le 8 actor_id)
                  (args ++ unwritten))))))

-- A remote method call arrives with the handler key and the actor id that were sent, and with the
-- serialized arguments followed by eight bytes more: the last eight of the buffer as it was
-- allocated, which SendInternal counts in the size and never writes.
pub method_call_arrives :
    (alloc : Alloc) (key args : List ℕ) (actor_id : ℕ)
    → ((n : ℕ) → length (alloc n) ≡ n)
    → length key ≤ max_string
    → actor_id < 2 ^ 64
    → request_size key args < size_t_mod
    → let unwritten = drop (17 + length key + length args) (alloc (request_size key args)) in
      (buffer : List ℕ) × (method_call_request alloc key actor_id args ≡ ok buffer)
      × (length unwritten ≡ 8)
      × (parse_request buffer ≡ ok (method_call key actor_id (args ++ unwritten)))
method_call_arrives alloc key args actor_id sized short id_fits small =
    let same = unwritten-allocated alloc key args actor_id sized small in
    (
      (before_args alloc key args actor_id sized small ++ args)
          ++ unwritten alloc key args actor_id sized small,
      written alloc key args actor_id sized small,
      ap length (sym same) ∙ unwritten-length alloc key args actor_id sized small,
      parsed alloc key args actor_id sized small short id_fits
          ∙ ap (λ left. ok (method_call key actor_id (args ++ left))) same,
    )
