-- ===== src/Examples/Serde.antt =====
-- Buffers and requests: a key of three bytes with two bytes of arguments.
use ncaf.Common.{
  ℕ, zero, suc, ◌+◌, ◌-◌, ◌^◌, ◌≤◌, ◌<◌, ◌≡◌, ◌⊎◌, refl, ap, List, [], ◌∷◌, ◌++◌, length, take,
  drop, ok, err, buffer_overflow, length_error, arith,
}
use ncaf.Serde.Buffer.{BufferReader, size_t_mod, pull_string}
use ncaf.Serde.Buffer.Bounds.{InBounds, pull_string_cases}
use ncaf.Serde.Message.{
  Alloc, creation_request, method_call_request, parse_request, creation, method_call,
}
use ncaf.Serde.Message.RoundTrip.{creation_round_trip}
use ncaf.Serde.Message.MethodCall.{method_call_arrives}

abbrev pub zeros : Alloc
zeros zero = []
zeros (suc n) = 0 ∷ zeros n

pub length-zeros : (n : ℕ) → length (zeros n) ≡ n
length-zeros zero = refl
length-zeros (suc n) = ap suc (length-zeros n)

abbrev pub key : List ℕ
key = 102 ∷ 111 ∷ 111 ∷ []

abbrev pub args : List ℕ
args = 4 ∷ 5 ∷ []

abbrev pub reader : BufferReader
reader = record { buffer = 1 ∷ 2 ∷ 3 ∷ []; offset = 1 }

reader-InBounds : InBounds reader
reader-InBounds = record { inside = omega arith; small = omega arith }

pull_string_cases_example :
    ((reader.offset + (2 ^ 64 - 1) ≤ length reader.buffer)
      × (pull_string (2 ^ 64 - 1) reader
          ≡ ok (
            take (2 ^ 64 - 1) (drop reader.offset reader.buffer),
            record reader { offset = reader.offset + (2 ^ 64 - 1) },
          )))
    ⊎ ((length reader.buffer < reader.offset + (2 ^ 64 - 1))
        × (((reader.offset + (2 ^ 64 - 1) < size_t_mod)
              × (pull_string (2 ^ 64 - 1) reader ≡ err buffer_overflow))
            ⊎ ((size_t_mod ≤ reader.offset + (2 ^ 64 - 1))
                × (pull_string (2 ^ 64 - 1) reader ≡ err length_error))))
pull_string_cases_example = pull_string_cases (2 ^ 64 - 1) reader reader-InBounds (omega arith)

creation_round_trip_example :
    (buffer : List ℕ) × (creation_request zeros key args ≡ ok buffer)
    × (length buffer ≡ 14)
    × (parse_request buffer ≡ ok (creation key args))
creation_round_trip_example =
    creation_round_trip zeros key args length-zeros (omega arith) (omega arith)

method_call_arrives_example :
    let unwritten = drop 22 (zeros 30) in
    (buffer : List ℕ) × (method_call_request zeros key 9 args ≡ ok buffer)
    × (length unwritten ≡ 8)
    × (parse_request buffer ≡ ok (method_call key 9 (args ++ unwritten)))
method_call_arrives_example =
    method_call_arrives zeros key args 9 length-zeros (omega arith) (omega arith) (omega arith)
