-- ===== src/Tests/Codecs.antt =====
-- Tests of the theorems on conversions, order ids and frames.
use paper_plane.Prelude.{
  ℕ, ◌-◌, ◌<◌, ◌≤◌, ◌^◌, ◌≡◌, ◌↔◌, ◌⊎◌, refl, true, false, none, some, List, [], ◌∷◌, ◌++◌, arith,
  ltb, if◌then◌else◌,
}
use paper_plane.Prelude.Exec.{ok}
use paper_plane.Models.{from_message, into_message}
use paper_plane.Models.Convert.{from_message-into_message}
use paper_plane.Index.OrderId.{order_id, codes}
use paper_plane.Index.OrderId.Order.{lt_text, lt_text-order_id}
use paper_plane.Stream.{MessageEncoding, send_request, send_eof, read_request, read_response}
use paper_plane.Stream.RoundTrip.{read_request-send_request, read_response-send_eof}
use paper_plane.Tests.{sample}

from_message-into_message_example :
    (from_message (into_message (sample 7 "m1" 3)) ≡ sample 7 "m1" 3)
    ↔ ((7 < 2 ^ 31) ⊎ (2 ^ 64 - 2 ^ 31 ≤ 7))
from_message-into_message_example = from_message-into_message (sample 7 "m1" 3) (omega arith)

lt_text-order_id_example :
    lt_text (order_id 9 "b") (order_id 10 "a")
    ≡ (if ltb 9 10 then true else if ltb 10 9 then false else lt_text (codes "b") (codes "a"))
lt_text-order_id_example = lt_text-order_id 9 10 "b" "a" (omega arith) (omega arith)

-- Messages that are their own encoding.
abbrev bytes : MessageEncoding (List ℕ)
bytes = record { encode_message = λ m. m; decode_message = λ m. some m }

read_request-send_request_example :
    read_request bytes (send_request bytes (7 ∷ 8 ∷ []) [] ++ 9 ∷ []) ≡ ok (7 ∷ 8 ∷ [], 9 ∷ [])
read_request-send_request_example =
    read_request-send_request bytes (7 ∷ 8 ∷ []) (9 ∷ []) refl (omega arith)

read_response-send_eof_example : read_response bytes (send_eof [] ++ 9 ∷ []) ≡ ok (none, 9 ∷ [])
read_response-send_eof_example = read_response-send_eof bytes (9 ∷ [])
