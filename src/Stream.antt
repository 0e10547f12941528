-- ===== src/Stream.antt =====
-- ChatLib/chat-arch/src/stream_protocol.rs: frames of requests and responses on a stream of bytes.
-- A reader is the list of the bytes that arrive before the stream ends; a reading takes them from
-- the front. A writer is the list of what was written.
pub mod RoundTrip
use paper_plane.Prelude.{
  ℕ, zero, suc, ◌<◌, ◌^◌, ◌%◌, ◌≡◌, String, Bool, true, false, not, Option, none, some, List, [],
  ◌∷◌, ◌++◌, ◌==◌, ltb, length, take, drop, if◌then◌else◌,
}
use paper_plane.Prelude.Word.{be32, from_be32}
use paper_plane.Prelude.Exec.{Result, ok, err, wrong_frame, unexpected_eof, undecodable}

-- The trait `MessageEncoding`; for `ChatMessage` it is prost's codec (chat_msg.rs).
pub record MessageEncoding (M : Type 0) : Type 0 where
  pub encode_message : M → List ℕ
  pub decode_message : List ℕ → Option M

abbrev pub request_frame : ℕ
request_frame = 0x01

abbrev pub response_frame : ℕ
response_frame = 0x02

-- `read_exact` of `n` bytes.
abbrev pub read_exact : ℕ → List ℕ → Result (List ℕ × List ℕ)
read_exact n bytes =
    if ltb (length bytes) n then err unexpected_eof else ok (take n bytes, drop n bytes)

abbrev pub length_bytes : List ℕ → ℕ
length_bytes (a ∷ b ∷ c ∷ d ∷ _) = from_be32 a b c d
length_bytes _ = 0

abbrev pub eof_length : ℕ
eof_length = 0xFFFF_FFFF

module _ {M : Type 0} (e : MessageEncoding M) where
  decode_payload : List ℕ → List ℕ → Result (M × List ℕ)
  decode_payload payload rest = elim (e.decode_message payload) [
    | some m ↦ ok (m, rest)
    | none ↦ err undecodable
  ]

  -- The length of a payload as four bytes of a u32, and the payload.
  frame : ℕ → List ℕ → List ℕ
  frame kind payload = kind ∷ be32 (length payload % 2 ^ 32) ++ payload

  unfoldable pub send_request : M → List ℕ → List ℕ
  unfolding frame
  send_request m out = out ++ frame request_frame (e.encode_message m)

  unfoldable pub send_response : M → List ℕ → List ℕ
  unfolding frame
  send_response m out = out ++ frame response_frame (e.encode_message m)

  read_payload : List ℕ → Result (M × List ℕ)
  unfolding decode_payload
  read_payload bytes = elim (read_exact 4 bytes) [
    | err x ↦ err x
    | ok (head, rest) ↦ elim (read_exact (length_bytes head) rest) [
      | err x ↦ err x
      | ok (payload, rest') ↦ decode_payload payload rest'
    ]
  ]

  unfoldable pub read_request : List ℕ → Result (M × List ℕ)
  unfolding read_payload
  read_request [] = err unexpected_eof
  read_request (kind ∷ bytes) =
      if not (kind == request_frame) then err wrong_frame else read_payload bytes

  read_option : List ℕ → Result (Option M × List ℕ)
  unfolding decode_payload
  read_option bytes = elim (read_exact 4 bytes) [
    | err x ↦ err x
    | ok (head, rest) ↦
        if length_bytes head == eof_length
        then ok (none, rest)
        else elim (read_exact (length_bytes head) rest) [
          | err x ↦ err x
          | ok (payload, rest') ↦ elim (decode_payload payload rest') [
            | err x ↦ err x
            | ok (m, r) ↦ ok (some m, r)
          ]
        ]
  ]

  unfoldable pub read_response : List ℕ → Result (Option M × List ℕ)
  unfolding read_option
  read_response [] = err unexpected_eof
  read_response (kind ∷ bytes) =
      if not (kind == response_frame) then err wrong_frame else read_option bytes

unfoldable pub send_eof : List ℕ → List ℕ
send_eof out = out ++ (response_frame ∷ be32 eof_length)
