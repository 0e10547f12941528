-- ===== src/Stream/RoundTrip.antt =====
-- What was sent is read back, whatever follows it on the stream.
use paper_plane.Prelude.{
  ℕ, ◌<◌, ◌^◌, ◌%◌, ◌≡◌, none, some, List, [], ◌++◌, arith, length, length-append,
  take-length_append, drop-length_append,
}
use paper_plane.Prelude.Word.{be32}
use paper_plane.Prelude.Exec.{ok}
use paper_plane.Stream.{
  MessageEncoding, read_exact, length_bytes, eof_length, frame, decode_payload, read_payload,
  read_option, send_request, send_response, read_request, read_response, send_eof,
}

-- A length below 2 ^ 32 is read back from its four bytes.
be32_lem : (n : ℕ) → n < 2 ^ 32 → length_bytes (be32 (n % 2 ^ 32)) ≡ n
be32_lem n h = omega arith

read_exact-append : (xs ys : List ℕ) → read_exact (length xs) (xs ++ ys) ≡ ok (xs, ys)
read_exact-append xs ys =
    ground (arith, length-append xs ys, take-length_append xs ys, drop-length_append xs ys)

module _ {M : Type 0} (e : MessageEncoding M) where
  abbrev pub Decodes : M → Type 0
  Decodes m = e.decode_message (e.encode_message m) ≡ some m

  -- A request that the codec can decode, and that is shorter than 2 ^ 32 bytes, is read as it was
  -- sent, and the bytes behind it stay on the stream.
  pub read_request-send_request :
      (m : M) (rest : List ℕ)
      → Decodes m
      → length (e.encode_message m) < 2 ^ 32
      → read_request e (send_request e m [] ++ rest) ≡ ok (m, rest)
  unfolding read_request send_request frame read_payload decode_payload
  read_request-send_request m rest decodes short =
      ground
        (arith, be32_lem (length (e.encode_message m)), read_exact-append (e.encode_message m) rest)

  -- A response that the codec can decode, and that is shorter than the length 2 ^ 32 - 1 that
  -- marks the end, is read as it was sent, and the bytes behind it stay on the stream.
  pub read_response-send_response :
      (m : M) (rest : List ℕ)
      → Decodes m
      → length (e.encode_message m) < eof_length
      → read_response e (send_response e m [] ++ rest) ≡ ok (some m, rest)
  unfolding read_response send_response frame read_option decode_payload
  read_response-send_response m rest decodes short =
      ground
        (arith, be32_lem (length (e.encode_message m)), read_exact-append (e.encode_message m) rest)

  pub read_response-send_eof :
      (rest : List ℕ) → read_response e (send_eof [] ++ rest) ≡ ok (none, rest)
  unfolding read_response send_eof read_option
  read_response-send_eof rest = ground arith
