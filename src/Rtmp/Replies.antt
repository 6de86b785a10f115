-- ===== src/Rtmp/Replies.antt =====
-- The answers of stream/RtmpDecoder.cpp one by one.
use streamcode.Prelude.{ℕ, ◌≤◌, ◌<◌, true, List, [], ◌∷◌, ◌++◌, arith, length, ◌>>=◌, codes}
use streamcode.Buffer.{contents}
use streamcode.Bytes.{flip16, flip32, stored16, stored24, stored32, stored64}
use streamcode.Amf.{
  AmfValue, get_object, add, boolean, object, null, undefined, Fields, emplace, less,
}
use streamcode.Amf.Writer.{
  new_writer, write_string, write_number, write_null, write_boolean, write_object, write_value,
  write16, write32,
}
use streamcode.Amf.Encoding.{
  Emits, encode, encode_fields, encode_string, Emits-put, Emits-string, write_value-Emits,
}
use streamcode.Rtmp.{Decoder}
use streamcode.Rtmp.Messages.{
  send_data, send_result, send_bw_result, send_fmle_result, send_create_stream, send_command,
  send_pub_on_status, send_agreement, send_win_ack_size, send_peer_width, send_stream_begin0,
  send_status, send_status_reset, send_status_start, rtmp_sample_access, send_connect_status,
}
use streamcode.Rtmp.Answers.{Sent, send_data-Sent, step, finish, fresh, command}

module _ (junk : ℕ → ℕ) where
  send_result-Sent :
      (id : ℕ) (first second : AmfValue) (d : Decoder)
      → 0 < d.local_chunk_size
      → length (encode first) ≤ 100
      → length (encode second) ≤ 100
      → Sent (send_result junk id first second d) d
  unfolding send_result
  send_result-Sent id first second d pos small small' =
      command junk (codes "_result") id _ d (omega arith) (λ b ready.
        step junk (write_value junk first) _ (encode first) 112 b d (write_value-Emits junk first)
          (omega (arith, small)) ready
          (λ c ready.
            step junk (write_value junk second) _ (encode second) _ c d
              (write_value-Emits junk second) (omega (arith, small, small')) ready
              (λ e ready. finish junk 0x14 3 0 _ e d pos (omega (arith, small, small')) ready)))

  Emits-null : Emits (write_null junk) (5 ∷ [])
  unfolding write_value encode
  Emits-null = write_value-Emits junk null

  Emits-object : (fs : Fields) → Emits (write_object junk (object fs)) (encode (object fs))
  unfolding write_object write_value get_object
  Emits-object fs = write_value-Emits junk (object fs)

  send_command-Sent :
      (name : List ℕ) (id : ℕ) (fs : Fields) (d : Decoder)
      → 0 < d.local_chunk_size
      → length name ≤ 100
      → length (encode (object fs)) ≤ 1000
      → Sent (send_command junk name id (object fs) d) d
  unfolding send_command
  send_command-Sent name id fs d pos short small = command junk name id _ d short (λ b ready.
      step junk (write_null junk) _ (5 ∷ []) 112 b d Emits-null (omega arith) ready (λ c ready.
        step junk (write_object junk (object fs)) _ (encode (object fs)) _ c d (Emits-object fs)
          (omega (arith, small)) ready
          (λ e ready. finish junk 0x14 4 0 _ e d pos (omega (arith, small)) ready)))

  pub send_status_reset-Sent :
      (d : Decoder) → 0 < d.local_chunk_size → Sent (send_status_reset junk true d) d
  unfolding send_status_reset send_status add emplace less
  send_status_reset-Sent d pos =
      send_command-Sent (codes "onStatus") 0 _ d pos (omega arith)
        (unfold encode encode_fields encode_string stored16 stored24 in omega arith)

  pub send_status_start-Sent :
      (d : Decoder) → 0 < d.local_chunk_size → Sent (send_status_start junk d) d
  unfolding send_status_start send_status add emplace less
  send_status_start-Sent d pos =
      send_command-Sent (codes "onStatus") 0 _ d pos (omega arith)
        (unfold encode encode_fields encode_string stored16 stored24 in omega arith)

  pub send_pub_on_status-Sent :
      (id : ℕ) (d : Decoder) → 0 < d.local_chunk_size → Sent (send_pub_on_status junk id true d) d
  unfolding send_pub_on_status add emplace less
  send_pub_on_status-Sent id d pos =
      send_command-Sent (codes "onStatus") id _ d pos (omega arith)
        (unfold encode encode_fields encode_string stored16 stored24 in omega arith)

  pub send_bw_result-Sent :
      (id : ℕ) (d : Decoder) → 0 < d.local_chunk_size → Sent (send_bw_result junk id d) d
  unfolding send_bw_result encode
  send_bw_result-Sent id d pos = send_result-Sent id null null d pos (omega arith) (omega arith)

  pub send_fmle_result-Sent :
      (id : ℕ) (d : Decoder) → 0 < d.local_chunk_size → Sent (send_fmle_result junk id d) d
  unfolding send_fmle_result encode
  send_fmle_result-Sent id d pos =
      send_result-Sent id null undefined d pos (omega arith) (omega arith)

  pub send_create_stream-Sent :
      (id : ℕ) (d : Decoder) → 0 < d.local_chunk_size → Sent (send_create_stream junk id d) d
  unfolding send_create_stream
  send_create_stream-Sent id d pos = command junk (codes "_result") id _ d (omega arith) (λ b ready.
      step junk (write_null junk) _ (5 ∷ []) 112 b d Emits-null (omega arith) ready
        (λ c ready. finish junk 0x14 3 0 _ c d pos (omega arith) ready))

  pub send_win_ack_size-Sent :
      (n : ℕ) (d : Decoder) → 0 < d.local_chunk_size → Sent (send_win_ack_size junk n d) d
  unfolding send_win_ack_size send_agreement stored32
  send_win_ack_size-Sent n d pos =
      send_data-Sent junk 5 2 0 (stored32 (flip32 n)) d pos (omega arith)

  pub send_peer_width-Sent :
      (n : ℕ) (d : Decoder) → 0 < d.local_chunk_size → Sent (send_peer_width junk n d) d
  unfolding send_peer_width send_agreement stored32
  send_peer_width-Sent n d pos =
      send_data-Sent junk 6 2 0 (stored32 n ++ (1 ∷ 1 ∷ [])) d pos (omega arith)

  pub send_stream_begin0-Sent :
      (d : Decoder) → 0 < d.local_chunk_size → Sent (send_stream_begin0 junk d) d
  unfolding send_stream_begin0 write16 write32 stored16 stored32
  send_stream_begin0-Sent d pos =
      step junk (write16 junk 0) _ (stored16 (flip16 0)) 0 (new_writer junk) d
        (Emits-put junk (stored16 (flip16 0))) (omega arith) (fresh junk)
        (λ b ready.
          step junk (write32 junk 0) _ (stored32 (flip32 0)) _ b d
            (Emits-put junk (stored32 (flip32 0))) (omega arith) ready
            (λ c ready. finish junk 4 2 0 _ c d pos (omega arith) ready))

  Emits-true : Emits (write_boolean junk true) (1 ∷ 1 ∷ [])
  unfolding write_value encode
  Emits-true = write_value-Emits junk (boolean true)

  pub rtmp_sample_access-Sent :
      (d : Decoder) → 0 < d.local_chunk_size → Sent (rtmp_sample_access junk d) d
  unfolding rtmp_sample_access encode_string stored16
  rtmp_sample_access-Sent d pos =
      step junk (write_string junk (codes "|RtmpSampleAccess")) _
        (encode_string (codes "|RtmpSampleAccess")) 0 (new_writer junk) d
        (Emits-string junk (codes "|RtmpSampleAccess")) (omega arith) (fresh junk)
        (λ b ready.
          step junk (write_boolean junk true) _ (1 ∷ 1 ∷ []) _ b d Emits-true (omega arith) ready
            (λ c ready.
              step junk (write_boolean junk true) _ (1 ∷ 1 ∷ []) _ c d Emits-true (omega arith)
                ready (λ e ready. finish junk 4 2 1 _ e d pos (omega arith) ready)))

  -- The end of the answer to `connect`.
  send_objects-Sent :
      (name : List ℕ) (id : ℕ) (one two : Fields) (d : Decoder)
      → 0 < d.local_chunk_size
      → length name ≤ 100
      → length (encode (object one)) ≤ 1000
      → length (encode (object two)) ≤ 1000
      → Sent
          (write_string junk name (new_writer junk) >>= λ w. write_number junk id w >>= λ w.
            write_object junk (object one) w >>= λ w.
            write_object junk (object two) w >>= λ w. send_data junk 0x14 3 0 (contents w) d)
          d
  send_objects-Sent name id one two d pos short small small' =
      command junk name id _ d short (λ b ready.
        step junk (write_object junk (object one)) _ (encode (object one)) 112 b d
          (Emits-object one) (omega (arith, small)) ready
          (λ c ready.
            step junk (write_object junk (object two)) _ (encode (object two)) _ c d
              (Emits-object two) (omega (arith, small, small')) ready
              (λ e ready. finish junk 0x14 3 0 _ e d pos (omega (arith, small, small')) ready)))

  pub send_connect_status-Sent :
      (id : ℕ) (d : Decoder) → 0 < d.local_chunk_size → Sent (send_connect_status junk true id d) d
  unfolding send_connect_status add emplace less
  send_connect_status-Sent id d pos =
      send_objects-Sent (codes "_result") id _ _ d pos (omega arith)
        (unfold encode encode_fields encode_string stored16 stored24 stored64 in omega arith)
        (unfold encode encode_fields encode_string stored16 stored24 stored64 in omega arith)
