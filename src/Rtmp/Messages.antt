-- ===== src/Rtmp/Messages.antt =====
-- The messages of stream/RtmpDecoder.cpp, from SendAgreement to SendVideo. A double is its 64 bits;
-- `id` is the transaction id that a command carries. The argument `ok` of SendResult is not used.
use streamcode.Prelude.{ℕ, Bool, true, Option, List, [], ◌∷◌, ◌++◌, if◌then◌else◌, ◌>>=◌, codes}
use streamcode.Buffer.{contents}
use streamcode.Bytes.{flip32, stored32}
use streamcode.Amf.{AmfValue, number, string, object, null, undefined, nil, add}
use streamcode.Amf.Writer.{
  new_writer, write_string, write_number, write_null, write_boolean, write_object, write_value,
  write16, write32,
}
use streamcode.Rtmp.{Decoder}
use streamcode.Rtmp.Send.{send_message}

-- `status.add(key, text)`.
abbrev add_text : List ℕ → List ℕ → AmfValue → Option AmfValue
add_text key text v = add key (string text) v

abbrev new_object : AmfValue
new_object = object nil

module _ (junk : ℕ → ℕ) where
  -- `SendRtmpProtol` with time 0.
  unfoldable pub send_data : ℕ → ℕ → ℕ → List ℕ → Decoder → Option Decoder
  send_data type chunk_id stream_id body =
      send_message junk
        (record { type = type; chunk_id = chunk_id; stream_id = stream_id; time = 0; body = body })

  unfoldable pub send_agreement : ℕ → List ℕ → Decoder → Option Decoder
  send_agreement type body = send_data type 2 0 body

  unfoldable pub send_chunk_size : ℕ → Decoder → Option Decoder
  send_chunk_size n = send_agreement 1 (stored32 (flip32 n))

  unfoldable pub send_win_ack_size : ℕ → Decoder → Option Decoder
  send_win_ack_size n = send_agreement 5 (stored32 (flip32 n))

  -- The bytes are not reversed, and `append(0x02, 1)` is two bytes of value 1.
  unfoldable pub send_peer_width : ℕ → Decoder → Option Decoder
  send_peer_width n = send_agreement 6 (stored32 n ++ (1 ∷ 1 ∷ []))

  unfoldable pub send_on_bw_done : Decoder → Option Decoder
  send_on_bw_done d = write_string junk (codes "onBWDone") (new_writer junk) >>= λ w.
      write_number junk 0 w >>= λ w. write_null junk w >>= λ w. send_data 0x14 3 0 (contents w) d

  unfoldable pub send_result : ℕ → AmfValue → AmfValue → Decoder → Option Decoder
  send_result id first second d = write_string junk (codes "_result") (new_writer junk) >>= λ w.
      write_number junk id w >>= λ w. write_value junk first w >>= λ w.
      write_value junk second w >>= λ w. send_data 0x14 3 0 (contents w) d

  unfoldable pub send_bw_result : ℕ → Decoder → Option Decoder
  send_bw_result id = send_result id null null

  unfoldable pub send_create_stream : ℕ → Decoder → Option Decoder
  send_create_stream id d = write_string junk (codes "_result") (new_writer junk) >>= λ w.
      write_number junk id w >>= λ w. write_null junk w >>= λ w. send_data 0x14 3 0 (contents w) d

  -- The common end of the status messages: a command, a number, null and an object.
  unfoldable pub send_command : List ℕ → ℕ → AmfValue → Decoder → Option Decoder
  send_command name id status d = write_string junk name (new_writer junk) >>= λ w.
      write_number junk id w >>= λ w. write_null junk w >>= λ w.
      write_object junk status w >>= λ w. send_data 0x14 4 0 (contents w) d

  unfoldable pub send_pub_on_status : ℕ → Bool → Decoder → Option Decoder
  send_pub_on_status id ok d =
      add_text (codes "level") (if ok then codes "status" else codes "error") new_object >>= λ s.
      add_text (codes "code")
        (if ok then codes "NetStream.Publish.Start" else codes "NetStream.Publish.BadName") s
      >>= λ s.
          add_text (codes "description")
            (if ok then codes "Started publishing stream." else codes "Already publishing.") s
          >>= λ s. add_text (codes "clientid") (codes "001") s >>= λ s.
              send_command (codes "onStatus") id s d

  unfoldable pub send_fmle_result : ℕ → Decoder → Option Decoder
  send_fmle_result id = send_result id null undefined

  -- The transaction id is not used.
  unfoldable pub send_on_fc_publish : ℕ → Decoder → Option Decoder
  send_on_fc_publish id d =
      add_text (codes "code") (codes "NetStream.Publish.Start") new_object >>= λ s.
      add_text (codes "description") (codes "Started publishing stream.") s >>= λ s.
      send_command (codes "onFCPublish") 0 s d

  unfoldable pub send_status : AmfValue → Decoder → Option Decoder
  send_status status = send_command (codes "onStatus") 0 status

  unfoldable pub send_status_reset : Bool → Decoder → Option Decoder
  send_status_reset success d =
      add_text (codes "level") (if success then codes "status" else codes "error") new_object
      >>= λ s.
          add_text (codes "code")
            (if success
              then codes "NetStream.Play.Reset"
              else codes "NetStream.Play.StreamNotFound")
            s
          >>= λ s.
              add_text (codes "description")
                (if success then codes "Playing and resetting stream." else codes "No such stream.")
                s
              >>= λ s. add_text (codes "details") (codes "stream") s >>= λ s.
                  add_text (codes "clientid") (codes "ASAICiss") s >>= λ s. send_status s d

  unfoldable pub send_status_start : Decoder → Option Decoder
  send_status_start d = add_text (codes "level") (codes "status") new_object >>= λ s.
      add_text (codes "code") (codes "NetStream.Play.Start") s >>= λ s.
      add_text (codes "description") (codes "Started playing stream.") s >>= λ s.
      add_text (codes "details") (codes "stream") s >>= λ s.
      add_text (codes "clientid") (codes "ASAICiss") s >>= λ s. send_status s d

  unfoldable pub rtmp_sample_access : Decoder → Option Decoder
  rtmp_sample_access d = write_string junk (codes "|RtmpSampleAccess") (new_writer junk) >>= λ w.
      write_boolean junk true w >>= λ w.
      write_boolean junk true w >>= λ w. send_data 4 2 1 (contents w) d

  unfoldable pub send_stream_begin0 : Decoder → Option Decoder
  send_stream_begin0 d = write16 junk 0 (new_writer junk) >>= λ w.
      write32 junk 0 w >>= λ w. send_data 4 2 0 (contents w) d

  -- 0x403f000000000000 is 31.0.
  unfoldable pub send_connect_status : Bool → ℕ → Decoder → Option Decoder
  send_connect_status result id d =
      add_text (codes "fmsVer") (codes "FMS/3,0,1,123") new_object >>= λ v.
      add (codes "capabilities") (number 0x403f_0000_0000_0000) v >>= λ version.
      add_text (codes "level") (if result then codes "status" else codes "error") new_object
      >>= λ s.
          add_text (codes "code")
            (if result
              then codes "NetConnection.Connect.Success"
              else codes "NetConnection.Connect.InvalidApp")
            s
          >>= λ s.
              add_text (codes "description")
                (if result then codes "Connection succeeded." else codes "InvalidApp.") s
              >>= λ s. add (codes "objectEncoding") (number 0) s >>= λ status.
                  write_string junk (if result then codes "_result" else codes "_error")
                    (new_writer junk)
                  >>= λ w. write_number junk id w >>= λ w. write_object junk version w >>= λ w.
                      write_object junk status w >>= λ w. send_data 0x14 3 0 (contents w) d

  -- What SendVideo takes of a packet: its channel, its stream, its bytes and its time.
  unfoldable pub send_video : ℕ → ℕ → List ℕ → ℕ → Decoder → Option Decoder
  send_video channel_id stream_id body time =
      send_message junk (record {
        type = 9;
        chunk_id = channel_id;
        stream_id = stream_id;
        time = time;
        body = body;
      })
