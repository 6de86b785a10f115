-- ===== src/Rtsp/Session.antt =====
-- stream/RtspSession.h and stream/RtspSession.cpp: the answers to the requests of a player. What a
-- connection is given to send is a list. The file of a session is opened by stream/FlvReader.cpp.
use streamcode.Prelude.{
  ℕ, ◌+◌, Bool, true, false, Option, none, some, List, [], ◌∷◌, ◌++◌, length, ltb, if◌then◌else◌,
  codes, ◌>>=◌,
}
use streamcode.TBuffer.{TBuffer}
use streamcode.Http.{Request, crlf, index_of}
use streamcode.Rtp.{send_nalu_packet}
use streamcode.Rtsp.{Parsed, parsed, parse, get_value, c_str}
use streamcode.Rtsp.Response.{decimal, add_header, set_status, build_header}

-- What a session uses of `FlvReader`: whether its file is open, and how often ReadHeader was handed to
-- the worker threads.
pub record FlvFile : Type 0 where
  pub is_open : Bool
  pub started : ℕ

-- `File::Open`, which is negative for a file that is open; `opens` is that `fopen` succeeds. Then
-- `FlvReader::Open`, and what it returns.
unfoldable pub open_file : Bool → FlvFile → FlvFile × Bool
open_file opens f =
    if f.is_open
    then (f, false)
    else if opens
    then (record { is_open = true; started = f.started + 1 }, true)
    else (f, false)

-- `reader` is `flvReader`, which is NULL at first.
pub record RtspSession : Type 0 where
  pub request : Request
  pub reader : Option FlvFile
  pub sent : List (List ℕ)

unfoldable pub send : List ℕ → RtspSession → RtspSession
send text s = record s { sent = s.sent ++ (text ∷ []) }

-- `sprintf` into `m_pcBuf`, which has 4096 bytes, the last of them for the 0.
unfoldable pub formatted : List ℕ → Option (List ℕ)
formatted text = if ltb (length text) 4096 then some text else none

abbrev pub public_methods : List ℕ
public_methods =
    codes "OPTIONS, DESCRIBE, SETUP, TEARDOWN, PLAY, "
    ++ (9 ∷ 9 ∷ codes "PAUSE, SET_PARAMETER, GET_PARAMETER")

unfoldable pub process_option : RtspSession → RtspSession
unfolding send build_header add_header set_status get_value
process_option s =
    send
      (build_header (
        add_header (codes "Public") public_methods (
          add_header (codes "CSeq") (get_value (codes "CSeq") s.request)
            (set_status 200 (record { status = 0; headers = [] })))))
      s

unfoldable pub create_sdp : List ℕ
create_sdp =
    codes "v=0"
    ++ (crlf
        ++ (codes "o=- 58 1 IN IP4 192.168.0.102"
            ++ (crlf
                ++ (codes "s=TinyStreamServer"
                    ++ (crlf
                        ++ (codes "i=HeheServer"
                            ++ (crlf
                                ++ (codes "c=IN IP4 192.168.0.102"
                                    ++ (crlf
                                        ++ (codes "t=0 0"
                                            ++ (crlf
                                                ++ (codes "a=range:npt=0-"
                                                    ++ (crlf
                                                        ++ (codes "a=control:*"
                                                            ++ (crlf
                                                            ++ (codes "m=video 0 RTP/AVP 96"
                                                            ++ (crlf
                                                            ++ (codes "a=control:trackID=1"
                                                            ++ (crlf
                                                            ++ (codes "a=rtpmap:96 H264/90000"
                                                            ++ crlf))))))))))))))))))))

-- The first two lines of the answers that are made by `sprintf`.
unfoldable pub ok_lines : Request → List ℕ
unfolding c_str get_value
ok_lines r =
    codes "RTSP/1.0 200 OK"
    ++ (crlf ++ (codes "CSeq: " ++ (c_str (get_value (codes "CSeq") r) ++ crlf)))

unfoldable pub describe_answer : Request → List ℕ
unfolding ok_lines c_str create_sdp decimal
describe_answer r =
    ok_lines r
    ++ (codes "Content-Base: "
        ++ (c_str r.url
            ++ (codes "/"
                ++ (crlf
                    ++ (codes "Content-Type: application/sdp"
                        ++ (crlf
                            ++ (codes "Content-Length: "
                                ++ (decimal 10 (length create_sdp)
                                    ++ (crlf ++ (crlf ++ create_sdp))))))))))

-- ProcessDescribe; `none` is an access outside of an object.
unfoldable pub process_describe : RtspSession → Option RtspSession
unfolding formatted describe_answer send
process_describe s = formatted (describe_answer s.request) >>= λ text.
    some (send text (record s { reader = some (record { is_open = false; started = 0 }) }))

unfoldable pub setup_answer : ℕ → Request → List ℕ
unfolding ok_lines decimal
setup_answer now r =
    ok_lines r
    ++ (codes "Transport: RTP/AVP/TCP;unicast;interleaved=0-1"
        ++ (crlf ++ (codes "Session: " ++ (decimal 19 now ++ (crlf ++ crlf)))))

abbrev pub over_tcp : Option ℕ → RtspSession → List ℕ → Option RtspSession
over_tcp none s text = some s
over_tcp (some i) s text = formatted text >>= λ t. some (send t s)

-- ProcessSetup, when the clock says `now`. The number of the track is not used.
unfoldable pub process_setup : ℕ → RtspSession → Option RtspSession
unfolding formatted setup_answer send get_value
process_setup now s =
    over_tcp (index_of (codes "RTP/AVP/TCP") (get_value (codes "Transport") s.request)) s
      (setup_answer now s.request)

unfoldable pub play_answer : Request → List ℕ
unfolding ok_lines c_str get_value
play_answer r =
    ok_lines r
    ++ (codes "Session: "
        ++ (c_str (get_value (codes "Session") r)
            ++ (crlf
                ++ (codes "RTP-Info: " ++ (c_str r.url ++ (codes "track1" ++ (crlf ++ crlf)))))))

abbrev pub opened : Bool → RtspSession → Option FlvFile → Option RtspSession
opened opens s none = none
opened opens s (some f) = some (record s { reader = some (open_file opens f).0 })

-- ProcessPlay, which opens the file. What Open returns is a Bool, and never below 0.
unfoldable pub process_play : Bool → RtspSession → Option RtspSession
unfolding formatted play_answer send open_file
process_play opens s =
    formatted (play_answer s.request) >>= λ text. opened opens (send text s) s.reader

-- Two texts are the same.
unfoldable pub same_text : List ℕ → List ℕ → Bool
same_text [] [] = true
same_text [] (b ∷ bs) = false
same_text (a ∷ as') [] = false
same_text (a ∷ as') (b ∷ bs) =
    if ltb a b then false else if ltb b a then false else same_text as' bs

unfoldable pub dispatch : Bool → ℕ → List ℕ → RtspSession → Option RtspSession
unfolding same_text process_option process_describe process_setup process_play
dispatch opens now method s =
    if same_text method (codes "OPTIONS")
    then some (process_option s)
    else if same_text method (codes "DESCRIBE")
    then process_describe s
    else if same_text method (codes "SETUP")
    then process_setup now s
    else if same_text method (codes "PLAY")
    then process_play opens s
    else some s

-- What OnRead leaves, with the input ring of the connection. `leaves` is an exception or an access
-- outside of an object, or a loop of ParseHead that does not end.
pub data Outcome : Type 0 where
  read_on : RtspSession → TBuffer → Outcome
  leaves : Outcome

abbrev pub answered : TBuffer → Option RtspSession → Outcome
answered b none = leaves
answered b (some s) = read_on s b

abbrev pub after_parse : Bool → ℕ → RtspSession → Parsed → Outcome
after_parse opens now s (parsed r b false) = read_on (record s { request = r }) b
after_parse opens now s (parsed r b true) =
    answered b (dispatch opens now r.method (record s { request = r }))
after_parse opens now s _ = leaves

unfoldable pub on_read : Bool → Bool → ℕ → ℕ → RtspSession → TBuffer → Outcome
unfolding parse dispatch
on_read narrow opens now fuel s b = after_parse opens now s (parse narrow fuel s.request b)

-- ReadFromSource, the callback of the reader: a unit as packets on the connection. The counter is the
-- static one of RTP.
unfoldable pub read_from_source : ℕ → ℕ → List ℕ → RtspSession → RtspSession × ℕ
unfolding send_nalu_packet
read_from_source seq pts bytes s =
    let out = send_nalu_packet seq pts bytes in (record s { sent = s.sent ++ out.packets }, out.seq)
