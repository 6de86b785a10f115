-- ===== src/Rtsp/Response.antt =====
-- stream/RtspResponse.h, and stream/HttpResponse.h, which differs in the lines that come first. The
-- headers are a `std::map`, which stands in the order of its keys.
use streamcode.Prelude.{
  ℕ, zero, suc, ◌+◌, ◌/◌, ◌%◌, ◌||◌, List, [], ◌∷◌, ◌++◌, ltb, if◌then◌else◌, codes,
}
use streamcode.Amf.{less}
use streamcode.Http.{crlf, colon, space, is_empty}

-- `std::to_string` of a number with as many digits at most.
unfoldable pub decimal : ℕ → ℕ → List ℕ
decimal zero n = []
decimal (suc digits) n =
    let front = decimal digits (n / 10) in
    if ltb n 10 then (n + 48) ∷ [] else front ++ ((n % 10 + 48) ∷ [])

pub record Response : Type 0 where
  pub status : ℕ
  pub headers : List (List ℕ × List ℕ)

-- `headers_[key] = value`.
unfoldable pub set_header : List ℕ → List ℕ → List (List ℕ × List ℕ) → List (List ℕ × List ℕ)
set_header key value [] = (key, value) ∷ []
set_header key value ((k, v) ∷ rest) =
    let later = set_header key value rest in
    if less key k
    then (key, value) ∷ (k, v) ∷ rest
    else if less k key
    then (k, v) ∷ later
    else (k, value) ∷ rest

unfoldable pub add_header : List ℕ → List ℕ → Response → Response
unfolding set_header
add_header key value r =
    if is_empty key || is_empty value
    then r
    else record r { headers = set_header key value r.headers }

unfoldable pub set_status : ℕ → Response → Response
set_status n r = record r { status = n }

-- The loop over the headers.
unfoldable pub header_lines : List (List ℕ × List ℕ) → List ℕ
header_lines [] = []
header_lines ((k, v) ∷ rest) = k ++ (colon ++ (v ++ (crlf ++ header_lines rest)))

-- BuildHeader of RtspResponse; a status has ten digits at most.
unfoldable pub build_header : Response → List ℕ
unfolding header_lines
build_header r =
    codes "RTSP/1.0"
    ++ (space
        ++ (decimal 10 r.status
            ++ (space ++ (codes "OK" ++ (crlf ++ (header_lines r.headers ++ crlf))))))

-- BuildHeader of HttpResponse, which does not use the status.
unfoldable pub build_http_header : Response → List ℕ
unfolding header_lines
build_http_header r =
    codes "HTTP/1.1 200 OK"
    ++ (crlf
        ++ (codes "Cache-Control: no-cache"
            ++ (crlf
                ++ (codes "Content-Type: video/x-flv"
                    ++ (crlf
                        ++ (codes "Connection: Keep-Alive"
                            ++ (crlf
                                ++ (codes "Expires: -1"
                                    ++ (crlf ++ (header_lines r.headers ++ crlf))))))))))
