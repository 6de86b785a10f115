-- ===== src/Tests/Rtps.antt =====
-- RTP packets of a short unit and of one that is sent in fragments.
use streamcode.Prelude.{ℕ, List, ◌∷◌}
use streamcode.Memory.{slice}
use streamcode.Rtp.{send_nalu_packet}
use streamcode.Rtp.Packets.{ArePackets, send_nalu_packet-ArePackets}

-- Three thousand bytes behind the first one.
abbrev picture : List ℕ
picture = slice (λ i. i) 0 3000

send_nalu_packet-ArePackets_example :
    ArePackets 65_535 (send_nalu_packet 65_535 40 (101 ∷ picture)).packets
send_nalu_packet-ArePackets_example = send_nalu_packet-ArePackets 65_535 40 (101 ∷ picture)
