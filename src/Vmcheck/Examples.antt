-- ===== src/Vmcheck/Examples.antt =====
-- The theorems on vmcheck at work on concrete bytes.
use mac_homa.Common.{◌≡◌, ◌≢◌, [], ◌∷◌, none, arith, replicate, ◌++◌}
use mac_homa.Relay.Packet.{ethernet_packet}
use mac_homa.Vmcheck.{make_frame, read_packet, waits, panics}
use mac_homa.Vmcheck.Frames.{make_frame-ethernet_packet}
use mac_homa.Vmcheck.Ends.{read_packet_ends}

make_frame-ethernet_packet_example :
    make_frame (1 ∷ 2 ∷ 3 ∷ []) 7 ≡ ethernet_packet (1 ∷ 2 ∷ 3 ∷ []) 224
make_frame-ethernet_packet_example = make_frame-ethernet_packet (1 ∷ 2 ∷ 3 ∷ []) 7 (omega arith)

-- A frame of 14 bytes of another protocol, then the end of the stream inside the next length.
read_packet_ends_example :
    ((read_packet (λ reply. none) 1500 (0 ∷ 0 ∷ 0 ∷ 14 ∷ replicate 14 0 ++ (0 ∷ []))).1 ≢ waits)
    × ((read_packet (λ reply. none) 1500 (0 ∷ 0 ∷ 0 ∷ 14 ∷ replicate 14 0 ++ (0 ∷ []))).1 ≢ panics)
read_packet_ends_example =
    read_packet_ends (λ reply. none) 1500 (0 ∷ 0 ∷ 0 ∷ 14 ∷ replicate 14 0 ++ (0 ∷ []))
