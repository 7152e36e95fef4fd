-- ===== src/Vmcheck/Frames.antt =====
-- The frames of vmcheck are those of the relay, for the traffic class of the priority.
use mac_homa.Common.{ℕ, ◌*◌, ◌%◌, ◌^◌, ◌<◌, ◌≡◌, List, [], ◌∷◌, length, replicate-add, arith, refl}
use mac_homa.Wire.{ok}
use mac_homa.Wire.Bytes.{put_byte, put_u16, copy_at, copy}
use mac_homa.Wire.Write.{copy-replicate}
use mac_homa.Relay.Checksum.{ip_checksum, sum_words}
use mac_homa.Relay.Packet.{slice, ethernet_packet}
use mac_homa.Relay.Frame.{ip_header, total_of, ethernet_packet-bytes, copy-nil}
use mac_homa.Vmcheck.{sum_pairs, checksum, make_frame}

-- On an even number of bytes the two checksums agree.
sum_pairs-sum_words :
    (b : List ℕ) (sum : ℕ) → length b % 2 ≡ 0 → sum_pairs b sum ≡ ok (sum_words b sum)
unfolding sum_pairs sum_words
sum_pairs-sum_words [] sum h = refl
sum_pairs-sum_words (x ∷ []) sum h = absurd (omega arith)
sum_pairs-sum_words (x ∷ y ∷ b) sum h = sum_pairs-sum_words b _ (omega arith)

-- On a header of an even number of bytes, the checksum of vmcheck does not panic and is the relay's.
pub checksum-ip_checksum : (b : List ℕ) → length b % 2 ≡ 0 → checksum b ≡ ok (ip_checksum b)
unfolding checksum ip_checksum
checksum-ip_checksum b h = rw (sum_pairs-sum_words b 0 h)

-- WritePacket of vmcheck makes the frame that the relay makes for the same Homa bytes, with the
-- priority in the three precedence bits of the traffic class.
pub make_frame-ethernet_packet :
    (p : List ℕ) (priority : ℕ)
    → priority < 8
    → make_frame p priority ≡ ethernet_packet p (priority * 32)
unfolding make_frame put_byte put_u16 copy_at copy slice
make_frame-ethernet_packet p priority h =
    let n = length p in
    let class : priority * 2 ^ 5 % 256 ≡ priority * 32 = omega arith in
    rw
      (
        class,
        ethernet_packet-bytes p (priority * 32),
        replicate-add {A = ℕ} 34 n 0,
        copy-nil,
        copy-replicate p,
      )
      (ground (arith, checksum-ip_checksum (ip_header (total_of p) (priority * 32) 0) refl))
