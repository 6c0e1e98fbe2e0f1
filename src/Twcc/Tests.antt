-- ===== src/Twcc/Tests.antt =====
-- A chunk and a report, and the theorems at them.
use rsfu.Prelude.{ℕ, ◌≡◌, ◌/◌, ◌<◌, ◌^◌, refl, [], ◌∷◌}
use rsfu.Prelude.Int.{pos}
use rsfu.Prelude.Bytes.{be16}
use rsfu.Twcc.{
  Responder, RtpExtInfo, new, two_bit, packet_not_received, packet_received_small_delta,
  packet_received_large_delta,
}
use rsfu.Twcc.Build.{write_chunk, sort, collect}
use rsfu.Twcc.Symbols.{symbols_of, write_chunk-symbols_of}
use rsfu.Twcc.Newest.{OnlyNewest, collect-OnlyNewest}

abbrev responder : Responder
responder = record (new 1 2) { chunk = 0; payload = 9 ∷ [] }

write_chunk-symbols_of_example :
    let r' = write_chunk responder two_bit (
      packet_received_large_delta ∷ packet_not_received ∷ packet_received_small_delta
      ∷ packet_received_small_delta ∷ packet_not_received ∷ packet_not_received
      ∷ packet_received_large_delta ∷ []) in
    (w : ℕ) × (r'.payload ≡ 9 ∷ be16 w)
    × (w < 2 ^ 16)
    × (w / 2 ^ 14 ≡ 3)
    × (symbols_of w ≡ 2 ∷ 0 ∷ 1 ∷ 1 ∷ 0 ∷ 0 ∷ 2 ∷ [])
    × (r'.chunk ≡ 0)
write_chunk-symbols_of_example =
    write_chunk-symbols_of responder packet_received_large_delta packet_not_received
      packet_received_small_delta packet_received_small_delta packet_not_received
      packet_not_received packet_received_large_delta refl

abbrev arrived : ℕ → RtpExtInfo
arrived n = record { ext_tsn = n; timestamp = pos 64000 }

-- Packets 11, 12 and 13 came, after a report that ended with 10.
collect-OnlyNewest_example :
    OnlyNewest 13 (collect 10 (sort (arrived 11 ∷ arrived 12 ∷ arrived 13 ∷ []))).1
collect-OnlyNewest_example = collect-OnlyNewest 10 (arrived 11 ∷ arrived 12 ∷ arrived 13 ∷ [])

-- The two that came before the newest are told as lost.
told :
    (collect 10 (sort (arrived 11 ∷ arrived 12 ∷ arrived 13 ∷ []))).1
    ≡ record { ext_tsn = 11; timestamp = pos 0 }
      ∷ record { ext_tsn = 12; timestamp = pos 0 }
      ∷ arrived 13
      ∷ []
unfolding collect sort rsfu.Twcc.Build.insert rsfu.Twcc.Build.missing
told = refl
