-- ===== src/Sfu/Subscriber/Reports.antt =====
-- rsfu/src/sfu/subscriber.rs: one round of `down_track_reports`, and what
-- `send_stream_down_track_reports` sends.
use rsfu.Prelude.{
  ℕ, zero, suc, ◌+◌, ◌-◌, ◌*◌, ◌≤◌, true, false, not, Option, none, some, List, [], ◌∷◌, ◌++◌,
  String, ltb, if◌then◌else◌, take, drop, length, replicate, ◌≡◌, refl, arith, Bool-cases, inl, inr,
  take_all, length-drop, sym, ap, ◌∙◌,
}
use rsfu.Prelude.Bytes.{drop-add}
use rsfu.Prelude.Maps.{lookup, text_key}
use rsfu.Sfu.DownTrack.{DownTrack}
use rsfu.Sfu.DownTrack.Layers.{SenderReport, create_sender_report}
use rsfu.Sfu.Subscriber.{Subscriber, all_tracks, or_empty}

-- A chunk of a source description: its source and the text of its one item, a canonical name.
pub record SourceDescriptionChunk : Type 0 where
  pub source : ℕ
  pub cname : String

pub data Report : Type 0 where
  sender_report : SenderReport → Report
  source_description : List SourceDescriptionChunk → Report

-- What the reports of a track are made from: the receiver's time for its layer, the clock, and the id
-- that the transceiver has.
pub record Observed : Type 0 where
  pub sr_rtp : ℕ
  pub now_ntp : ℕ
  pub mid : String

-- rsfu/src/sfu/down_track.rs
unfoldable pub create_source_description_chunks :
    DownTrack → Observed → Option (List SourceDescriptionChunk)
create_source_description_chunks d o =
    let t = d.down_track_local in
    if not t.bound
    then none
    else some (
        record { source = t.ssrc; cname = t.stream_id }
        ∷ record { source = t.ssrc; cname = o.mid }
        ∷ [])

abbrev pub reports_of : Option SenderReport → List Report
reports_of none = []
reports_of (some sr) = sender_report sr ∷ []

abbrev pub chunks_of : Option (List SourceDescriptionChunk) → List SourceDescriptionChunk
chunks_of none = []
chunks_of (some sd) = sd

module _ (observe : DownTrack → Observed) where
  -- The loop over the tracks: the reports and the chunks. A track that is bound is passed over.
  unfoldable pub collect : List DownTrack → List Report × List SourceDescriptionChunk
  collect [] = ([], [])
  collect (d ∷ ds) =
      let o = observe d in
      let (rtcp_packets, sds) = collect ds in
      if d.down_track_local.bound then (rtcp_packets, sds) else (
        reports_of (create_sender_report d o.sr_rtp o.now_ntp) ++ rtcp_packets,
        chunks_of (create_source_description_chunks d o) ++ sds,
      )

-- `sds[start..end]`, which is in range here.
abbrev pub part : List SourceDescriptionChunk → ℕ → ℕ → List SourceDescriptionChunk
part sds start end = take (end - start) (drop start sds)

-- The loop `while i < sds.len()`: each write of RTCP packets that it makes. `none` is a loop that goes on
-- after `fuel` rounds.
unfoldable pub write_chunks :
    List SourceDescriptionChunk → ℕ → ℕ → ℕ → List Report → Option (List (List Report))
write_chunks sds zero i j rtcp_packets = if ltb i (length sds) then none else some []
write_chunks sds (suc fuel) i j rtcp_packets =
    let next = (j + 1) * 15 in
    let i' = if ltb (length sds) next then length sds else next in
    let rest = write_chunks sds fuel i' (j + 1) [] in
    if ltb i (length sds)
    then (elim rest [
      | none ↦ none
      | some writes ↦
          some ((rtcp_packets ++ source_description (part sds (j * 15) i') ∷ []) ∷ writes)
    ])
    else some []

unfoldable pub down_track_reports :
    (DownTrack → Observed) → Subscriber → ℕ → Option (List (List Report))
down_track_reports observe s fuel =
    let (rtcp_packets, sds) = collect observe (all_tracks s.tracks) in
    write_chunks sds fuel 0 0 rtcp_packets

-- The chunks of the tracks that are bound.
unfoldable pub bound_chunks : (DownTrack → Observed) → List DownTrack → List SourceDescriptionChunk
bound_chunks observe [] = []
bound_chunks observe (d ∷ ds) =
    let rest = bound_chunks observe ds in
    if not d.down_track_local.bound
    then rest
    else chunks_of (create_source_description_chunks d (observe d)) ++ rest

-- The same packet is written seven times, each time after a pause.
unfoldable pub send_stream_down_track_reports :
    (DownTrack → Observed) → Subscriber → String → List (List Report)
send_stream_down_track_reports observe s stream_id =
    let sds = bound_chunks observe (or_empty (lookup s.tracks stream_id)) in
    if ltb 0 (length sds) then replicate 7 (source_description sds ∷ []) else []

-- An independent description: the chunks by fifteen.
unfoldable pub by_fifteen : ℕ → List SourceDescriptionChunk → List (List Report)
by_fifteen zero sds = []
by_fifteen (suc n) sds =
    if ltb 0 (length sds)
    then (source_description (take 15 sds) ∷ []) ∷ by_fifteen n (drop 15 sds)
    else []

-- The index at which the `j`th round begins.
abbrev pub start : List SourceDescriptionChunk → ℕ → ℕ
start sds j = if ltb (length sds) (j * 15) then length sds else j * 15

part_lem :
    (sds : List SourceDescriptionChunk) (j : ℕ)
    → part sds (j * 15) (start sds (j + 1)) ≡ take 15 (drop (j * 15) sds)
part_lem sds j =
    let rest : length (drop (j * 15) sds) ≡ length sds - j * 15 = length-drop (j * 15) sds in
    elim (Bool-cases (ltb (length sds) ((j + 1) * 15))) [
      | inl short ↦
          let few : length sds - j * 15 ≤ 15 = ground arith in
          rw short (
            take_all (length sds - j * 15) (drop (j * 15) sds) (omega (arith, rest))
            ∙ sym (take_all 15 (drop (j * 15) sds) (omega (arith, rest, few))))
      | inr long ↦ let full : (j + 1) * 15 - j * 15 ≡ 15 = omega arith in rw (long, full) refl
    ]

-- From the `j`th round on, the loop does the same as the description on what is left.
write_chunks-by_fifteen :
    (sds : List SourceDescriptionChunk) (fuel j : ℕ)
    → length sds ≤ (j + fuel) * 15
    → write_chunks sds fuel (start sds j) j [] ≡ some (by_fifteen fuel (drop (j * 15) sds))
unfolding write_chunks by_fifteen
write_chunks-by_fifteen sds zero j h = ground arith
write_chunks-by_fifteen sds (suc fuel) j h =
    let rest : length (drop (j * 15) sds) ≡ length sds - j * 15 = length-drop (j * 15) sds in
    let rounds = write_chunks-by_fifteen sds fuel (j + 1) (omega arith) in
    elim (Bool-cases (ltb (j * 15) (length sds))) [
      | inl more ↦
          let here : start sds j ≡ j * 15 = ground arith in
          let left : ltb 0 (length (drop (j * 15) sds)) ≡ true = ground (arith, rest) in
          let sum : (j + 1) * 15 ≡ j * 15 + 15 = omega arith in
          let next : drop ((j + 1) * 15) sds ≡ drop 15 (drop (j * 15) sds) =
            ap (λ n. drop n sds) sum ∙ drop-add (j * 15) 15 sds in
          rw (here, more, left, rounds, part_lem sds j, next) refl
      | inr none_left ↦
          let here : ltb (start sds j) (length sds) ≡ false = ground arith in
          let left : ltb 0 (length (drop (j * 15) sds)) ≡ false = ground (arith, rest) in
          rw (here, left) refl
    ]

-- The packets that are there before the loop go with its first write.
abbrev pub with_first : List Report → List (List Report) → List (List Report)
with_first rtcp_packets [] = []
with_first rtcp_packets (w ∷ ws) = (rtcp_packets ++ w) ∷ ws

-- Whatever chunks and whatever sender reports there are: with a round for every fifteen chunks the loop
-- comes to its end. It writes the chunks by fifteen, in their order, and the sender reports with the
-- first fifteen; with no chunks it writes nothing, the sender reports neither.
pub write_chunks-with_first :
    (sds : List SourceDescriptionChunk) (rtcp_packets : List Report) (fuel : ℕ)
    → length sds ≤ fuel * 15
    → write_chunks sds fuel 0 0 rtcp_packets ≡ some (with_first rtcp_packets (by_fifteen fuel sds))
unfolding write_chunks by_fifteen
write_chunks-with_first [] rtcp_packets zero h = refl
write_chunks-with_first (c ∷ sds) rtcp_packets zero h = absurd (omega arith)
write_chunks-with_first [] rtcp_packets (suc fuel) h = refl
write_chunks-with_first (c ∷ sds) rtcp_packets (suc fuel) h =
    let more : ltb 0 (suc (length sds)) ≡ true = ground arith in
    rw (more, write_chunks-by_fifteen (c ∷ sds) fuel 1 (omega arith), part_lem (c ∷ sds) 0) refl

-- No track has a sender report or a chunk: one that is bound is passed over, and one that is not has
-- none.
collect-empty :
    (observe : DownTrack → Observed) (ds : List DownTrack) → collect observe ds ≡ ([], [])
unfolding collect create_sender_report create_source_description_chunks
collect-empty observe [] = refl
collect-empty observe (d ∷ ds) = elim (Bool-cases d.down_track_local.bound) [
  | inl bound ↦ simp (bound, collect-empty observe ds)
  | inr unbound ↦ simp (unbound, collect-empty observe ds)
]

-- Whatever tracks a subscriber has, bound or not: a round of its reports writes nothing, for any number
-- of rounds of its loop.
pub down_track_reports-collect :
    (observe : DownTrack → Observed) (s : Subscriber) (fuel : ℕ)
    → down_track_reports observe s fuel ≡ some []
unfolding down_track_reports write_chunks
down_track_reports-collect observe s zero = rw (collect-empty observe (all_tracks s.tracks)) refl
down_track_reports-collect observe s (suc fuel) =
    rw (collect-empty observe (all_tracks s.tracks)) refl
