-- ===== src/Twcc/Build.antt =====
-- rsfu/src/twcc/twcc.rs, `build_transport_cc_packet`. Of the header of the rtcp crate only the answer of
-- its `marshal_to` for an empty buffer is used.
use rsfu.Prelude.{
  ℕ, zero, suc, ◌+◌, ◌-◌, ◌/◌, ◌%◌, ◌^◌, Bool, true, false, not, ◌&&◌, ◌||◌, List, [], ◌∷◌, ◌++◌,
  ltb, ◌==◌, if◌then◌else◌, length, take, drop,
}
use rsfu.Prelude.Int.{ℤ, pos, negsuc, ◌-ℤ◌, ◌*ℤ◌, ltb_ℤ, pos_part}
use rsfu.Rtp.{sub_u16}
use rsfu.Twcc.{
  Responder, RtpExtInfo, SymbolTypeTcc, packet_not_received, packet_received_small_delta,
  packet_received_large_delta, packet_received_without_delta, SymbolSizeTypeTcc, one_bit, two_bit,
  symbol_as_u16, div_ℤ, is_zero_ℤ, write_header, write_run_length_chunk, create_status_symbol_chunk,
  write_status_symbol_chunk, write_delta,
}

-- `sort_by`, stable, with the largest number first.
unfoldable pub insert : RtpExtInfo → List RtpExtInfo → List RtpExtInfo
insert x [] = x ∷ []
insert x (y ∷ ys) =
    let rest = insert x ys in if ltb x.ext_tsn y.ext_tsn then y ∷ rest else x ∷ y ∷ ys

unfoldable pub sort : List RtpExtInfo → List RtpExtInfo
sort [] = []
sort (x ∷ xs) = insert x (sort xs)

-- The packets with numbers from `from` on, `n` of them, that did not come.
unfoldable pub missing : ℕ → ℕ → List RtpExtInfo
missing zero from = []
missing (suc n) from = record { ext_tsn = from; timestamp = pos 0 } ∷ missing n (from + 1)

-- The last number and the packets of the report.
unfoldable pub collect : ℕ → List RtpExtInfo → ℕ × List RtpExtInfo
collect last [] = (last, [])
collect last (x ∷ xs) =
    let skipped = collect last xs in
    let (last', rest) = collect x.ext_tsn xs in
    if ltb x.ext_tsn last then skipped else (
      last',
      (if last == 0 then [] else missing (x.ext_tsn - (last + 1)) (last + 1)) ++ x ∷ rest,
    )

-- The variables of the loop over the packets.
pub record Loop : Type 0 where
  pub responder : Responder
  pub first_recv : Bool
  pub same : Bool
  pub timestamp : ℤ
  pub last_status : SymbolTypeTcc
  pub max_status : SymbolTypeTcc
  pub status_list : List SymbolTypeTcc

abbrev pub same_symbol : SymbolTypeTcc → SymbolTypeTcc → Bool
same_symbol s t = symbol_as_u16 s == symbol_as_u16 t

abbrev pub larger_symbol : SymbolTypeTcc → SymbolTypeTcc → SymbolTypeTcc
larger_symbol status max_status =
    if ltb (symbol_as_u16 max_status) (symbol_as_u16 status) then status else max_status

unfoldable pub create_all : Responder → SymbolSizeTypeTcc → List SymbolTypeTcc → ℕ → Responder
create_all r size [] i = r
create_all r size (s ∷ ss) i =
    create_all (create_status_symbol_chunk r size (symbol_as_u16 s) i) size ss (i + 1)

abbrev pub write_chunk : Responder → SymbolSizeTypeTcc → List SymbolTypeTcc → Responder
write_chunk r size ss = write_status_symbol_chunk (create_all r size ss 0) size

-- What stays in the list after a chunk was written.
unfoldable pub rescan : Loop → List SymbolTypeTcc → Loop
rescan l [] = l
rescan l (s ∷ ss) =
    rescan
      (record l {
        max_status = larger_symbol s l.max_status;
        same =
            l.same
            && (same_symbol l.last_status packet_received_without_delta
                || same_symbol s l.last_status);
        last_status = s;
      })
      ss

unfoldable pub began : Loop → Responder → List SymbolTypeTcc → Loop
began l r status_list = record l {
  responder = r;
  last_status = packet_received_without_delta;
  max_status = packet_not_received;
  same = true;
  status_list = status_list;
}

-- A run that ends.
unfoldable pub end_run : Loop → SymbolTypeTcc → Loop
end_run l status =
    if l.same
      && (not (same_symbol status l.last_status)
          && not (same_symbol l.last_status packet_received_without_delta))
    then (if ltb 7 (length l.status_list)
        then record l {
          responder =
              write_run_length_chunk l.responder (symbol_as_u16 l.last_status)
                (length l.status_list % 2 ^ 16);
          status_list = [];
          max_status = packet_not_received;
        }
        else record l { same = false })
    else l

-- A chunk that is full.
unfoldable pub flush_full : Loop → Loop
flush_full l =
    let n = length l.status_list in
    if not l.same && (same_symbol l.max_status packet_received_large_delta && ltb 6 n)
    then (let rest = drop 7 l.status_list in
        rescan (began l (write_chunk l.responder two_bit (take 7 l.status_list)) rest) rest)
    else if not l.same && ltb 13 n
    then began l (write_chunk l.responder one_bit (take 14 l.status_list)) (drop 14 l.status_list)
    else l

unfoldable pub note_status : Loop → SymbolTypeTcc → Loop
note_status l status =
    let l = end_run l status in
    flush_full (record l {
      status_list = l.status_list ++ status ∷ [];
      max_status = larger_symbol status l.max_status;
      last_status = status;
    })

abbrev pub low_u32 : ℤ → ℕ
low_u32 (pos n) = n % 2 ^ 32
low_u32 (negsuc n) = 2 ^ 32 - 1 - n % 2 ^ 32

-- `delta as i16`, as its bits; one that does not fit becomes the largest or the smallest, by the sign of
-- what is left of it.
unfoldable pub delta_as_i16 : ℤ → ℕ
delta_as_i16 delta =
    let bits = low_u32 delta % 2 ^ 16 in
    if ltb_ℤ delta (negsuc 32767) || ltb_ℤ (pos 32767) delta
    then (if ltb 0 bits && ltb bits 0x8000 then 0x7fff else 0x8000)
    else bits

-- The header, with the first packet that came.
unfoldable pub begin_report : Loop → ℕ → ℕ → ℤ → Loop
unfolding ◌*ℤ◌
begin_report l first count timestamp =
    if l.first_recv
    then l
    else (let ref_time = div_ℤ timestamp 64000 in
        let r = write_header l.responder (first % 2 ^ 16) (count % 2 ^ 16) (low_u32 ref_time) in
        record l {
          first_recv = true;
          timestamp = ref_time *ℤ pos 64000;
          responder = record r { pkt_ctn = (r.pkt_ctn + 1) % 2 ^ 8 };
        })

unfoldable pub received : Loop → ℤ → Loop × SymbolTypeTcc
unfolding ◌-ℤ◌
received l timestamp =
    let delta = div_ℤ (timestamp -ℤ l.timestamp) 250 in
    if ltb_ℤ delta (pos 0) || ltb_ℤ (pos 255) delta
    then (
      record l {
        responder = write_delta l.responder packet_received_large_delta (delta_as_i16 delta);
        timestamp = timestamp;
      },
      packet_received_large_delta,
    )
    else (
      record l {
        responder = write_delta l.responder packet_received_small_delta (pos_part delta);
        timestamp = timestamp;
      },
      packet_received_small_delta,
    )

-- One round of the loop.
unfoldable pub report_packet : ℕ → ℕ → Loop → RtpExtInfo → Loop
report_packet first count l stat =
    if is_zero_ℤ stat.timestamp
    then note_status l packet_not_received
    else (let (l', status) = received (begin_report l first count stat.timestamp) stat.timestamp in
        note_status l' status)

unfoldable pub report_all : ℕ → ℕ → Loop → List RtpExtInfo → Loop
report_all first count l [] = l
report_all first count l (stat ∷ stats) =
    report_all first count (report_packet first count l stat) stats

-- What is left in the list.
unfoldable pub flush_rest : Loop → Responder
flush_rest l =
    if length l.status_list == 0
    then l.responder
    else if l.same
    then write_run_length_chunk l.responder (symbol_as_u16 l.last_status)
        (length l.status_list % 2 ^ 16)
    else if same_symbol l.max_status packet_received_large_delta
    then write_chunk l.responder two_bit l.status_list
    else write_chunk l.responder one_bit l.status_list

abbrev pub start : Responder → Loop
start r = record {
  responder = r;
  first_recv = false;
  same = true;
  timestamp = pos 0;
  last_status = packet_received_without_delta;
  max_status = packet_not_received;
  status_list = [];
}

abbrev pub first_of : List RtpExtInfo → ℕ
first_of [] = 0
first_of (x ∷ xs) = x.ext_tsn

-- How the call ends: there is nothing to report, `marshal_to` fails, or there are the bytes of a packet.
pub data Built : Type 0 where
  ext_info_empty marshal_failed : Built
  raw_packet : List ℕ → Built

-- `header` is what `marshal_to` makes of the empty buffer.
pub data Marshalled : Type 0 where
  refused : Marshalled
  written : Marshalled

unfoldable pub finish : (ℕ → Marshalled) → Responder → Responder × Built
finish marshal_to r =
    let p_len = r.len + r.delta_len + 4 in
    let pad_size = (4 - p_len % 4) % 4 in
    elim (marshal_to (sub_u16 ((p_len + pad_size) % 2 ^ 16 / 4) 1)) [
      | refused ↦ (r, marshal_failed)
      | written ↦
          (record r { delta_len = 0 }, raw_packet (r.payload ++ (r.deltas ++ pad_size ∷ [])))
    ]

unfoldable pub build_transport_cc_packet : (ℕ → Marshalled) → Responder → Responder × Built
build_transport_cc_packet marshal_to r =
    if length r.ext_info == 0
    then (r, ext_info_empty)
    else (let (last, tcc_pkts) = collect r.last_ext_sn (sort r.ext_info) in
        let r' = record r { last_ext_sn = last; ext_info = [] } in
        finish marshal_to
          (flush_rest (report_all (first_of tcc_pkts) (length tcc_pkts) (start r') tcc_pkts)))
