-- ===== src/Buffer/Nack.antt =====
-- rsfu/src/buffer/nack.rs: the missing packets of a stream and how often each was asked for.
-- Sequence numbers are the extended ones (`u32`, cycles in the upper half). Arithmetic wraps, as in
-- a release build; a shift by 16 or more is taken modulo 16.
pub mod Queue
pub mod Asking
pub mod Pairs
pub mod Limit
mod Tests
use rsfu.Prelude.{
  ℕ, zero, suc, ◌+◌, ◌-◌, ◌*◌, ◌%◌, ◌^◌, Bool, true, false, Option, none, some, List, [], ◌∷◌, ◌++◌,
  ltb, leb, ◌==◌, if◌then◌else◌, not, ◌||◌, bit_or,
}

abbrev pub max_nack_times : ℕ
max_nack_times = 3

pub record Nack : Type 0 where
  pub seq_number : ℕ
  pub nackd : ℕ

pub record NackQueue : Type 0 where
  pub nacks : List Nack
  pub key_frame_seq_number : ℕ

abbrev pub new : NackQueue
new = record { nacks = []; key_frame_seq_number = 0 }

-- `binary_search_by_key` on a vector that is sorted by its keys, each key once: the place of the
-- key, or the place where it belongs.
pub data Search : Type 0 where
  found absent : ℕ → Search

abbrev pub one_on : Search → Search
one_on (found i) = found (suc i)
one_on (absent i) = absent (suc i)

unfoldable pub search_by_key : List Nack → ℕ → Search
search_by_key [] sn = absent 0
search_by_key (n ∷ ns) sn =
    if n.seq_number == sn
    then found 0
    else if ltb sn n.seq_number
    then absent 0
    else one_on (search_by_key ns sn)

-- `Vec::insert` and `Vec::remove`.
unfoldable pub insert_at : List Nack → ℕ → Nack → List Nack
insert_at ns zero x = x ∷ ns
insert_at [] (suc i) x = x ∷ []
insert_at (n ∷ ns) (suc i) x = n ∷ insert_at ns i x

unfoldable pub remove_at : List Nack → ℕ → List Nack
remove_at [] i = []
remove_at (n ∷ ns) zero = ns
remove_at (n ∷ ns) (suc i) = n ∷ remove_at ns i

abbrev pub nth : List Nack → ℕ → Option Nack
nth [] i = none
nth (n ∷ ns) zero = some n
nth (n ∷ ns) (suc i) = nth ns i

unfoldable pub push : NackQueue → ℕ → NackQueue
push q sn = elim (search_by_key q.nacks sn) [
  | found _ ↦ q
  | absent i ↦ record q { nacks = insert_at q.nacks i (record { seq_number = sn; nackd = 0 }) }
]

unfoldable pub remove : NackQueue → ℕ → NackQueue × Option Nack
remove q sn = elim (search_by_key q.nacks sn) [
  | found i ↦ (record q { nacks = remove_at q.nacks i }, nth q.nacks i)
  | absent _ ↦ (q, none)
]

-- `NackPair` of the rtcp crate: a packet and a mask of the 16 that follow it.
pub record NackPair : Type 0 where
  pub packet_id : ℕ
  pub lost_packets : ℕ

-- The pair that `pairs` is filling, and those it has finished.
pub record Packing : Type 0 where
  pub np : NackPair
  pub nps : List NackPair

abbrev pub no_pair : NackPair
no_pair = record { packet_id = 0; lost_packets = 0 }

unfoldable pub flush : Packing → List NackPair
flush p = if not (p.np.packet_id == 0) then p.nps ++ p.np ∷ [] else p.nps

-- The end of the loop's body, for a packet that is asked for; `sn` is its number `as u16`.
unfoldable pub pack : Packing → ℕ → Packing
unfolding flush
pack p sn =
    if p.np.packet_id == 0 || ltb ((p.np.packet_id + 16) % 2 ^ 16) sn
    then record { np = record { packet_id = sn; lost_packets = 0 }; nps = flush p }
    else (let shift = (sn + 2 * 2 ^ 16 - p.np.packet_id - 1) % 2 ^ 16 in
        record p {
          np = record {
            packet_id = p.np.packet_id;
            lost_packets = bit_or p.np.lost_packets (2 ^ (shift % 16));
          };
        })

-- What the loop over `self.nacks` has by the time it reaches an entry.
pub record Scan : Type 0 where
  pub kept : List Nack
  pub key_frame : ℕ
  pub ask_key_frame : Bool
  pub packing : Packing

-- The loop's body: an entry that was asked for often enough is dropped, one that is too near to the
-- head is kept for later, and any other is counted and packed.
unfoldable pub visit : ℕ → Scan → Nack → Scan
visit head s v =
    if leb max_nack_times v.nackd
    then (if ltb s.key_frame v.seq_number
        then record s { key_frame = v.seq_number; ask_key_frame = true }
        else s)
    else if leb ((head + 2 ^ 32 - 2) % 2 ^ 32) v.seq_number
    then record s { kept = s.kept ++ v ∷ [] }
    else record s {
      kept = s.kept ++ record v { nackd = v.nackd + 1 } ∷ [];
      packing = pack s.packing (v.seq_number % 2 ^ 16);
    }

unfoldable pub scan : ℕ → Scan → List Nack → Scan
scan head s [] = s
scan head s (v ∷ vs) = scan head (visit head s v) vs

abbrev pub is_empty : List Nack → Bool
is_empty [] = true
is_empty (_ ∷ _) = false

abbrev pub start : NackQueue → Scan
start q = record {
  kept = [];
  key_frame = q.key_frame_seq_number;
  ask_key_frame = false;
  packing = record { np = no_pair; nps = [] };
}

unfoldable pub pairs : NackQueue → ℕ → NackQueue × Option (List NackPair) × Bool
unfolding flush
pairs q head =
    if is_empty q.nacks
    then (q, none, false)
    else (let s = scan head (start q) q.nacks in
        (
          record { nacks = s.kept; key_frame_seq_number = s.key_frame },
          some (flush s.packing),
          s.ask_key_frame,
        ))
