-- ===== src/Buffer/H264/Units.antt =====
-- Aggregation packets (RFC 6184, 5.7) written out: the loop finds a sequence parameter set exactly
-- where one of the units is one.
use rsfu.Prelude.{
  ℕ, ◌/◌, ◌%◌, ◌<◌, Bool, true, false, List, [], ◌∷◌, ◌++◌, ◌==◌, if◌then◌else◌, length, bit_and,
}
use rsfu.Prelude.Bytes.{be16}
use rsfu.Buffer.H264.Pieces.{Piece}

-- The four types of aggregation packets, with their numbers.
pub data AggregationType : Type 0 where
  stap_a stap_b mtap16 mtap24 : AggregationType

abbrev pub number : AggregationType → ℕ
number stap_a = 24
number stap_b = 25
number mtap16 = 26
number mtap24 = 27

-- A unit: its decoding order difference and its time, which only the types for several times write,
-- its header and what comes behind.
pub record AggregationUnit : Type 0 where
  pub dond : ℕ
  pub time : ℕ
  pub header : ℕ
  pub body : List ℕ

-- One byte of order and two or three of time, each before the header.
abbrev pub stamp : AggregationType → AggregationUnit → List ℕ
stamp stap_a u = []
stamp stap_b u = []
stamp mtap16 u = u.dond % 256 ∷ be16 u.time
stamp mtap24 u = u.dond % 256 ∷ u.time / 65536 % 256 ∷ be16 u.time

abbrev pub unit_bytes : AggregationType → AggregationUnit → List ℕ
unit_bytes kind u = stamp kind u ++ u.header ∷ u.body

abbrev pub AreShort : AggregationType → List AggregationUnit → Type 0
AreShort kind [] = Unit {0}
AreShort kind (u ∷ us) = (length (unit_bytes kind u) < 65536) × AreShort kind us

-- Each unit after its length.
abbrev pub encode_units : AggregationType → List AggregationUnit → List ℕ
encode_units kind [] = []
encode_units kind (u ∷ us) =
    be16 (length (unit_bytes kind u)) ++ (unit_bytes kind u ++ encode_units kind us)

-- All types but the first put a decoding order number before the units.
abbrev pub order_number : AggregationType → ℕ → List ℕ
order_number stap_a don = []
order_number stap_b don = be16 don
order_number mtap16 don = be16 don
order_number mtap24 don = be16 don

abbrev pub aggregation : AggregationType → ℕ → ℕ → List AggregationUnit → List ℕ
aggregation kind header don us = header ∷ (order_number kind don ++ encode_units kind us)

-- Type 7 is a sequence parameter set.
abbrev pub any_key : List AggregationUnit → Bool
any_key [] = false
any_key (u ∷ us) = if bit_and u.header 0x1f == 7 then true else any_key us

abbrev pieces : AggregationType → List AggregationUnit → List Piece
pieces kind [] = []
pieces kind (u ∷ us) = record { bytes = unit_bytes kind u; header = u.header } ∷ pieces kind us
