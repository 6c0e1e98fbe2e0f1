-- ===== src/Buffer/Vp8/Descriptor.antt =====
-- The payload descriptor of RFC 7741, 4.2, written out, and the fields that it stands for.
use rsfu.Prelude.{
  ℕ, ◌+◌, ◌*◌, ◌/◌, ◌%◌, ◌^◌, ◌<◌, Bool, true, false, ◌&&◌, ◌||◌, Option, none, some, List, [], ◌∷◌,
  ◌++◌, ◌==◌, length,
}
use rsfu.Buffer.Vp8.{Vp8, default}

-- A picture number of 7 or of 15 bits.
pub data Picture : Type 0 where
  no_picture : Picture
  short_picture long_picture : ℕ → Picture

-- An extended descriptor. The numbers without a meaning for `unmarshal` are what stands in the rest
-- of the bytes: reserved bits, the partition, `KEYIDX`.
pub record Descriptor : Type 0 where
  pub reserved : ℕ
  pub start : Bool
  pub partition : ℕ
  pub picture : Picture
  pub tl0 : Option ℕ
  pub t_bit : Bool
  pub k_bit : Bool
  pub rsv : ℕ
  pub tid : ℕ
  pub key_idx : ℕ

abbrev pub bit : Bool → ℕ
bit true = 1
bit false = 0

abbrev pub has_picture : Picture → Bool
has_picture no_picture = false
has_picture _ = true

abbrev pub has_tl0 : Option ℕ → Bool
has_tl0 none = false
has_tl0 (some _) = true

abbrev pub picture_bytes : Picture → List ℕ
picture_bytes no_picture = []
picture_bytes (short_picture p) = p ∷ []
picture_bytes (long_picture p) = (128 + p / 256) ∷ (p % 256) ∷ []

abbrev pub tl0_bytes : Option ℕ → List ℕ
tl0_bytes none = []
tl0_bytes (some b) = b ∷ []

abbrev pub tid_bytes : Bool → ℕ → ℕ → List ℕ
tid_bytes false tid key_idx = []
tid_bytes true tid key_idx = (tid * 64 + key_idx) ∷ []

abbrev pub first : Descriptor → ℕ
first d = 128 + d.reserved * 32 + bit d.start * 16 + d.partition

abbrev pub flags : Descriptor → ℕ
flags d =
    bit (has_picture d.picture) * 128
    + bit (has_tl0 d.tl0) * 64
    + bit d.t_bit * 32
    + bit d.k_bit * 16
    + d.rsv

abbrev pub encode : Descriptor → List ℕ → List ℕ
encode d rest =
    first d ∷ flags d ∷ picture_bytes d.picture
    ++ (tl0_bytes d.tl0 ++ (tid_bytes (d.t_bit || d.k_bit) d.tid d.key_idx ++ rest))

abbrev pub PictureInRange : Picture → Type 0
PictureInRange no_picture = Unit {0}
PictureInRange (short_picture p) = p < 128
PictureInRange (long_picture p) = p < 2 ^ 15

-- Each number fits its field.
pub record IsDescriptor (d : Descriptor) : Type 0 where
  pub reserved : d.reserved < 4
  pub partition : d.partition < 16
  pub picture : PictureInRange d.picture
  pub rsv : d.rsv < 16
  pub tid : d.tid < 4
  pub key_idx : d.key_idx < 64

-- What `unmarshal` makes of the parts.
abbrev pub with_picture : Vp8 → Picture → Vp8
with_picture v no_picture = v
with_picture v (short_picture p) = record v { picture_id_idx = 2; picture_id = p }
with_picture v (long_picture p) = record v { picture_id_idx = 2; mbit = true; picture_id = p }

abbrev pub with_tl0 : Vp8 → ℕ → Option ℕ → Vp8
with_tl0 v idx none = v
with_tl0 v idx (some b) = record v { tlz_idx = idx; tl0_picture_idx = b }

abbrev pub with_tid : Vp8 → Bool → ℕ → Vp8
with_tid v false tid = v
with_tid v true tid = record v { tid = tid }

-- What `unmarshal` makes of a descriptor and the first byte of the payload behind it, whose lowest
-- bit is 0 in a key frame.
abbrev pub described : Descriptor → ℕ → Vp8
described d frame =
    let v = with_picture (record default { temporal_supported = d.t_bit }) d.picture in
    let w = with_tl0 v (2 + length (picture_bytes d.picture)) d.tl0 in
    record (with_tid w (d.t_bit || d.k_bit) d.tid) { is_key_frame = frame % 2 == 0 && d.start }
