-- ===== src/Buffer/H264/Tests.antt =====
-- H.264 payloads, and the theorems at them.
use rsfu.Prelude.{◌≡◌, Bool, some, List, [], ◌∷◌, ok}
use rsfu.Buffer.H264.{is_h264_keyframe}
use rsfu.Buffer.H264.Safety.{is_h264_keyframe-total}
use rsfu.Buffer.H264.Units.{AggregationUnit}

-- A picture parameter set and a sequence parameter set in one packet of type 26.
abbrev sets : List AggregationUnit
sets =
    record { dond = 0; time = 9; header = 0x68; body = 1 ∷ [] }
    ∷ record { dond = 1; time = 300; header = 0x67; body = 2 ∷ 3 ∷ [] }
    ∷ []

-- The length of the unit runs over the end.
is_h264_keyframe-total_example :
    (b : Bool) × (is_h264_keyframe (0x78 ∷ 0 ∷ 9 ∷ 0x67 ∷ []) ≡ some (ok b))
is_h264_keyframe-total_example = is_h264_keyframe-total (0x78 ∷ 0 ∷ 9 ∷ 0x67 ∷ [])
