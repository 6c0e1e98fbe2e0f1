-- ===== src/Sfu/Codecs.antt =====
-- rsfu/src/sfu/helpers.rs, `codec_parameters_fuzzy_search`. The parameters of a codec are a type of the
-- webrtc crate: here any type, with the two texts of it that are compared. `none` is
-- `ErrCodecNotFound`.
pub mod Search
mod Tests
use rsfu.Prelude.{Bool, true, false, ◌&&◌, Option, none, some, List, [], ◌∷◌, String, if◌then◌else◌}
use rsfu.Prelude.Texts.{same}

module _ {C : Type 0} (mime_type sdp_fmtp_line : C → String) where
  abbrev pub same_mime : C → C → Bool
  same_mime needle param = same (mime_type param) (mime_type needle)

  abbrev pub same_codec : C → C → Bool
  same_codec needle param =
      same_mime needle param && same (sdp_fmtp_line param) (sdp_fmtp_line needle)

  -- A loop that returns at the first codec that passes a test.
  unfoldable pub first_match : (C → Bool) → List C → Option C
  first_match test [] = none
  first_match test (param ∷ params) =
      let rest = first_match test params in if test param then some param else rest

  unfoldable pub codec_parameters_fuzzy_search : C → List C → Option C
  codec_parameters_fuzzy_search needle hay_stack =
      elim (first_match (same_codec needle) hay_stack) [
        | some param ↦ some param
        | none ↦ first_match (same_mime needle) hay_stack
      ]
