-- ===== src/Sfu/Codecs/Tests.antt =====
-- Two codecs, and the search among them.
use rsfu.Prelude.{◌≡◌, refl, some, List, [], ◌∷◌, String}
use rsfu.Prelude.Texts.{same}
use rsfu.Sfu.Codecs.{first_match, codec_parameters_fuzzy_search}

record Codec : Type 0 where
  pub mime_type : String
  pub sdp_fmtp_line : String

abbrev mime : Codec → String
mime c = c.mime_type

abbrev fmtp : Codec → String
fmtp c = c.sdp_fmtp_line

abbrev wanted : Codec
wanted = record { mime_type = "video/H264"; sdp_fmtp_line = "profile-level-id=42e01f" }

abbrev known : List Codec
known =
    record { mime_type = "video/VP8"; sdp_fmtp_line = "" }
    ∷ record { mime_type = "video/H264"; sdp_fmtp_line = "" }
    ∷ []

-- No codec has the parameter line that is wanted, and the second has the MIME type.
search_run :
    codec_parameters_fuzzy_search mime fmtp wanted known
    ≡ some (record { mime_type = "video/H264"; sdp_fmtp_line = "" })
unfolding codec_parameters_fuzzy_search first_match same
search_run = refl
