-- ===== src/Jackett/ReleaseTags.antt =====
-- backend/src/jackett.rs, `is_release_tag`: the words of a release name behind the title.
use peanut_butter.Prelude.{Bool, List, [], ◌∷◌, ◌&&◌, ◌||◌, ◌-◌, leb, all, length, take}
use peanut_butter.Text.{Text, codes, utf8, len, ends_with, member, is_ascii_digit}

abbrev pub release_tags : List Text
release_tags =
    codes "4k"
    ∷ codes "8k"
    ∷ codes "uhd"
    ∷ codes "hd"
    ∷ codes "fhd"
    ∷ codes "hdr"
    ∷ codes "hdr10"
    ∷ codes "dv"
    ∷ codes "dovi"
    ∷ codes "sdr"
    ∷ codes "3d"
    ∷ codes "web"
    ∷ codes "webrip"
    ∷ codes "webdl"
    ∷ codes "dl"
    ∷ codes "bluray"
    ∷ codes "blu"
    ∷ codes "brrip"
    ∷ codes "bdrip"
    ∷ codes "bdremux"
    ∷ codes "remux"
    ∷ codes "hdrip"
    ∷ codes "dvdrip"
    ∷ codes "dvd"
    ∷ codes "hdtv"
    ∷ codes "hdcam"
    ∷ codes "x264"
    ∷ codes "x265"
    ∷ codes "h264"
    ∷ codes "h265"
    ∷ codes "hevc"
    ∷ codes "avc"
    ∷ codes "av1"
    ∷ codes "10bit"
    ∷ codes "8bit"
    ∷ codes "aac"
    ∷ codes "ac3"
    ∷ codes "dts"
    ∷ codes "ddp"
    ∷ codes "dd"
    ∷ codes "atmos"
    ∷ codes "truehd"
    ∷ codes "proper"
    ∷ codes "repack"
    ∷ codes "extended"
    ∷ codes "unrated"
    ∷ codes "imax"
    ∷ codes "remastered"
    ∷ codes "multi"
    ∷ codes "dual"
    ∷ codes "dubbed"
    ∷ codes "subbed"
    ∷ codes "yts"
    ∷ codes "yify"
    ∷ codes "rarbg"
    ∷ codes "internal"
    ∷ codes "limited"
    ∷ codes "nf"
    ∷ codes "amzn"
    ∷ codes "dsnp"
    ∷ codes "hulu"
    ∷ codes "atvp"
    ∷ codes "hmax"
    ∷ []

-- A number of lines and `p`, or one of the words.
unfoldable pub is_release_tag : Text → Bool
unfolding len utf8 ends_with member is_ascii_digit
is_release_tag tok =
    leb 4 (len tok)
      && ends_with tok (codes "p")
      && all is_ascii_digit (utf8 (take (length tok - 1) tok))
    || member release_tags tok
