-- ===== src/Http/Url/Decode/Tests.antt =====
-- Runs of the URL decoder, and its theorems at concrete inputs.
use tube.Common.{ℕ, codes, ◌++◌, ◌==◌, not, ◌≡◌, refl, arith, Bool}
use tube.Http.Url.{url_decode, escape_byte}
use tube.Http.Url.Decode.{url_encode, url_decode-url_encode}

abbrev safe : ℕ → Bool
safe c = not (c == b'%')

decode_spaces : url_decode (codes "/a%20b%2") ≡ codes "/a b%2"
unfolding url_decode escape_byte
decode_spaces = refl

url_decode-url_encode_example :
    url_decode (url_encode safe (codes "50% off") ++ codes "%41")
    ≡ codes "50% off" ++ url_decode (codes "%41")
url_decode-url_encode_example =
    url_decode-url_encode safe (codes "50% off") (codes "%41") refl (omega arith)
