-- ===== src/Fiberx/Etag.antt =====
-- fiberx/etag.go: strong tags and the answer to If-None-Match. sha256 is an argument; bytes are
-- numbers below 256, and a header is a text of them.
pub mod Tags
use neokit.Base.{
  List, ℕ, Option, if◌then◌else◌, ◌∷◌, ◌/◌, [], ltb, none, take, ◌%◌, ◌+◌, ◌++◌, some, ◌-◌,
}
use neokit.Text.{Text, join}
use neokit.Fiberx.Concurrency.{etag_matches}

abbrev pub hex_digit : ℕ → ℕ
hex_digit n = if ltb n 10 then b'0' + n else b'a' + (n - 10)

-- hex.EncodeToString
unfoldable pub hex : List ℕ → Text
hex [] = []
hex (b ∷ bs) = hex_digit (b / 16) ∷ hex_digit (b % 16) ∷ hex bs

-- etag
unfoldable pub etag : List ℕ → Text
unfolding hex
etag sum = b'"' ∷ (hex (take 16 sum) ++ b'"' ∷ [])

-- ETagForBytes
unfoldable pub etag_for_bytes : (List ℕ → List ℕ) → List ℕ → Text
etag_for_bytes sha256 content = etag (sha256 content)

-- ETagForKey
unfoldable pub etag_for_key : (List ℕ → List ℕ) → List Text → Text
etag_for_key sha256 parts = etag (sha256 (join (0 ∷ []) parts))

pub record Sent : Type 0 where
  pub status : ℕ
  pub tag : Text
  pub cache_control : Text
  pub content_type : Option Text
  pub body : List ℕ

-- SendWithETag, of the request's If-None-Match.
unfoldable pub send_with_etag : Text → Text → Text → Text → List ℕ → Sent
send_with_etag if_none_match tag cache_control content_type body =
    if etag_matches if_none_match tag
    then record {
      status = 304;
      tag = tag;
      cache_control = cache_control;
      content_type = none;
      body = [];
    }
    else record {
      status = 200;
      tag = tag;
      cache_control = cache_control;
      content_type = some content_type;
      body = body;
    }
