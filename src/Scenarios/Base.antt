-- ===== src/Scenarios/Base.antt =====
-- The platform and the identifiers of the runs.
use navis.Base.{String, ◌&&◌, ◌==◌, nat_eq, some, leb, length, codes, pos}
use navis.Schema.Platform.{Platform}

abbrev pub plain : Platform
plain = record {
  instant = λ t. length (codes t) == 24;
  text_between = λ lo hi t. leb lo (length (codes t)) && leb (length (codes t)) hi;
  date_parse = λ t. some (pos 0);
  sha256_hex = λ t. "0123456789abcdef0123456789abcdef0123456789abcdef0123456789abcdef";
  encoded_length = λ ts. length ts;
}

abbrev pub now : String
now = "2025-01-01T00:00:00.000Z"

abbrev pub alice : String
alice = "018f6d2e-5c1a-7b3e-9f00-0123456789ab"

abbrev pub project_one : String
project_one = "018f6d2e-5c1a-7b3e-9f00-0123456789ac"

abbrev pub report : String
report = "018f6d2e-5c1a-7b3e-9f00-0123456789ad"

abbrev pub other_id : String
other_id = "018f6d2e-5c1a-7b3e-9f00-0123456789ae"
