-- ===== src/Schema/Platform.antt =====
-- What the kernel calls and does not implement: zod's string checks, the hash of node:crypto, the
-- dates and the JSON of the JavaScript engine.
use navis.Base.{ℕ, String, Bool, Option, List, ℤ}

pub record Platform : Type 0 where
  -- `z.iso.datetime({ precision: 3 })` accepts the text
  pub instant : String → Bool
  -- `z.string().min(lo).max(hi)` accepts the text
  pub text_between : ℕ → ℕ → String → Bool
  -- `Date.parse`, in milliseconds; `none` is NaN
  pub date_parse : String → Option ℤ
  -- `createHash('sha256').update(text, 'utf8').digest('hex')`
  pub sha256_hex : String → String
  -- the UTF-8 length of `JSON.stringify` of a list of texts
  pub encoded_length : List String → ℕ
