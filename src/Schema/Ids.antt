-- ===== src/Schema/Ids.antt =====
-- schema/ids.ts, schema/text.ts and the field schemas that several objects share.
use navis.Base.{
  ℕ, zero, suc, String, ◌≡◌, refl, Bool, true, false, not, ◌&&◌, ◌||◌, List, [], ◌∷◌, Option, none,
  some, ◌==◌, nat_eq, leb, all, length, codes, Dict,
}
use navis.Schema.Platform.{Platform}

abbrev pub max_safe_integer : ℕ
max_safe_integer = 9007199254740991

-- `[0-9a-f]`
unfoldable pub is_hex : ℕ → Bool
is_hex c = (leb b'0' c && leb c b'9') || (leb b'a' c && leb c b'f')

-- `[0-9a-f]{n}`, then the rest by `k`
unfoldable pub hex_run : ℕ → (List ℕ → Bool) → List ℕ → Bool
unfolding is_hex
hex_run zero k cs = k cs
hex_run (suc n) k [] = false
hex_run (suc n) k (c ∷ cs) = is_hex c && hex_run n k cs

unfoldable pub hyphen : (List ℕ → Bool) → List ℕ → Bool
hyphen k [] = false
hyphen k (c ∷ cs) = c == b'-' && k cs

unfoldable pub at_end : List ℕ → Bool
at_end [] = true
at_end (c ∷ cs) = false

-- `[14] === '7'` and `[19]` in 8..b, read where the groups begin
unfoldable pub is_version : (List ℕ → Bool) → List ℕ → Bool
is_version k [] = false
is_version k (c ∷ cs) = c == b'7' && k (c ∷ cs)

unfoldable pub is_variant : (List ℕ → Bool) → List ℕ → Bool
is_variant k [] = false
is_variant k (c ∷ cs) = (c == b'8' || c == b'9' || c == b'a' || c == b'b') && k (c ∷ cs)

-- `uuidSchema` accepts the text.
unfoldable pub is_uuid : String → Bool
unfolding hex_run hyphen at_end codes
is_uuid s =
    hex_run 8
      (hyphen (hex_run 4 (hyphen (hex_run 4 (hyphen (hex_run 4 (hyphen (hex_run 12 at_end))))))))
      (codes s)

-- `uuidv7Schema` accepts the text.
unfoldable pub is_uuidv7 : String → Bool
unfolding hex_run hyphen at_end codes is_version is_variant
is_uuidv7 s =
    hex_run 8
      (hyphen (
        hex_run 4 (
          hyphen (
            is_version
              (hex_run 4 (hyphen (is_variant (hex_run 4 (hyphen (hex_run 12 at_end))))))))))
      (codes s)

-- `schema.optional()`
abbrev pub optional {ℓ} : {A : Type ℓ} → (A → Bool) → Option A → Bool
optional p none = true
optional p (some a) = p a

module _ (z : Platform) where
  -- `textSchema`
  abbrev pub is_text : String → Bool
  is_text = z.text_between 1 65536

  -- `acceptance_criteria` of a project or a work
  abbrev pub is_criteria : List String → Bool
  is_criteria cs = leb (length cs) 100 && all is_text cs

  -- `executionRefsSchema`, and `resume_ref` of a checkpoint
  abbrev pub is_refs : Dict String → Bool
  is_refs refs = all (λ p. z.text_between 1 128 p.0 && z.text_between 0 2048 p.1) refs

-- `z.number().int().positive()`
abbrev pub is_count : ℕ → Bool
is_count n = not (n == 0) && leb n max_safe_integer

-- `uuidListSchema`
abbrev pub is_uuidv7_list : List String → Bool
is_uuidv7_list ids = leb (length ids) 100 && all is_uuidv7 ids

abbrev sample_id : String
sample_id = "018f6d2e-5c1a-7b3e-9f00-0123456789ab"

is_uuidv7_test : is_uuidv7 sample_id ≡ true
unfolding is_uuidv7 is_hex
is_uuidv7_test = refl

is_uuidv7_version_test : is_uuidv7 "018f6d2e-5c1a-4b3e-9f00-0123456789ab" ≡ false
unfolding is_uuidv7 is_hex
is_uuidv7_version_test = refl
