-- ===== src/Page/Token.antt =====
-- What the codecs are relied on for, and page tokens that survive a round trip.
use clouditor.Prelude.{ℕ, suc, String, ◌≡◌, ◌≢◌, ◌⊎◌, false, List, [], arith, ◌==◌, eq_iff}
use clouditor.Prelude.Int.{ℤ, pos}
use clouditor.Status.{ok, ◌>>=◌}
use clouditor.Page.Defs.{Wire, encode, decode_page_token}

-- The documented behaviour of the codecs: what was written is read back. A token past the first
-- page has a field that is not zero, so its message is not empty, and nor is the text of bytes.
pub record Faithful (w : Wire) : Type 0 where
  pub message : ℕ → ℤ → List ℕ
  pub marshals :
      (start : ℕ) (size : ℤ)
      → w.marshal (record { start = pos (suc start); size = size }) ≡ ok (message start size)
  pub unmarshals :
      (start : ℕ) (size : ℤ)
      → w.unmarshal (message start size) ≡ ok (record { start = pos (suc start); size = size })
  pub message_not_empty : (start : ℕ) (size : ℤ) → message start size ≢ []
  pub decodes : (b : List ℕ) → w.base64_decode (w.base64_encode b) ≡ ok b
  pub text_not_empty : (b : List ℕ) → b ≢ [] → w.base64_encode b ≢ ""

-- A text that a request can carry for the page that starts at `start`.
abbrev pub TokenAt : Wire → ℕ → String → Type 0
TokenAt w start text =
    ((text ≡ "") × (start ≡ 0))
    ⊎ ((size : ℤ) × ((text == "") ≡ false)
        × (decode_page_token w text ≡ ok (record { start = pos start; size = size })))

module _ (w : Wire) (f : Faithful w) (start : ℕ) (size : ℤ) where
  abbrev pub token_text : String
  token_text = w.base64_encode (f.message start size)

  pub encode-token : encode w (record { start = pos (suc start); size = size }) ≡ ok token_text
  unfolding encode
  encode-token = rw (f.marshals start size)

  pub decode-token_text :
      decode_page_token w token_text ≡ ok (record { start = pos (suc start); size = size })
  unfolding decode_page_token
  decode-token_text = rw (f.decodes (f.message start size), f.unmarshals start size)

  -- A token past the first page is decoded from its own text.
  pub decode-encode :
      (encode w (record { start = pos (suc start); size = size }) >>= decode_page_token w)
      ≡ ok (record { start = pos (suc start); size = size })
  decode-encode = rw encode-token decode-token_text

  pub token_text_ne : (token_text == "") ≡ false
  token_text_ne = ground (
    arith,
    eq_iff token_text "",
    f.text_not_empty (f.message start size) (f.message_not_empty start size),
  )
