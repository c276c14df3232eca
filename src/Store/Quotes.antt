-- ===== src/Store/Quotes.antt =====
-- `QuoteVerifier.Verify` of quote.go. The decoders, the signature check and the fetch of the key set
-- stand outside the source and are fields of `QuoteVerifier`.
use stream_weave.Prelude.{
  ℕ, String, cat, Bool, false, not, ◌&&◌, Option, none, some, List, [], ◌∷◌, str_eq, ltb, ◌==◌,
  length,
}
use stream_weave.Prelude.Int.{ℤ}
use stream_weave.Text.{trim_space, split_on}
use stream_weave.Orders.Model.{Time}
use stream_weave.Message.{QuoteItem}

pub record SignedQuote : Type 0 where
  pub order_id : String
  pub reservation_id : String
  pub quote_id : String
  pub quote_version : ℤ
  pub currency : String
  pub items : List QuoteItem
  pub quote_expires_at : String

pub record QuoteVerifier : Type 0 where
  pub url : String
  -- time.Parse(time.RFC3339Nano, s)
  pub parse_time : String → Option Time
  -- base64.RawURLEncoding.DecodeString
  pub decode_base64 : String → Option (List ℕ)
  -- json.Unmarshal of the header: its `alg` and `kid`
  pub decode_header : List ℕ → Option (String × String)
  -- base64 of the quote's JSON
  pub encode_quote : SignedQuote → String
  -- the key with an id, from the key set at `url`
  pub key : String → Option (List ℕ)
  -- ed25519.Verify(key, message, signature)
  pub ed25519_verify : List ℕ → String → List ℕ → Bool

-- ed25519.SignatureSize
abbrev pub signature_size : ℕ
signature_size = 64

module _ (v : QuoteVerifier) where
  expires_after : Option Time → Time → Bool
  expires_after none now = false
  expires_after (some t) now = ltb now.nanos t.nanos

  header_ok : Option (List ℕ) → String → Bool
  header_ok none key_id = false
  header_ok (some bytes) key_id = elim (v.decode_header bytes) [
    | none ↦ false
    | some (alg, kid) ↦ str_eq alg "EdDSA" && str_eq kid key_id
  ]

  signed_by : Option (List ℕ) → String → List ℕ → Bool
  signed_by none message signature = false
  signed_by (some key) message signature = v.ed25519_verify key message signature

  signature_ok : Option (List ℕ) → SignedQuote → String → String → Bool
  unfolding signed_by
  signature_ok none quote key_id header = false
  signature_ok (some signature) quote key_id header =
      length signature == signature_size
      && signed_by (v.key key_id) (cat header (cat "." (v.encode_quote quote))) signature

  -- The three parts of a detached JWS, the middle one empty.
  parts_ok : List String → SignedQuote → String → Bool
  unfolding header_ok signature_ok
  parts_ok (header ∷ payload ∷ signature ∷ []) quote key_id =
      str_eq payload ""
      && header_ok (v.decode_base64 header) key_id
      && signature_ok (v.decode_base64 signature) quote key_id header
  parts_ok _ quote key_id = false

  verify_with : SignedQuote → String → String → Time → Bool
  unfolding expires_after parts_ok
  verify_with quote key_id detached_jws now =
      not (str_eq (trim_space v.url) "")
      && not (str_eq key_id "")
      && expires_after (v.parse_time quote.quote_expires_at) now
      && parts_ok (split_on b'.' detached_jws) quote key_id

-- `Verify` on a verifier that may be nil; every failure is the same ErrConflict.
unfoldable pub verify : Option QuoteVerifier → SignedQuote → String → String → Time → Bool
unfolding verify_with
verify none quote key_id detached_jws now = false
verify (some v) quote key_id detached_jws now = verify_with v quote key_id detached_jws now
