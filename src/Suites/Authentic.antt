-- ===== src/Suites/Authentic.antt =====
-- What a compact JWS that verifies has been checked for.
use mpas.Prelude.{
  ℕ, ◌≡◌, refl, String, Bool, true, false, ◌&&◌, Option, some, none, List, [], ◌∷◌, and_iff,
}
use mpas.Prelude.Text.{split}
use mpas.Prelude.Result.{Result, ok, err, ◌>>=◌, bind-ok_iff, given}
use mpas.Mpas.Fields.{field, is_record, is_text}
use mpas.StrictJson.{strict_json_parse}
use mpas.Suites.{
  Crypto, need, guard, caught, SignatureSuite, jws_algorithm, Jwk, decode_base64url,
  validate_public_jwk, validate_signature_encoding, header_fits, verify_parts,
  verify_suite_compact_jws,
}

need-ok : {A : Type 0} (o : Option A) (a : A) → need o ≡ ok a → o ≡ some a
need-ok none a h = cc
need-ok (some x) a h = cc

caught-ok : {E A : Type 0} (m : Result E A) (a : A) → caught m ≡ ok a → m ≡ ok a
caught-ok (ok x) a h = cc
caught-ok (err e) a h = cc

guard-ok : (b : Bool) → guard b ≡ ok tt → b ≡ true
guard-ok true h = refl
guard-ok false h = cc

module _ (crypto : Crypto) where
  -- Three parts; the protected header is JSON without repeated names that names the algorithm of
  -- the key's own suite and the expected key; the signature has the form of that suite; and the
  -- library accepts it with that algorithm alone.
  pub record IsAuthentic (jws : String) (key : Jwk crypto) (kid : String) (payload : List ℕ)
      : Type 0 where
    pub suite : SignatureSuite
    pub key_valid : validate_public_jwk crypto key (some "verify") ≡ ok suite
    pub protected : String
    pub middle : String
    pub signature : String
    pub three_parts : split b'.' jws ≡ protected ∷ middle ∷ signature ∷ []
    pub header_bytes : List ℕ
    pub header_decoded : decode_base64url crypto false protected ≡ ok header_bytes
    pub header : Jwk crypto
    pub header_parsed : strict_json_parse crypto.js (crypto.utf8 header_bytes) ≡ ok header
    pub same_algorithm : is_text (jws_algorithm suite) (field "alg" header) ≡ true
    pub same_key : is_text kid (field "kid" header) ≡ true
    pub signature_bytes : List ℕ
    pub signature_decoded : decode_base64url crypto false signature ≡ ok signature_bytes
    pub signature_formed : validate_signature_encoding suite signature_bytes ≡ ok tt
    pub accepted : crypto.compact_verify jws key (jws_algorithm suite) ≡ some payload

  fits_parts :
      (suite : SignatureSuite) (kid : String) (header : Jwk crypto)
      → header_fits crypto suite kid header ≡ true
      → (is_text (jws_algorithm suite) (field "alg" header) ≡ true)
        × (is_text kid (field "kid" header) ≡ true)
  unfolding header_fits
  fits_parts suite kid header h =
      let object = is_record (some header) in
      let algorithm = is_text (jws_algorithm suite) (field "alg" header) in
      let key = is_text kid (field "kid" header) in
      let (h, _) = (and_iff (object && algorithm && key) _).0 h in
      let (h, same_key) = (and_iff (object && algorithm) key).0 h in
      (((and_iff object algorithm).0 h).1, same_key)

  -- What the checks on the parts of a JWS have established.
  record PartsChecked (suite : SignatureSuite) (kid : String) (parts : List String) : Type 0 where
    pub protected : String
    pub middle : String
    pub signature : String
    pub three_parts : parts ≡ protected ∷ middle ∷ signature ∷ []
    pub header_bytes : List ℕ
    pub header_decoded : decode_base64url crypto false protected ≡ ok header_bytes
    pub header : Jwk crypto
    pub header_parsed : strict_json_parse crypto.js (crypto.utf8 header_bytes) ≡ ok header
    pub fits : header_fits crypto suite kid header ≡ true
    pub signature_bytes : List ℕ
    pub signature_decoded : decode_base64url crypto false signature ≡ ok signature_bytes
    pub signature_formed : validate_signature_encoding suite signature_bytes ≡ ok tt

  parts_checked :
      (suite : SignatureSuite) (kid : String) (parts : List String)
      → verify_parts crypto suite kid parts ≡ ok tt
      → PartsChecked suite kid parts
  unfolding verify_parts
  parts_checked suite kid [] h = cc
  parts_checked suite kid (p ∷ []) h = cc
  parts_checked suite kid (p ∷ m ∷ []) h = cc
  parts_checked suite kid (p ∷ m ∷ s ∷ t ∷ more) h = cc
  parts_checked suite kid (p ∷ m ∷ s ∷ []) h =
      given ((bind-ok_iff (decode_base64url crypto false p) _ _).0 h) (λ (bytes, h1, h).
        given ((bind-ok_iff (caught (strict_json_parse crypto.js (crypto.utf8 bytes))) _ _).0 h)
          (λ (header, h2, h).
            given ((bind-ok_iff (guard (header_fits crypto suite kid header)) _ _).0 h)
              (λ (u, h3, h).
                given ((bind-ok_iff (decode_base64url crypto true m >>= λ _. ok tt) _ _).0 h)
                  (λ (u, h4, h).
                    given ((bind-ok_iff (decode_base64url crypto false s) _ _).0 h)
                      (λ (signature, h5, h). record {
                        protected = p;
                        middle = m;
                        signature = s;
                        three_parts = refl;
                        header_bytes = bytes;
                        header_decoded = h1;
                        header = header;
                        header_parsed = caught-ok _ _ h2;
                        fits = guard-ok _ h3;
                        signature_bytes = signature;
                        signature_decoded = h5;
                        signature_formed = h;
                      })))))

  -- A compact JWS that verifies has three parts; its protected header is JSON that names the
  -- algorithm of the key's own suite and the expected key; its signature has the form of that
  -- suite; and the library accepted it with that algorithm alone, with the payload returned.
  pub verify_suite_compact_jws-IsAuthentic :
      (jws : String) (key : Jwk crypto) (kid : String) (payload : List ℕ)
      → verify_suite_compact_jws crypto jws key kid ≡ ok payload
      → IsAuthentic jws key kid payload
  unfolding verify_suite_compact_jws
  verify_suite_compact_jws-IsAuthentic jws key kid payload h =
      given ((bind-ok_iff (validate_public_jwk crypto key (some "verify")) _ _).0 h)
        (λ (suite, h1, h).
          given ((bind-ok_iff (verify_parts crypto suite kid (split b'.' jws)) _ _).0 h)
            (λ (u, h2, h). given (parts_checked suite kid (split b'.' jws) h2) (λ parts.
              given (fits_parts suite kid parts.header parts.fits) (λ (same_algorithm, same_key).
                record {
                  suite = suite;
                  key_valid = h1;
                  protected = parts.protected;
                  middle = parts.middle;
                  signature = parts.signature;
                  three_parts = parts.three_parts;
                  header_bytes = parts.header_bytes;
                  header_decoded = parts.header_decoded;
                  header = parts.header;
                  header_parsed = parts.header_parsed;
                  same_algorithm = same_algorithm;
                  same_key = same_key;
                  signature_bytes = parts.signature_bytes;
                  signature_decoded = parts.signature_decoded;
                  signature_formed = parts.signature_formed;
                  accepted = need-ok _ payload h;
                }))))
