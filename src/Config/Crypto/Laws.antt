-- ===== src/Config/Crypto/Laws.antt =====
-- crypto.go: `Decrypt` against `Encrypt`, and what `Decrypt` accepts.
use tcl_script_runner.Prelude.{
  ℕ, ◌+◌, ◌≤◌, ◌≡◌, some, ◌++◌, String, length, take, drop, arith, false, length-append,
  take-append, drop-append, ltb, if◌then◌else◌, append_assoc, le→ltb_false,
}
use mathlib.Core.Path.{subst}
use tcl_script_runner.Prelude.Utf8.{Bytes, AreBytes, AreBytes-append, to_bytes, of_bytes}
use tcl_script_runner.Prelude.Utf8.RoundTrip.{of_bytes-to_bytes, to_bytes-AreBytes}
use tcl_script_runner.Prelude.Base64.{encode, decode}
use tcl_script_runner.Prelude.Base64.RoundTrip.{decode-encode}
use tcl_script_runner.Outcome.{Outcome, ok, err, >>=-eq-ok, wrap-eq-ok}
use tcl_script_runner.Config.Crypto.{
  Primitives, IsLawful, new_gcm, encrypt, decode_blob, open_box, decrypt,
}

module _ (P : Primitives) (L : IsLawful P) where
  new_gcm-total :
      (passphrase : String) (salt : Bytes) → (gcm : P.Aead) × (new_gcm P passphrase salt ≡ ok gcm)
  unfolding new_gcm
  new_gcm-total passphrase salt =
      let (block, e) =
        L.new_cipher-total _ (L.length-pbkdf2_key (to_bytes passphrase) salt 100000 32) in
      let (gcm, f) = L.gcm-total block in (gcm, rw (e, f))

  -- The three parts are cut out of the blob where `Encrypt` joined them.
  module _ (salt nonce ct : Bytes) (hs : length salt ≡ 16) (hn : length nonce ≡ 12) where
    nonce_first : drop 16 (salt ++ nonce ++ ct) ≡ nonce ++ ct
    nonce_first = rw append_assoc (
        subst (λ n. drop n (salt ++ (nonce ++ ct)) ≡ nonce ++ ct) hs
          (drop-append salt (nonce ++ ct)))

    salt_part : take 16 (salt ++ nonce ++ ct) ≡ salt
    salt_part =
        rw append_assoc
          (subst (λ n. take n (salt ++ (nonce ++ ct)) ≡ salt) hs (take-append salt (nonce ++ ct)))

    nonce_part : take 12 (drop 16 (salt ++ nonce ++ ct)) ≡ nonce
    nonce_part =
        rw nonce_first (subst (λ n. take n (nonce ++ ct) ≡ nonce) hn (take-append nonce ct))

    ct_part : drop 28 (salt ++ nonce ++ ct) ≡ ct
    ct_part =
        let e : length (salt ++ nonce) ≡ 28 = omega (arith, length-append salt nonce) in
        subst (λ n. drop n (salt ++ nonce ++ ct) ≡ ct) e (drop-append (salt ++ nonce) ct)

    blob_long : 44 ≤ length ct + 28 → ltb (length (salt ++ nonce ++ ct)) 44 ≡ false
    blob_long h =
        le→ltb_false _ 44
          (omega (arith, length-append (salt ++ nonce) ct, length-append salt nonce))

  decode_blob_lem :
      (encoded : String) {blob : Bytes}
      → decode encoded ≡ some blob
      → decode_blob P encoded ≡ ok blob
  unfolding decode_blob
  decode_blob_lem encoded e = rw (e, decode_blob)

  open_box_lem :
      {gcm : P.Aead} {nonce ct pt : Bytes}
      → P.open_ gcm nonce ct ≡ some pt
      → open_box P gcm nonce ct ≡ ok (of_bytes pt)
  unfolding open_box
  open_box_lem e = rw (e, open_box)

  module _ (salt nonce : Bytes) (plaintext passphrase : String) (gcm : P.Aead)
      (made : new_gcm P passphrase salt ≡ ok gcm) where
    abbrev box : Bytes
    box = P.seal gcm nonce (to_bytes plaintext)

    encrypt_made :
        encrypt P (ok salt) (ok nonce) plaintext passphrase ≡ ok (encode (salt ++ nonce ++ box))
    unfolding encrypt
    encrypt_made = rw made

    decrypt_made :
        length salt ≡ 16
        → length nonce ≡ 12
        → AreBytes salt
        → AreBytes nonce
        → decrypt P (encode (salt ++ nonce ++ box)) passphrase ≡ ok plaintext
    unfolding decrypt
    decrypt_made hs hn bs bn =
        let b =
          AreBytes-append (salt ++ nonce) box (AreBytes-append salt nonce bs bn)
            (L.seal-AreBytes gcm nonce (to_bytes plaintext) (to_bytes-AreBytes plaintext)) in
        let n = L.length-seal gcm nonce (to_bytes plaintext) in
        rw (
          decode_blob_lem _ (decode-encode (salt ++ nonce ++ box) b),
          blob_long salt nonce box hs hn (omega (arith, n)),
          salt_part salt nonce box hs hn,
          made,
          nonce_part salt nonce box hs hn,
          ct_part salt nonce box hs hn,
          open_box_lem (L.open-seal gcm nonce (to_bytes plaintext) hn),
          of_bytes-to_bytes plaintext,
        )

  -- If the ciphers are lawful and the random source gives bytes, as many as asked for, then
  -- Encrypt succeeds, and Decrypt returns the text under the same passphrase.
  pub decrypt-encrypt :
      (salt nonce : Bytes) (plaintext passphrase : String)
      → length salt ≡ 16
      → length nonce ≡ 12
      → AreBytes salt
      → AreBytes nonce
      → (encoded : String) × (encrypt P (ok salt) (ok nonce) plaintext passphrase ≡ ok encoded)
        × (decrypt P encoded passphrase ≡ ok plaintext)
  decrypt-encrypt salt nonce plaintext passphrase hs hn bs bn =
      let (gcm, made) = new_gcm-total passphrase salt in
      (
        encode (salt ++ nonce ++ P.seal gcm nonce (to_bytes plaintext)),
        encrypt_made salt nonce plaintext passphrase gcm made,
        decrypt_made salt nonce plaintext passphrase gcm made hs hn bs bn,
      )

  decode_blob-eq-ok :
      (encoded : String) {blob : Bytes}
      → decode_blob P encoded ≡ ok blob
      → decode encoded ≡ some blob
  unfolding decode_blob
  decode_blob-eq-ok encoded e = ground arith

  open_box-eq-ok :
      (gcm : P.Aead) (nonce ct : Bytes) {text : String}
      → open_box P gcm nonce ct ≡ ok text
      → (pt : Bytes) × (P.open_ gcm nonce ct ≡ some pt) × (of_bytes pt ≡ text)
  unfolding open_box
  open_box-eq-ok gcm nonce ct e = ground arith

  long_enough :
      (n : ℕ) (m : Outcome String) {text : String}
      → (if ltb n 44 then err "crypto: blob too short" else m) ≡ ok text
      → (44 ≤ n) × (m ≡ ok text)
  long_enough n m h = ground arith

  -- With lawful ciphers, a text that Decrypt returns was found in a blob of at least 44 bytes,
  -- whose ciphertext opened under the key for the passphrase and the blob's first 16 bytes, with
  -- the next 12 as the nonce.
  pub decrypt_sound :
      (encoded passphrase text : String)
      → decrypt P encoded passphrase ≡ ok text
      → (blob : Bytes) × (gcm : P.Aead) × (pt : Bytes) × (decode encoded ≡ some blob)
        × (44 ≤ length blob)
        × (new_gcm P passphrase (take 16 blob) ≡ ok gcm)
        × (P.open_ gcm (take 12 (drop 16 blob)) (drop 28 blob) ≡ some pt)
        × (of_bytes pt ≡ text)
  unfolding decrypt
  decrypt_sound encoded passphrase text h =
      let (blob, read, rest) = >>=-eq-ok _ _ h in
      let (long, rest') = long_enough (length blob) _ rest in
      let (gcm, made, opened) = >>=-eq-ok (new_gcm P passphrase (take 16 blob)) _ rest' in
      let (pt, plain, text') = open_box-eq-ok gcm (take 12 (drop 16 blob)) (drop 28 blob) opened in
      (
        blob,
        gcm,
        pt,
        decode_blob-eq-ok encoded (wrap-eq-ok "crypto: base64: " (decode_blob P encoded) read),
        long,
        made,
        plain,
        text',
      )
