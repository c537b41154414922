-- ===== src/Config/Crypto/Returns.antt =====
-- crypto.go: whether `Decrypt` returns.
use tcl_script_runner.Prelude.{String, ◌≢◌, length, ltb, none, some}
use tcl_script_runner.Prelude.Utf8.{Bytes, of_bytes}
use tcl_script_runner.Prelude.Base64.{decode}
use tcl_script_runner.Outcome.{Outcome, ok, err, hang, wrap-ne-hang, >>=-ne-hang, if-ne-hang}
use tcl_script_runner.Config.Crypto.{
  Primitives, SetsUp, decrypt, decode_blob, new_gcm, open_box, min_blob_len,
}

module _ (P : Primitives) (ciphers : SetsUp P) where
  pub new_gcm_returns : (passphrase : String) (salt : Bytes) → new_gcm P passphrase salt ≢ hang
  unfolding new_gcm
  new_gcm_returns passphrase salt =
      >>=-ne-hang _ _ (wrap-ne-hang _ _ (ciphers.keys _))
        λ block. wrap-ne-hang _ _ (ciphers.blocks block)

  decode_blob_returns : (encoded : String) → decode_blob P encoded ≢ hang
  unfolding decode_blob
  decode_blob_returns encoded =
      elim (decode encoded)
        as (λ o.
          elim o as (λ _. Outcome Bytes) [
            | none ↦ err (P.corrupt_input encoded)
            | some blob ↦ ok blob
          ]
          ≢ hang) [ none ↦ λ h. cc h | some blob ↦ λ h. cc h ]

  open_box_returns : (gcm : P.Aead) (nonce ct : Bytes) → open_box P gcm nonce ct ≢ hang
  unfolding open_box
  open_box_returns gcm nonce ct =
      elim (P.open_ gcm nonce ct)
        as (λ o.
          elim o as (λ _. Outcome String) [
            | none ↦ err "crypto: decrypt failed (wrong passphrase or corrupted data)"
            | some pt ↦ ok (of_bytes pt)
          ]
          ≢ hang) [ none ↦ λ h. cc h | some pt ↦ λ h. cc h ]

  pub decrypt_returns : (encoded passphrase : String) → decrypt P encoded passphrase ≢ hang
  unfolding decrypt
  decrypt_returns encoded passphrase =
      >>=-ne-hang _ _ (wrap-ne-hang _ _ (decode_blob_returns encoded)) λ blob.
        if-ne-hang (ltb (length blob) min_blob_len) _ _ (λ h. cc h)
          (>>=-ne-hang _ _ (new_gcm_returns passphrase _) λ gcm. open_box_returns gcm _ _)
