-- ===== src/Config/Crypto.antt =====
-- internal/config/crypto.go: credentials encrypted at rest.
-- PBKDF2 and AES-GCM are parameters, with what the code relies on in `IsLawful`. Where the code
-- reads random bytes, the outcome of the read is an argument.
pub mod Laws
pub mod Returns
use tcl_script_runner.Prelude.{
  ℕ, ◌+◌, ◌≡◌, ◌≢◌, Bool, Option, none, some, List, [], ◌++◌, String, length, take, drop, ltb,
  if◌then◌else◌,
}
use tcl_script_runner.Prelude.Utf8.{Bytes, AreBytes, to_bytes, of_bytes}
use tcl_script_runner.Prelude.Base64.{encode, decode}
use tcl_script_runner.Outcome.{Outcome, ok, err, hang, wrap, ◌>>=◌}

abbrev pub salt_len : ℕ
salt_len = 16

abbrev pub nonce_len : ℕ
nonce_len = 12

abbrev pub gcm_tag_len : ℕ
gcm_tag_len = 16

abbrev pub key_len : ℕ
key_len = 32

abbrev pub pbkdf2_iter : ℕ
pbkdf2_iter = 100000

abbrev pub min_blob_len : ℕ
min_blob_len = salt_len + nonce_len + gcm_tag_len

-- golang.org/x/crypto/pbkdf2 with SHA-256, and AES in GCM mode. `new_cipher` refuses a key of a
-- wrong length, and `gcm` a cipher of a wrong block size; `open_` is `none` where authentication fails. `corrupt_input` is the text of
-- base64's error.
pub record Primitives : Type 1 where
  pub Block : Type 0
  pub Aead : Type 0
  pub pbkdf2_key : Bytes → Bytes → ℕ → ℕ → Bytes
  pub new_cipher : Bytes → Outcome Block
  pub gcm : Block → Outcome Aead
  pub seal : Aead → Bytes → Bytes → Bytes
  pub open_ : Aead → Bytes → Bytes → Option Bytes
  pub corrupt_input : String → String

-- PBKDF2 gives as many bytes as asked for, AES takes a key of 32 bytes, and GCM its cipher. A box that was sealed
-- opens under its own key and nonce; it is the plaintext and a tag of 16 bytes.
pub record IsLawful (P : Primitives) : Type 0 where
  pub length-pbkdf2_key :
      (password salt : Bytes) (iter n : ℕ) → length (P.pbkdf2_key password salt iter n) ≡ n
  pub new_cipher-total :
      (key : Bytes) → length key ≡ 32 → (block : P.Block) × (P.new_cipher key ≡ ok block)
  pub gcm-total : (block : P.Block) → (aead : P.Aead) × (P.gcm block ≡ ok aead)
  pub open-seal :
      (aead : P.Aead) (nonce plaintext : Bytes)
      → length nonce ≡ 12
      → P.open_ aead nonce (P.seal aead nonce plaintext) ≡ some plaintext
  pub length-seal :
      (aead : P.Aead) (nonce plaintext : Bytes)
      → length (P.seal aead nonce plaintext) ≡ length plaintext + 16
  pub seal-AreBytes :
      (aead : P.Aead) (nonce plaintext : Bytes)
      → AreBytes plaintext
      → AreBytes (P.seal aead nonce plaintext)

-- The set-up of a cipher returns.
pub record SetsUp (P : Primitives) : Type 0 where
  pub keys : (key : Bytes) → P.new_cipher key ≢ hang
  pub blocks : (block : P.Block) → P.gcm block ≢ hang

module _ (P : Primitives) where
  unfoldable pub new_gcm : String → Bytes → Outcome P.Aead
  new_gcm passphrase salt = do
    block ←
        wrap "crypto: cipher: "
          (P.new_cipher (P.pbkdf2_key (to_bytes passphrase) salt pbkdf2_iter key_len))
    wrap "crypto: gcm: " (P.gcm block)

  -- `salt_read` and `nonce_read` are what the two reads of `rand.Reader` gave.
  unfoldable pub encrypt : Outcome Bytes → Outcome Bytes → String → String → Outcome String
  encrypt salt_read nonce_read plaintext passphrase = do
    salt ← wrap "crypto: salt: " salt_read
    gcm ← new_gcm passphrase salt
    nonce ← wrap "crypto: nonce: " nonce_read
    let ct = P.seal gcm nonce (to_bytes plaintext)
    ok (encode (salt ++ nonce ++ ct))

  unfoldable pub decode_blob : String → Outcome Bytes
  decode_blob encoded = elim (decode encoded) [
    | none ↦ err (P.corrupt_input encoded)
    | some blob ↦ ok blob
  ]

  unfoldable pub open_box : P.Aead → Bytes → Bytes → Outcome String
  open_box gcm nonce ct = elim (P.open_ gcm nonce ct) [
    | none ↦ err "crypto: decrypt failed (wrong passphrase or corrupted data)"
    | some pt ↦ ok (of_bytes pt)
  ]

  unfoldable pub decrypt : String → String → Outcome String
  decrypt encoded passphrase = do
    blob ← wrap "crypto: base64: " (decode_blob encoded)
    if ltb (length blob) min_blob_len then err "crypto: blob too short" else do
      let salt = take salt_len blob
      let nonce = take nonce_len (drop salt_len blob)
      let ct = drop (salt_len + nonce_len) blob
      gcm ← new_gcm passphrase salt
      open_box gcm nonce ct
