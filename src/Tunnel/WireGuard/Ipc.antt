-- ===== src/Tunnel/WireGuard/Ipc.antt =====
-- internal/tunnel/wireguard.go: which lines the text of `buildIPC` has.
use mathlib.Core.Path.{subst}
use Prim.Native.String.append
use text.Mathlib.TextLemmas.{append_assoc}
use tcl_script_runner.Prelude.{
  zero, suc, String, ◌<>◌, ◌==◌, Bool, true, false, Option, none, some, List, [], ◌∷◌, ◌++◌, map,
  ◌≡◌, refl, sym, ap, ◌∙◌, if◌then◌else◌,
}
use tcl_script_runner.Prelude.Int.{ℤ, pos, negsuc, is_positive, show_ℤ}
use tcl_script_runner.Prelude.Text.{trim_space, split_comma}
use tcl_script_runner.Prelude.Text.Lines.{
  IsLine, is_line-IsLine, AllLines, lines, lines-append, IsLine-append, hex_byte-IsLine,
  show_ℕ-IsLine, trim_space-IsLine, split_comma-AllLines,
}
use tcl_script_runner.Prelude.Utf8.{Bytes}
use tcl_script_runner.Prelude.Base64.{decode}
use tcl_script_runner.Tunnel.Attempt.{Attempt, got, refused, blame, ◌>>=◌}
use tcl_script_runner.Tunnel.WireGuard.{
  WireGuardLibrary, WireGuard, hex_encode, b64_to_hex, allowed_lines, psk_line, keepalive_line,
  build_ipc,
}

-- A key as a setting, if it is base64.
pub key_setting : String → String → List String
key_setting name b64 = elim (decode b64) [ none ↦ [] | some raw ↦ (name <> hex_encode raw) ∷ [] ]

pub psk_setting : WireGuard → List String
psk_setting t = if t.psk == "" then [] else key_setting "preshared_key=" t.psk

pub keepalive_setting : WireGuard → List String
keepalive_setting t =
    if is_positive t.cfg.persistent_keepalive
    then ("persistent_keepalive_interval=" <> show_ℤ t.cfg.persistent_keepalive) ∷ []
    else []

-- The settings after the keys.
abbrev after : WireGuard → List String
after t =
    ("endpoint=" <> t.cfg.endpoint)
    ∷ (map (λ cidr. "allowed_ip=" <> trim_space cidr) (split_comma t.cfg.allowed_ips)
        ++ (psk_setting t ++ keepalive_setting t))

-- What the device is told, one setting for each line.
pub settings : WireGuard → List String
settings t =
    key_setting "private_key=" t.private_key
    ++ (key_setting "public_key=" t.cfg.peer_public_key ++ after t)

hex_encode-IsLine : (bs : Bytes) → IsLine (hex_encode bs)
unfolding hex_encode
hex_encode-IsLine [] = unfold IsLine in tt
hex_encode-IsLine (b ∷ bs) = IsLine-append _ _ (hex_byte-IsLine b) (hex_encode-IsLine bs)

-- The text in front of a line feed and the rest.
setting :
    (name value rest : String)
    → IsLine name
    → IsLine value
    → lines (name <> value <> "\n" <> rest) ≡ (name <> value) ∷ lines rest
setting name value rest h k =
    ap lines (sym (append_assoc name value ("\n" <> rest)))
    ∙ lines-append (name <> value) rest (IsLine-append name value h k)

lines-allowed_lines :
    (cidrs : List String) (rest : String)
    → AllLines cidrs
    → lines (allowed_lines cidrs <> rest)
      ≡ map (λ cidr. "allowed_ip=" <> trim_space cidr) cidrs ++ lines rest
unfolding allowed_lines AllLines
lines-allowed_lines [] rest h = rw (append.nil rest) refl
lines-allowed_lines (cidr ∷ cidrs) rest (h, k) =
    ap lines (append_assoc "allowed_ip=" (trim_space cidr <> "\n" <> allowed_lines cidrs) rest)
    ∙ ap (λ tail. lines ("allowed_ip=" <> tail))
        (append_assoc (trim_space cidr) ("\n" <> allowed_lines cidrs) rest)
    ∙ ap (λ tail. lines ("allowed_ip=" <> (trim_space cidr <> tail)))
        (append_assoc "\n" (allowed_lines cidrs) rest)
    ∙ setting "allowed_ip=" (trim_space cidr) (allowed_lines cidrs <> rest)
        (is_line-IsLine "allowed_ip=" refl) (trim_space-IsLine cidr h)
    ∙ ap (λ ls. ("allowed_ip=" <> trim_space cidr) ∷ ls) (lines-allowed_lines cidrs rest k)

no_lines : lines "" ≡ []
unfolding lines
no_lines = refl

by_sign :
    (k : ℤ)
    → lines (if is_positive k then "persistent_keepalive_interval=" <> show_ℤ k <> "\n" else "")
      ≡ (if is_positive k then ("persistent_keepalive_interval=" <> show_ℤ k) ∷ [] else [])
by_sign (pos zero) = unfold lines in refl
by_sign (pos (suc n)) =
    setting "persistent_keepalive_interval=" (show_ℤ (pos (suc n))) ""
      (is_line-IsLine "persistent_keepalive_interval=" refl)
      (unfold show_ℤ in show_ℕ-IsLine (suc n))
    ∙ ap (λ ls. ("persistent_keepalive_interval=" <> show_ℤ (pos (suc n))) ∷ ls) no_lines
by_sign (negsuc n) = unfold lines in refl

lines-keepalive_line : (t : WireGuard) → lines (keepalive_line t) ≡ keepalive_setting t
unfolding keepalive_line keepalive_setting
lines-keepalive_line t = by_sign t.cfg.persistent_keepalive

got_value : {A : Type 0} {a b : A} → ◌≡◌ {A = Attempt A} (got a) (got b) → a ≡ b
got_value h = cc h

-- What an attempt that succeeds was made of.
>>=-eq-got :
    {A B : Type 0} (m : Attempt A) (f : A → Attempt B) {r : B}
    → (m >>= f) ≡ got r
    → (v : A) × (m ≡ got v) × (f v ≡ got r)
>>=-eq-got (got a) f h = (a, refl, h)
>>=-eq-got (refused e) f h = cc h

blame-eq-got :
    {A : Type 0} (prefix : String) (m : Attempt A) {a : A} → blame prefix m ≡ got a → m ≡ got a
blame-eq-got prefix (got a) h = h
blame-eq-got prefix (refused e) h = cc h

by_bytes :
    (name m : String) (o : Option Bytes) {hex : String}
    → ◌≡◌ {A = Attempt String}
        (elim o as (λ _. Attempt String) [ none ↦ refused m | some raw ↦ got (hex_encode raw) ])
        (got hex)
    → (◌≡◌ {A = List String}
        (elim o as (λ _. List String) [ none ↦ [] | some raw ↦ (name <> hex_encode raw) ∷ [] ])
        ((name <> hex) ∷ []))
      × IsLine hex
by_bytes name m none h = cc h
by_bytes name m (some raw) h =
    (ap (λ x. (name <> x) ∷ []) (got_value h), subst IsLine (got_value h) (hex_encode-IsLine raw))

module _ {World : Type 0} (L : WireGuardLibrary World) where
  -- A key that is read is one setting.
  key_read :
      (name b64 : String) {hex : String}
      → b64_to_hex L b64 ≡ got hex
      → (key_setting name b64 ≡ (name <> hex) ∷ []) × IsLine hex
  unfolding b64_to_hex key_setting
  key_read name b64 h = by_bytes name _ (decode b64) h

  by_psk :
      (b : Bool) (b64 rest : String) {text : String}
      → (if b
          then got ""
          else (blame "preshared key: " (b64_to_hex L b64) >>= λ hex.
              got ("preshared_key=" <> hex <> "\n")))
        ≡ got text
      → lines (text <> rest) ≡ (if b then [] else key_setting "preshared_key=" b64) ++ lines rest
  by_psk true b64 rest h =
      ap (λ x. lines (x <> rest)) (sym (got_value h)) ∙ ap lines (append.nil rest)
  by_psk false b64 rest h =
      let (hex, read, made) = >>=-eq-got (blame "preshared key: " (b64_to_hex L b64)) _ h in
      let (is_setting, line) =
        key_read "preshared_key=" b64 (blame-eq-got "preshared key: " _ read) in
      ap (λ x. lines (x <> rest)) (sym (got_value made))
      ∙ ap lines (append_assoc "preshared_key=" (hex <> "\n") rest)
      ∙ ap (λ tail. lines ("preshared_key=" <> tail)) (append_assoc hex "\n" rest)
      ∙ setting "preshared_key=" hex rest (is_line-IsLine "preshared_key=" refl) line
      ∙ ap (λ ls. ls ++ lines rest) (sym is_setting)

  lines-psk_line :
      (t : WireGuard) (rest : String) {text : String}
      → psk_line L t ≡ got text
      → lines (text <> rest) ≡ psk_setting t ++ lines rest
  unfolding psk_line psk_setting
  lines-psk_line t rest h = by_psk (t.psk == "") t.psk rest h

  -- If neither the endpoint nor the allowed addresses hold a line feed, then the text that
  -- buildIPC gives, if it gives one, has exactly the settings as its lines: the keys in
  -- hexadecimal, the endpoint, the allowed addresses without the blanks around them, the pre-
  -- shared key if there is one, and the interval if it is positive.
  pub lines-build_ipc :
      (t : WireGuard) {text : String}
      → IsLine t.cfg.endpoint
      → IsLine t.cfg.allowed_ips
      → build_ipc L t ≡ got text
      → lines text ≡ settings t
  unfolding build_ipc settings
  lines-build_ipc t e a h =
      let (priv, read_priv, then_pub) =
        >>=-eq-got (blame "private key: " (b64_to_hex L t.private_key)) _ h in
      let (peer, read_peer, then_psk) =
        >>=-eq-got (blame "peer public key: " (b64_to_hex L t.cfg.peer_public_key)) _ then_pub in
      let (psk, read_psk, made) = >>=-eq-got (psk_line L t) _ then_psk in
      let (priv_setting, priv_line) =
        key_read "private_key=" t.private_key (blame-eq-got _ _ read_priv) in
      let (peer_setting, peer_line) =
        key_read "public_key=" t.cfg.peer_public_key (blame-eq-got _ _ read_peer) in
      ap lines (sym (got_value made))
      ∙ setting "private_key=" priv _ (is_line-IsLine "private_key=" refl) priv_line
      ∙ ap (λ ls. ("private_key=" <> priv) ∷ ls)
          (setting "public_key=" peer _ (is_line-IsLine "public_key=" refl) peer_line)
      ∙ ap (λ ls. ("private_key=" <> priv) ∷ ("public_key=" <> peer) ∷ ls)
          (setting "endpoint=" t.cfg.endpoint _ (is_line-IsLine "endpoint=" refl) e
            ∙ ap (λ ls. ("endpoint=" <> t.cfg.endpoint) ∷ ls)
                (lines-allowed_lines (split_comma t.cfg.allowed_ips) (psk <> keepalive_line t)
                    (split_comma-AllLines t.cfg.allowed_ips a)
                  ∙ ap
                      (λ ls.
                        map (λ cidr. "allowed_ip=" <> trim_space cidr)
                          (split_comma t.cfg.allowed_ips)
                        ++ ls)
                      (lines-psk_line t (keepalive_line t) read_psk
                        ∙ ap (λ ls. psk_setting t ++ ls) (lines-keepalive_line t))))
      ∙ ap (λ ks. ks ++ ("public_key=" <> peer) ∷ after t) (sym priv_setting)
      ∙ ap (λ ks. key_setting "private_key=" t.private_key ++ (ks ++ after t)) (sym peer_setting)
