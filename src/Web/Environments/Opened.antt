-- ===== src/Web/Environments/Opened.antt =====
-- internal/web/handlers.go: credentials that stay readable under the passphrase.
use mathlib.Core.Path.{subst}
use tcl_script_runner.Prelude.{
  String, ◌==◌, Bool, true, false, Option, some, List, [], ◌∷◌, ◌++◌, length, ℕ, ◌≡◌, ◌≢◌, ◌⊎◌, inl,
  inr, sym, arith, Option-cases, if◌then◌else◌,
}
use tcl_script_runner.Prelude.Utf8.{Bytes, AreBytes}
use tcl_script_runner.Outcome.{Outcome, ok, err, hang, ◌>>=◌}
use tcl_script_runner.Config.{Config, Environment}
use tcl_script_runner.Config.Crud.{add, update, remove}
use tcl_script_runner.Config.Crud.Lookup.{lookup, get, erase, replace}
use tcl_script_runner.Config.Crud.Reference.{add_lem, remove_lem, update_lem, taken}
use tcl_script_runner.Config.Crypto.{Primitives, IsLawful, encrypt, decrypt, new_gcm}
use tcl_script_runner.Config.Crypto.Laws.{decrypt-encrypt}

-- `io.ReadFull` gives bytes, as many as asked for, or an error.
abbrev pub Full : ℕ → Outcome Bytes → Type 0
Full n (ok bytes) = (length bytes ≡ n) × AreBytes bytes
Full n (err e) = Unit
Full n hang = ⊥

some_value : {a b : Environment} → ◌≡◌ {A = Option Environment} (some a) (some b) → a ≡ b
some_value h = cc h

module _ (P : Primitives) (passphrase : String) where
  -- A credential that is not set, or that decrypts.
  abbrev pub Opens : String → Type 0
  Opens stored = (stored ≡ "") ⊎ ((plain : String) × (decrypt P stored passphrase ≡ ok plain))

  pub record Openable (env : Environment) : Type 0 where
    pub password : Opens env.password
    pub ssh_password : Opens env.ssh.password
    pub key_passphrase : Opens env.ssh.key_passphrase
    pub private_key : Opens env.wireguard.private_key
    pub preshared_key : Opens env.wireguard.preshared_key

  unfoldable pub AllOpenable : List Environment → Type 0
  AllOpenable [] = Unit
  AllOpenable (env ∷ envs) = Openable env × AllOpenable envs

  no_salt :
      (m : String) (nonce_read : Outcome Bytes) (plain : String) {stored : String}
      → encrypt P (err m) nonce_read plain passphrase ≢ ok stored
  unfolding encrypt
  no_salt m nonce_read plain h = cc h

  then_err :
      {A : Type 0} (m : Outcome A) (e : String) {stored : String} → (m >>= λ _. err e) ≢ ok stored
  then_err (ok a) e h = cc h
  then_err (err m) e h = cc h
  then_err hang e h = cc h

  no_nonce :
      (salt : Bytes) (m plain : String) {stored : String}
      → encrypt P (ok salt) (err m) plain passphrase ≢ ok stored
  unfolding encrypt
  no_nonce salt m plain = then_err (new_gcm P passphrase salt) _

  -- What `Encrypt` gives decrypts, if it gives anything.
  pub encrypt-Opens :
      (salt_read nonce_read : Outcome Bytes) (plain : String) {stored : String}
      → IsLawful P
      → Full 16 salt_read
      → Full 12 nonce_read
      → encrypt P salt_read nonce_read plain passphrase ≡ ok stored
      → Opens stored
  encrypt-Opens (ok salt) (ok nonce) plain {stored} L (ls, bs) (ln, bn) h =
      let (made, e, d) = decrypt-encrypt P L salt nonce plain passphrase ls ln bs bn in
      inr (plain, cc (e, h, d))
  encrypt-Opens (ok salt) (err m) plain L s n h = absurd (no_nonce salt m plain h)
  encrypt-Opens (ok salt) hang plain L s n h = absurd n
  encrypt-Opens (err m) nonce plain L s n h = absurd (no_salt m nonce plain h)
  encrypt-Opens hang nonce plain L s n h = absurd s

  append-AllOpenable :
      (envs : List Environment) (env : Environment)
      → AllOpenable envs
      → Openable env
      → AllOpenable (envs ++ env ∷ [])
  unfolding AllOpenable
  append-AllOpenable [] env all o = (o, tt)
  append-AllOpenable (e ∷ envs) env (p, all) o = (p, append-AllOpenable envs env all o)

  if_AllOpenable :
      (b : Bool) (x y : List Environment)
      → AllOpenable x
      → AllOpenable y
      → AllOpenable (if b then x else y)
  if_AllOpenable true x y h k = h
  if_AllOpenable false x y h k = k

  erase-AllOpenable :
      (name : String) (envs : List Environment) → AllOpenable envs → AllOpenable (erase name envs)
  unfolding AllOpenable erase
  erase-AllOpenable name [] all = tt
  erase-AllOpenable name (e ∷ envs) (p, all) =
      if_AllOpenable (e.name == name) envs (e ∷ erase name envs) all
        (p, erase-AllOpenable name envs all)

  replace-AllOpenable :
      (name : String) (new : Environment) (envs : List Environment)
      → AllOpenable envs
      → Openable new
      → AllOpenable (replace name new envs)
  unfolding AllOpenable replace
  replace-AllOpenable name new [] all o = tt
  replace-AllOpenable name new (e ∷ envs) (p, all) o =
      if_AllOpenable (e.name == name) (new ∷ envs) (e ∷ replace name new envs) (o, all)
        (p, replace-AllOpenable name new envs all o)

  by_result :
      (c d : Config) (envs : List Environment)
      → AllOpenable c.environments
      → AllOpenable envs
      → (d.environments ≡ c.environments) ⊎ (d.environments ≡ envs)
      → AllOpenable d.environments
  by_result c d envs h k (inl e) = subst AllOpenable (sym e) h
  by_result c d envs h k (inr e) = subst AllOpenable (sym e) k

  pub add-AllOpenable :
      (c : Config) (env : Environment)
      → AllOpenable c.environments
      → Openable env
      → AllOpenable (add c env).1.environments
  add-AllOpenable c env all o =
      by_result c (add c env).1 (c.environments ++ env ∷ []) all
        (append-AllOpenable c.environments env all o)
        (elim (Option-cases (lookup c env.name)) [
          | inl free ↦ inr (ground (arith, add_lem c env))
          | inr (_, e) ↦ inl (ground (arith, add_lem c env))
        ])

  pub remove-AllOpenable :
      (c : Config) (name : String)
      → AllOpenable c.environments
      → AllOpenable (remove c name).1.environments
  remove-AllOpenable c name all =
      by_result c (remove c name).1 (erase name c.environments) all
        (erase-AllOpenable name c.environments all)
        (elim (Option-cases (lookup c name)) [
          | inl free ↦ inl (ground (arith, remove_lem c name))
          | inr (_, e) ↦ inr (ground (arith, remove_lem c name))
        ])

  pub update-AllOpenable :
      (c : Config) (name : String) (env : Environment)
      → AllOpenable c.environments
      → Openable env
      → AllOpenable (update c name env).1.environments
  update-AllOpenable c name env all o =
      by_result c (update c name env).1 (replace name env c.environments) all
        (replace-AllOpenable name env c.environments all o)
        (elim (Option-cases (lookup c name)) [
          | inl free ↦ inl (ground (arith, update_lem c name env))
          | inr (_, e) ↦ elim (Option-cases (taken c name env.name)) [
            | inl free ↦ inr (ground (arith, update_lem c name env))
            | inr (_, old) ↦ inl (ground (arith, update_lem c name env))
          ]
        ])

  if_Openable :
      (b : Bool) (x : Environment) (o : Option Environment) {env : Environment}
      → Openable x
      → (o ≡ some env → Openable env)
      → (if b then some x else o) ≡ some env
      → Openable env
  if_Openable true x o h k e = subst Openable (some_value e) h
  if_Openable false x o h k e = k e

  pub get-Openable :
      (name : String) (envs : List Environment) {env : Environment}
      → AllOpenable envs
      → get name envs ≡ some env
      → Openable env
  unfolding AllOpenable get
  get-Openable name [] all h = cc h
  get-Openable name (e ∷ envs) (p, all) h =
      if_Openable (e.name == name) e (get name envs) p (get-Openable name envs all) h
