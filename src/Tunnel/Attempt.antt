-- ===== src/Tunnel/Attempt.antt =====
-- What a call of a library gives that returns a value or an error: the value, or the error's text.
use tcl_script_runner.Prelude.{String, ◌<>◌}

pub data Attempt (A : Type 0) : Type 0 where
  got : A → Attempt A
  refused : String → Attempt A

infixl 5 ◌>>=◌
abbrev pub ◌>>=◌ : {A B : Type 0} → Attempt A → (A → Attempt B) → Attempt B
got a >>= f = f a
refused e >>= f = refused e

-- `fmt.Errorf(prefix + "%w", err)`
abbrev pub blame : {A : Type 0} → String → Attempt A → Attempt A
blame prefix (got a) = got a
blame prefix (refused e) = refused (prefix <> e)
