-- ===== src/Tunnel/Resources.antt =====
-- What a tunnel holds open, by the handles that the libraries give to clients, listeners and devices.
use tcl_script_runner.Prelude.{
  ℕ, Option, none, some, List, [], ◌∷◌, eqb, if◌then◌else◌, ◌≡◌, refl, arith,
}

abbrev pub Handle : Type 0
Handle = ℕ

-- A handle that is closed goes off the list; closing it again changes nothing.
unfoldable pub release : Handle → List Handle → List Handle
release h [] = []
release h (k ∷ ks) = if eqb k h then ks else k ∷ release h ks

-- A field that may hold a handle, in front of others.
abbrev pub hold : Option Handle → List Handle → List Handle
hold none hs = hs
hold (some h) hs = h ∷ hs

-- A field that is closed if it is set, and then nil.
unfoldable pub drop_held : Option Handle → List Handle → List Handle
drop_held none hs = hs
drop_held (some h) hs = release h hs

pub release-cons : (h : Handle) (hs : List Handle) → release h (h ∷ hs) ≡ hs
unfolding release
release-cons h hs = ground arith

pub drop_held-hold : (o : Option Handle) (hs : List Handle) → drop_held o (hold o hs) ≡ hs
unfolding drop_held
drop_held-hold none hs = refl
drop_held-hold (some h) hs = release-cons h hs

pub hold-none : (o : Option Handle) → o ≡ none → (hs : List Handle) → hold o hs ≡ hs
hold-none none e hs = refl
hold-none (some h) e hs = cc e
