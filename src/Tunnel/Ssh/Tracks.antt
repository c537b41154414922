-- ===== src/Tunnel/Ssh/Tracks.antt =====
-- ssh.go: what is open beside a tunnel, and what a tunnel holds.
use tcl_script_runner.Prelude.{String, none, List, ◌∷◌, ◌≡◌}
use tcl_script_runner.Tunnel.Attempt.{got, refused}
use tcl_script_runner.Tunnel.Resources.{Handle, release, hold}
use tcl_script_runner.Tunnel.Ssh.{SshLibrary, Ssh}

-- The documented effects on the handles that are open. What opens a handle adds it or fails and adds
-- nothing, a handshake takes the connection over, and a `Close` releases its handle even if it fails.
pub record Tracks {World : Type 0} (L : SshLibrary World) (live : World → List Handle)
    : Type 0 where
  pub dialled :
      (addr user : String) (auth : L.Auth) (w : World) {h : Handle}
      → (L.dial addr user auth w).0 ≡ got h
      → live (L.dial addr user auth w).1 ≡ h ∷ live w
  pub not_dialled :
      (addr user : String) (auth : L.Auth) (w : World) {e : String}
      → (L.dial addr user auth w).0 ≡ refused e
      → live (L.dial addr user auth w).1 ≡ live w
  pub passed :
      (from : Handle) (addr : String) (w : World) {h : Handle}
      → (L.dial_from from addr w).0 ≡ got h
      → live (L.dial_from from addr w).1 ≡ h ∷ live w
  pub not_passed :
      (from : Handle) (addr : String) (w : World) {e : String}
      → (L.dial_from from addr w).0 ≡ refused e
      → live (L.dial_from from addr w).1 ≡ live w
  pub shaken :
      (conn : Handle) (addr user : String) (auth : L.Auth) (w : World) {h : Handle}
      → (L.handshake conn addr user auth w).0 ≡ got h
      → live (L.handshake conn addr user auth w).1 ≡ h ∷ release conn (live w)
  pub not_shaken :
      (conn : Handle) (addr user : String) (auth : L.Auth) (w : World) {e : String}
      → (L.handshake conn addr user auth w).0 ≡ refused e
      → release conn (live (L.handshake conn addr user auth w).1) ≡ release conn (live w)
  pub listening :
      (addr : String) (w : World) {h : Handle}
      → (L.listen addr w).0 ≡ got h
      → live (L.listen addr w).1 ≡ h ∷ live w
  pub not_listening :
      (addr : String) (w : World) {e : String}
      → (L.listen addr w).0 ≡ refused e
      → live (L.listen addr w).1 ≡ live w
  pub closed : (h : Handle) (w : World) → live (L.close h w).1 ≡ release h (live w)

-- A tunnel that holds nothing.
pub record IsIdle (t : Ssh) : Type 0 where
  pub client : t.client ≡ none
  pub jump : t.jump ≡ none
  pub listener : t.listener ≡ none

-- What a tunnel holds, in front of other handles: the last one opened first.
abbrev pub held : Ssh → List Handle → List Handle
held t base = hold t.listener (hold t.client (hold t.jump base))
