-- ===== src/Tunnel/Ssh/Forward.antt =====
-- internal/tunnel/ssh.go: the goroutines of the port-forward.
use tcl_script_runner.Prelude.{String, Option, none, some, List, [], ◌∷◌, ◌≡◌, refl, ap, ◌∙◌}
use tcl_script_runner.Tunnel.Attempt.{Attempt, got, refused}
use tcl_script_runner.Tunnel.Resources.{Handle, release, release-cons}
use tcl_script_runner.Tunnel.Ssh.{SshLibrary, Ssh, address}
use tcl_script_runner.Tunnel.Ssh.Tracks.{Tracks}

-- The connections that the loop serves, each by a goroutine of its own: those before the first error of
-- `Accept`.
unfoldable pub forward : List (Attempt Handle) → List Handle
forward [] = []
forward (got local ∷ accepts) = local ∷ forward accepts
forward (refused e ∷ accepts) = []

unfoldable pub remote_addr : Ssh → String
remote_addr t = address t.cfg.remote_host t.cfg.remote_port

-- `copy` is the two calls of `io.Copy`, until one of them ends.
module _ {World : Type 0} (L : SshLibrary World) (copy : Handle → Handle → World → World) where
  -- After the dial, with the deferred calls.
  dialled : Handle → Attempt Handle × World → World
  dialled local (refused e, w) = (L.close local w).1
  dialled local (got remote, w) = (L.close local (L.close remote (copy local remote w)).1).1

  -- `none` is the panic of a client that is nil, which ends the program.
  unfoldable pub handle_conn : Ssh → Handle → World → Option World
  unfolding dialled remote_addr
  handle_conn t local w = elim t.client [
    | none ↦ none
    | some client ↦ some (dialled local (L.dial_from client (remote_addr t) w))
  ]

  module _ (live : World → List Handle) (T : Tracks L live)
      (copies : (a b : Handle) (w : World) → live (copy a b w) ≡ live w) where
    dialled-live :
        (client local : Handle) (addr : String) (w : World) (o : Attempt Handle)
        → (L.dial_from client addr w).0 ≡ o
        → live (dialled local (o, (L.dial_from client addr w).1)) ≡ release local (live w)
    unfolding dialled
    dialled-live client local addr w (refused e) q =
        T.closed local _ ∙ ap (release local) (T.not_passed client addr w q)
    dialled-live client local addr w (got remote) q =
        T.closed local _
        ∙ ap (release local) (
            T.closed remote _
            ∙ ap (release remote) (copies local remote _ ∙ T.passed client addr w q)
            ∙ release-cons remote (live w))

    -- If what opens a handle adds it or fails and adds nothing, a Close releases its handle, and
    -- copying opens and closes nothing, then a tunnel with a client serves a connection to its
    -- end without a panic, whether or not the dial to the remote succeeds, and of what was open
    -- before just the connection is then closed, and nothing else is open.
    pub handle_conn-live :
        (t : Ssh) (client local : Handle) (w : World)
        → t.client ≡ some client
        → (v : World) × (handle_conn t local w ≡ some v) × (live v ≡ release local (live w))
    unfolding handle_conn
    handle_conn-live t client local w e = (
      dialled local (L.dial_from client (remote_addr t) w),
      rw (e, handle_conn) refl,
      dialled-live client local (remote_addr t) w _ refl,
    )
