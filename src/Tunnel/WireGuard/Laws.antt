-- ===== src/Tunnel/WireGuard/Laws.antt =====
-- wireguard.go: what `Connect` and `Disconnect` leave open.
use tcl_script_runner.Prelude.{
  ℕ, String, Option, none, some, List, [], ◌∷◌, ◌≡◌, ◌≢◌, refl, sym, ap, ◌∙◌,
}
use tcl_script_runner.Tunnel.Attempt.{Attempt, got, refused}
use tcl_script_runner.Tunnel.Resources.{Handle, release, hold, release-cons, hold-none}
use tcl_script_runner.Tunnel.WireGuard.{
  WireGuardLibrary, WireGuard, Result, brought_up, configured, with_ipc, created, named, addressed,
  closed, connect, disconnect, fail_device, build_ipc, parse_dns, local_addr,
}

-- The documented effects on the handles that are open: a device takes its tun over, and a `Close`
-- releases it; what configures a device opens nothing.
pub record Tracks {World : Type 0} (L : WireGuardLibrary World) (live : World → List Handle)
    : Type 0 where
  pub created :
      (addrs dns : List L.Addr) (mtu : ℕ) (w : World) {tun net : Handle}
      → (L.create_net_tun addrs dns mtu w).0 ≡ got (tun, net)
      → live (L.create_net_tun addrs dns mtu w).1 ≡ tun ∷ live w
  pub not_created :
      (addrs dns : List L.Addr) (mtu : ℕ) (w : World) {e : String}
      → (L.create_net_tun addrs dns mtu w).0 ≡ refused e
      → live (L.create_net_tun addrs dns mtu w).1 ≡ live w
  pub new_device :
      (tun : Handle) (w : World)
      → live (L.new_device tun w).1 ≡ (L.new_device tun w).0 ∷ release tun (live w)
  pub ipc_set : (dev : Handle) (ipc : String) (w : World) → live (L.ipc_set dev ipc w).1 ≡ live w
  pub up : (dev : Handle) (w : World) → live (L.up dev w).1 ≡ live w
  pub down : (dev : Handle) (w : World) → live (L.down dev w) ≡ live w
  pub closed : (dev : Handle) (w : World) → live (L.close dev w) ≡ release dev (live w)

-- A tunnel without a device has no network either.
pub record IsIdle (t : WireGuard) : Type 0 where
  pub dev : t.dev ≡ none
  pub tnet : t.tnet ≡ none

module _ {World : Type 0} (L : WireGuardLibrary World) (live : World → List Handle)
    (T : Tracks L live) where
  -- With an error the tunnel is idle and nothing of its own is open; without one it has a network and
  -- a device, and just the device is open beside `base`.
  abbrev pub Ready : List Handle → Result L → Type 0
  Ready base (some e, t, w) = IsIdle t × (live w ≡ base)
  Ready base (none, t, w) = (live w ≡ hold t.dev base) × (t.dev ≢ none) × (t.tnet ≢ none)

  module _ (t : WireGuard) (idle : IsIdle t) (base : List Handle) where
    fail_device-Ready :
        (message : String) (dev : Handle) (w : World)
        → live w ≡ dev ∷ base
        → Ready base (fail_device L message dev t w)
    unfolding fail_device
    fail_device-Ready message dev w e =
        (idle, T.closed dev w ∙ ap (release dev) e ∙ release-cons dev base)

    brought_up-Ready :
        (dev net : Handle) (x : Option String × World)
        → live x.1 ≡ dev ∷ base
        → Ready base (brought_up L t dev net x)
    unfolding brought_up
    brought_up-Ready dev net (none, w) e = (e, (λ f. cc f), (λ f. cc f))
    brought_up-Ready dev net (some m, w) e = fail_device-Ready "" dev w e

    configured-Ready :
        (dev net : Handle) (x : Option String × World)
        → live x.1 ≡ dev ∷ base
        → Ready base (configured L t dev net x)
    unfolding configured
    configured-Ready dev net (none, w) e = brought_up-Ready dev net (L.up dev w) (T.up dev w ∙ e)
    configured-Ready dev net (some m, w) e = fail_device-Ready "" dev w e

    with_ipc-Ready :
        (dev net : Handle) (ipc : Attempt String) (w : World)
        → live w ≡ dev ∷ base
        → Ready base (with_ipc L t dev net ipc w)
    unfolding with_ipc
    with_ipc-Ready dev net (got ipc) w e =
        configured-Ready dev net (L.ipc_set dev ipc w) (T.ipc_set dev ipc w ∙ e)
    with_ipc-Ready dev net (refused m) w e = fail_device-Ready "" dev w e

  module _ (t : WireGuard) (idle : IsIdle t) where
    created-Ready :
        (addrs dns : List L.Addr) (w : World) (o : Attempt (Handle × Handle))
        → (L.create_net_tun addrs dns 1420 w).0 ≡ o
        → Ready (live w) (created L t (o, (L.create_net_tun addrs dns 1420 w).1))
    unfolding created
    created-Ready addrs dns w (refused m) q = (idle, T.not_created addrs dns 1420 w q)
    created-Ready addrs dns w (got (tun, net)) q =
        let v = (L.create_net_tun addrs dns 1420 w).1 in
        with_ipc-Ready t idle (live w) (L.new_device tun v).0 net (build_ipc L t)
          (L.new_device tun v).1
          (T.new_device tun v
            ∙ ap (λ hs. (L.new_device tun v).0 ∷ release tun hs) (T.created addrs dns 1420 w q)
            ∙ ap (λ hs. (L.new_device tun v).0 ∷ hs) (release-cons tun (live w)))

    named-Ready :
        (a : L.Addr) (dns : Attempt (List L.Addr)) (w : World) → Ready (live w) (named L t a dns w)
    unfolding named
    named-Ready a (refused m) w = (idle, refl)
    named-Ready a (got dns) w = created-Ready (a ∷ []) dns w _ refl

    addressed-Ready : (a : Attempt L.Addr) (w : World) → Ready (live w) (addressed L t a w)
    unfolding addressed
    addressed-Ready (refused m) w = (idle, refl)
    addressed-Ready (got a) w = named-Ready a (parse_dns L t) w

    -- If the creation of a tun adds it or fails and adds nothing, a device takes it over, its
    -- configuration opens and closes nothing, and a Close releases it, then after Connect on an
    -- idle WireGuard tunnel: with an error the tunnel is idle and the open handles are those
    -- from before; without one it has a network and a device, and just the device is open beside
    -- them.
    pub connect-Ready : (w : World) → Ready (live w) (connect L t w)
    unfolding connect
    connect-Ready w = addressed-Ready (local_addr L t.cfg.address) w

  closed-live :
      (t : WireGuard) (o : Option Handle) (w : World) (base : List Handle)
      → live w ≡ hold o base
      → live (closed L t o w).2 ≡ base
  unfolding closed
  closed-live t none w base e = e
  closed-live t (some dev) w base e =
      T.closed dev _ ∙ ap (release dev) (T.down dev w ∙ e) ∙ release-cons dev base

  pub disconnect-live :
      (t : WireGuard) (w : World) (base : List Handle)
      → live w ≡ hold t.dev base
      → live (disconnect L t w).2 ≡ base
  unfolding disconnect
  disconnect-live t w base e = closed-live t t.dev w base e

  error-IsIdle :
      (base : List Handle) (x : Result L) {e : String} → Ready base x → x.0 ≡ some e → IsIdle x.1
  error-IsIdle base (some m, t, w) (idle, k) q = idle
  error-IsIdle base (none, t, w) k q = cc q

  pub live-disconnect_failed :
      (t : WireGuard) (w v : World) {e : String}
      → IsIdle t
      → (connect L t w).0 ≡ some e
      → live (disconnect L (connect L t w).1 v).2 ≡ live v
  live-disconnect_failed t w v idle q =
      let idle' = error-IsIdle (live w) (connect L t w) (connect-Ready t idle w) q in
      disconnect-live (connect L t w).1 v (live v) (sym (hold-none _ idle'.dev (live v)))

  error-Ready :
      (base : List Handle) (x : Result L) {e : String}
      → Ready base x
      → x.0 ≡ some e
      → live x.2 ≡ base
  error-Ready base (some m, t, w) (idle, k) q = k
  error-Ready base (none, t, w) k q = cc q

  done-Ready :
      (base : List Handle) (x : Result L) → Ready base x → x.0 ≡ none → live x.2 ≡ hold x.1.dev base
  done-Ready base (some m, t, w) k q = cc
  done-Ready base (none, t, w) (k, d, n) q = k

  pub live-connect_failed :
      (t : WireGuard) (w : World) {e : String}
      → IsIdle t
      → (connect L t w).0 ≡ some e
      → live (connect L t w).2 ≡ live w
  live-connect_failed t w idle q = error-Ready (live w) (connect L t w) (connect-Ready t idle w) q

  pub live-disconnect-connect :
      (t : WireGuard) (w v : World)
      → IsIdle t
      → (connect L t w).0 ≡ none
      → live v ≡ live (connect L t w).2
      → live (disconnect L (connect L t w).1 v).2 ≡ live w
  live-disconnect-connect t w v idle q e =
      disconnect-live (connect L t w).1 v (live w)
        (e ∙ done-Ready (live w) (connect L t w) (connect-Ready t idle w) q)
