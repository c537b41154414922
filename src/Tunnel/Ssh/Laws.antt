-- ===== src/Tunnel/Ssh/Laws.antt =====
-- ssh.go: what `Connect` and `Disconnect` leave open.
use tcl_script_runner.Prelude.{
  String, ◌==◌, Option, none, some, List, ◌∷◌, ◌≡◌, ◌≢◌, inl, inr, refl, sym, ap, ◌∙◌, Bool-cases,
}
use tcl_script_runner.Tunnel.Attempt.{Attempt, got, refused}
use tcl_script_runner.Tunnel.Resources.{
  Handle, release, hold, drop_held, release-cons, drop_held-hold, hold-none,
}
use tcl_script_runner.Tunnel.Ssh.{
  SshLibrary, Ssh, Result, close_held, close_clients, give_up, listening, bind, shaken, passed,
  jumped, dialled, authorised, connect, disconnect, host_addr, local_addr, jump_addr, jump_user,
  auth_methods,
}
use tcl_script_runner.Tunnel.Ssh.Tracks.{Tracks, IsIdle, held}

module _ {World : Type 0} (L : SshLibrary World) (live : World → List Handle)
    (T : Tracks L live) where
  -- With an error the tunnel is idle and nothing of its own is open; without one it holds a listener
  -- and a client, and just what it holds is open beside `base`.
  abbrev pub Connected : List Handle → Result L → Type 0
  Connected base (some e, t, w) = IsIdle t × (live w ≡ base)
  Connected base (none, t, w) = (live w ≡ held t base) × (t.listener ≢ none) × (t.client ≢ none)

  close_held-live :
      (o : Option Handle) (w : World) → live (close_held L o w).1 ≡ drop_held o (live w)
  unfolding close_held drop_held
  close_held-live none w = refl
  close_held-live (some h) w = T.closed h w

  close_clients-live :
      (t : Ssh) (w : World) (base : List Handle)
      → live w ≡ hold t.client (hold t.jump base)
      → live (close_clients L t w).2 ≡ base
  unfolding close_clients
  close_clients-live t w base e =
      let w1 = (close_held L t.client w).1 in
      let e1 : live w1 ≡ hold t.jump base =
        close_held-live t.client w
        ∙ ap (drop_held t.client) e
        ∙ drop_held-hold t.client (hold t.jump base) in
      close_held-live t.jump w1 ∙ ap (drop_held t.jump) e1 ∙ drop_held-hold t.jump base

  give_up-Connected :
      (message : String) (t : Ssh) (w : World) (base : List Handle)
      → t.listener ≡ none
      → live w ≡ hold t.client (hold t.jump base)
      → Connected base (give_up L message t w)
  unfolding give_up close_clients
  give_up-Connected message t w base l e = (
    record { client = refl; jump = refl; listener = l },
    unfold close_clients in close_clients-live t w base e,
  )

  listening-Connected :
      (t : Ssh) (w : World) (base : List Handle) (o : Attempt Handle)
      → t.listener ≡ none
      → t.client ≢ none
      → live w ≡ hold t.client (hold t.jump base)
      → (L.listen (local_addr t) w).0 ≡ o
      → Connected base (listening L t (o, (L.listen (local_addr t) w).1))
  unfolding listening
  listening-Connected t w base (got h) l c e q =
      (T.listening (local_addr t) w q ∙ ap (λ hs. h ∷ hs) e, (λ f. cc f), c)
  listening-Connected t w base (refused m) l c e q =
      give_up-Connected "" t _ base l (T.not_listening (local_addr t) w q ∙ e)

  bind-Connected :
      (t : Ssh) (w : World) (base : List Handle)
      → t.listener ≡ none
      → t.client ≢ none
      → live w ≡ hold t.client (hold t.jump base)
      → Connected base (bind L t w)
  unfolding bind
  bind-Connected t w base l c e = listening-Connected t w base _ l c e refl

  -- The steps of `Connect` from a tunnel that is idle, or that holds its jump host.
  module _ (t : Ssh) (base : List Handle) (l : t.listener ≡ none) (c : t.client ≡ none) where
    shaken-Connected :
        (conn : Handle) (auth : L.Auth) (w : World) (o : Attempt Handle)
        → live w ≡ conn ∷ hold t.jump base
        → (L.handshake conn (host_addr t) t.cfg.user auth w).0 ≡ o
        → Connected base (shaken L t conn (o, (L.handshake conn (host_addr t) t.cfg.user auth w).1))
    unfolding shaken
    shaken-Connected conn auth w (got h) e q =
        bind-Connected (record t { client = some h }) _ base l (λ f. cc f)
          (T.shaken conn (host_addr t) t.cfg.user auth w q
            ∙ ap (λ hs. h ∷ release conn hs) e
            ∙ ap (λ hs. h ∷ hs) (release-cons conn (hold t.jump base)))
    shaken-Connected conn auth w (refused m) e q = give_up-Connected "" t _ base l (
        T.closed conn _
        ∙ T.not_shaken conn (host_addr t) t.cfg.user auth w q
        ∙ ap (release conn) e
        ∙ release-cons conn (hold t.jump base)
        ∙ sym (hold-none t.client c (hold t.jump base)))

    passed-Connected :
        (jump : Handle) (auth : L.Auth) (w : World) (o : Attempt Handle)
        → live w ≡ hold t.jump base
        → (L.dial_from jump (host_addr t) w).0 ≡ o
        → Connected base (passed L t auth (o, (L.dial_from jump (host_addr t) w).1))
    unfolding passed
    passed-Connected jump auth w (got h) e q =
        shaken-Connected h auth _ _ (T.passed jump (host_addr t) w q ∙ ap (λ hs. h ∷ hs) e) refl
    passed-Connected jump auth w (refused m) e q =
        give_up-Connected "" t _ base l
          (T.not_passed jump (host_addr t) w q ∙ e ∙ sym (hold-none t.client c (hold t.jump base)))

  module _ (t : Ssh) (idle : IsIdle t) where
    still_idle : (w v : World) → live v ≡ live w → (m : String) → Connected (live w) (some m, t, v)
    still_idle w v e m = (idle, e)

    jumped-Connected :
        (auth : L.Auth) (w : World) (o : Attempt Handle)
        → (L.dial (jump_addr t) (jump_user t) auth w).0 ≡ o
        → Connected (live w) (jumped L t auth (o, (L.dial (jump_addr t) (jump_user t) auth w).1))
    unfolding jumped
    jumped-Connected auth w (got h) q =
        passed-Connected (record t { jump = some h }) (live w) idle.listener idle.client h auth _ _
          (T.dialled (jump_addr t) (jump_user t) auth w q) refl
    jumped-Connected auth w (refused m) q =
        still_idle w _ (T.not_dialled (jump_addr t) (jump_user t) auth w q) ""

    dialled-Connected :
        (auth : L.Auth) (w : World) (o : Attempt Handle)
        → (L.dial (host_addr t) t.cfg.user auth w).0 ≡ o
        → Connected (live w) (dialled L t (o, (L.dial (host_addr t) t.cfg.user auth w).1))
    unfolding dialled
    dialled-Connected auth w (got h) q =
        bind-Connected (record t { client = some h }) _ (live w) idle.listener (λ f. cc f)
          (T.dialled (host_addr t) t.cfg.user auth w q
            ∙ ap (λ hs. h ∷ hs) (sym (hold-none t.jump idle.jump (live w))))
    dialled-Connected auth w (refused m) q =
        still_idle w _ (T.not_dialled (host_addr t) t.cfg.user auth w q) ""

    authorised-Connected :
        (a : Attempt L.Auth) (w : World) → Connected (live w) (authorised L t a w)
    unfolding authorised
    authorised-Connected (got auth) w = elim (Bool-cases (t.cfg.jump_host == "")) [
      | inl e ↦ rw e (dialled-Connected auth w _ refl)
      | inr e ↦ rw e (jumped-Connected auth w _ refl)
    ]
    authorised-Connected (refused m) w = still_idle w w refl ""

    -- If what opens a handle adds it or fails and adds nothing, a handshake takes the connection
    -- over, and a Close releases its handle, then after Connect on an idle SSH tunnel: with an
    -- error the tunnel is idle and the open handles are those from before; without one it has a
    -- listener and a client, and just what it holds is open beside them.
    pub connect-Connected : (w : World) → Connected (live w) (connect L t w)
    unfolding connect
    connect-Connected w = authorised-Connected (auth_methods L t w) w

  pub disconnect-live :
      (t : Ssh) (w : World) (base : List Handle)
      → live w ≡ held t base
      → IsIdle (disconnect L t w).1 × (live (disconnect L t w).2 ≡ base)
  unfolding disconnect
  disconnect-live t w base e = (
    record { client = refl; jump = refl; listener = refl },
    close_clients-live (record t { listener = none }) _ base
        (close_held-live t.listener w ∙ ap (drop_held t.listener) e ∙ drop_held-hold t.listener _),
  )

  idle_held : (t : Ssh) → IsIdle t → (base : List Handle) → base ≡ held t base
  idle_held t idle base = sym (
      hold-none t.listener idle.listener _
      ∙ hold-none t.client idle.client _
      ∙ hold-none t.jump idle.jump base)

  error-IsIdle :
      (base : List Handle) (x : Result L) {e : String}
      → Connected base x
      → x.0 ≡ some e
      → IsIdle x.1
  error-IsIdle base (some m, t, w) (idle, k) q = idle
  error-IsIdle base (none, t, w) k q = cc q

  pub live-disconnect_failed :
      (t : Ssh) (w v : World) {e : String}
      → IsIdle t
      → (connect L t w).0 ≡ some e
      → live (disconnect L (connect L t w).1 v).2 ≡ live v
  live-disconnect_failed t w v idle q =
      let idle' = error-IsIdle (live w) (connect L t w) (connect-Connected t idle w) q in
      (disconnect-live (connect L t w).1 v (live v) (idle_held _ idle' (live v))).1

  error-Connected :
      (base : List Handle) (x : Result L) {e : String}
      → Connected base x
      → x.0 ≡ some e
      → live x.2 ≡ base
  error-Connected base (some m, t, w) (idle, k) q = k
  error-Connected base (none, t, w) k q = cc q

  done-Connected :
      (base : List Handle) (x : Result L) → Connected base x → x.0 ≡ none → live x.2 ≡ held x.1 base
  done-Connected base (some m, t, w) k q = cc
  done-Connected base (none, t, w) (k, l, c) q = k

  pub live-connect_failed :
      (t : Ssh) (w : World) {e : String}
      → IsIdle t
      → (connect L t w).0 ≡ some e
      → live (connect L t w).2 ≡ live w
  live-connect_failed t w idle q =
      error-Connected (live w) (connect L t w) (connect-Connected t idle w) q

  pub live-disconnect-connect :
      (t : Ssh) (w v : World)
      → IsIdle t
      → (connect L t w).0 ≡ none
      → live v ≡ live (connect L t w).2
      → live (disconnect L (connect L t w).1 v).2 ≡ live w
  live-disconnect-connect t w v idle q e =
      (disconnect-live (connect L t w).1 v (live w)
        (e ∙ done-Connected (live w) (connect L t w) (connect-Connected t idle w) q)).1
