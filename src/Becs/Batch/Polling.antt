-- ===== src/Becs/Batch/Polling.antt =====
-- The loop of `Poll` in batch.go by the rounds that it goes through.
use tcl_script_runner.Prelude.{
  ℕ, zero, suc, ◌<◌, String, eq_iff, true, false, Option, none, some, ◌≡◌, ◌↔◌, ◌⊎◌, refl, ap, sym,
  ◌∙◌, arith, inl, inr, Bool-cases, if◌then◌else◌,
}
use mathlib.Core.Path.{subst}
use tcl_script_runner.Prelude.Int.{ℤ}
use tcl_script_runner.Outcome.{Outcome, ok, err, hang}
use tcl_script_runner.Becs.Client.{Net, Session, pure, proceed, ◌>>=◌, ◌>>◌}
use tcl_script_runner.Becs.Batch.{RunResult, is_terminal, batch_info_get, pause, poll}

-- The states in which a batch has ended.
abbrev pub Ended : String → Type 0
Ended state = (state ≡ "Finished") ⊎ (state ≡ "Stopped")

is_terminal-Ended : (state : String) → (is_terminal state ≡ true) ↔ Ended state
unfolding is_terminal
is_terminal-Ended state = (
  λ h. ground (arith, eq_iff state "Finished", eq_iff state "Stopped"),
  λ h. ground (arith, eq_iff state "Finished", eq_iff state "Stopped"),
)

not_terminal : (state : String) → ¬ Ended state → is_terminal state ≡ false
not_terminal state h = elim (Bool-cases (is_terminal state)) [
  | inl e ↦ absurd (h ((is_terminal-Ended state).0 e))
  | inr e ↦ e
]

still_going : (state : String) → is_terminal state ≡ false → ¬ Ended state
still_going state h e = cc (h, (is_terminal-Ended state).1 e)

module _ (N : Net) (batch_id interval : ℤ) where
  -- `Rounds n s t`: from `s` to `t` in so many rounds. In each the answer says that the batch has not
  -- ended, and the interval is waited out.
  pub data Rounds : ℕ → Session N → Session N → Type 0 where
    stay : {s : Session N} → Rounds 0 s s
    again :
        {n : ℕ} {s u t : Session N} {w : N.World} {r : RunResult}
        → batch_info_get N batch_id s ≡ (ok r, u)
        → ¬ Ended r.state
        → N.wait interval u.world ≡ (none, w)
        → Rounds n (record u { world = w }) t
        → Rounds (suc n) s t

  after_pause : ℕ → Outcome (Unit {0}) × Session N → Outcome RunResult × Session N
  after_pause fuel (ok _, u) = poll N fuel batch_id interval u
  after_pause fuel (err e, u) = (err e, u)
  after_pause fuel (hang, u) = (hang, u)

  after_info : ℕ → Outcome RunResult × Session N → Outcome RunResult × Session N
  after_info fuel (ok r, t) =
      if is_terminal r.state then (ok r, t) else after_pause fuel (pause N interval t)
  after_info fuel (err e, t) = (err e, t)
  after_info fuel (hang, t) = (hang, t)

  proceed-pause :
      (fuel : ℕ) (x : Outcome (Unit {0}) × Session N)
      → proceed N x.0 (λ _. poll N fuel batch_id interval) x.1 ≡ after_pause fuel x
  unfolding after_pause
  proceed-pause fuel (ok _, u) = refl
  proceed-pause fuel (err e, u) = refl
  proceed-pause fuel (hang, u) = refl

  proceed-info :
      (fuel : ℕ) (x : Outcome RunResult × Session N)
      → proceed N x.0
          (λ r.
            if is_terminal r.state
            then pure N r
            else (pause N interval >> poll N fuel batch_id interval))
          x.1
        ≡ after_info fuel x
  unfolding after_info ◌>>=◌
  proceed-info fuel (ok r, t) = elim (Bool-cases (is_terminal r.state)) [
    | inl e ↦ rw e
    | inr e ↦ rw e (proceed-pause fuel (pause N interval t))
  ]
  proceed-info fuel (err e, t) = refl
  proceed-info fuel (hang, t) = refl

  poll-suc :
      (fuel : ℕ) (s : Session N)
      → poll N (suc fuel) batch_id interval s ≡ after_info fuel (batch_info_get N batch_id s)
  unfolding poll ◌>>=◌
  poll-suc fuel s = proceed-info fuel (batch_info_get N batch_id s)

  -- How a poll ends with a result.
  abbrev pub Found : ℕ → Session N → RunResult → Session N → Type 0
  Found fuel s r t =
      (n : ℕ) × (u : Session N) × (n < fuel)
      × Rounds n s u
      × (batch_info_get N batch_id u ≡ (ok r, t))
      × Ended r.state

  pause_over :
      (u : Session N) (w : N.World)
      → N.wait interval u.world ≡ (none, w)
      → pause N interval u ≡ (ok tt, record u { world = w })
  unfolding pause
  pause_over u w e =
      rw (e, pause) (ap {A = Option String × N.World} (λ x. (ok tt, record u { world = x.1 })) e)

  pause_cut :
      (u : Session N) (w : N.World) (m : String)
      → N.wait interval u.world ≡ (some m, w)
      → pause N interval u ≡ (err m, record u { world = w })
  unfolding pause
  pause_cut u w m e =
      rw (e, pause) (ap {A = Option String × N.World} (λ x. (err m, record u { world = x.1 })) e)

  poll-Rounds :
      (fuel n : ℕ) (s u : Session N) (r : RunResult) (t : Session N)
      → Rounds n s u
      → n < fuel
      → batch_info_get N batch_id u ≡ (ok r, t)
      → Ended r.state
      → poll N fuel batch_id interval s ≡ (ok r, t)
  unfolding after_info after_pause
  poll-Rounds zero n s u r t x le e d = absurd (omega arith)
  poll-Rounds (suc fuel) n s u r t stay le e d = rw (poll-suc, e, (is_terminal-Ended r.state).1 d)
  poll-Rounds (suc fuel) n s u r t (again {n = m} {u = v} {w = after} {r = q} f g w x) le e d =
      rw (poll-suc, f, not_terminal q.state g, pause_over v after w)
        (poll-Rounds fuel m _ u r t x (omega arith) e d)

  same_result :
      (q r : RunResult) (u t : Session N)
      → ◌≡◌ {A = Outcome RunResult × Session N} (ok q, u) (ok r, t)
      → q ≡ r
  same_result q r u t h = cc h

  module _ (fuel : ℕ) (s t : Session N) (r : RunResult)
      (ih : (v : Session N) → poll N fuel batch_id interval v ≡ (ok r, t) → Found fuel v r t) where
    by_wait :
        (q : RunResult) (u : Session N)
        → batch_info_get N batch_id s ≡ (ok q, u)
        → ¬ Ended q.state
        → (x : Option String × N.World) → N.wait interval u.world ≡ x
        → after_pause fuel (pause N interval u) ≡ (ok r, t)
        → Found (suc fuel) s r t
    unfolding after_pause
    by_wait q u e g (none, w) f h =
        let (n, v, le, x, last, d) = ih (record u { world = w }) (rw (pause_over u w f) at h) in
        (suc n, v, omega arith, again e g f x, last, d)
    by_wait q u e g (some m, w) f h = cc (rw (pause_cut u w m f) at h)

    by_info :
        (x : Outcome RunResult × Session N)
        → batch_info_get N batch_id s ≡ x
        → after_info fuel x ≡ (ok r, t)
        → Found (suc fuel) s r t
    unfolding after_info
    by_info (ok q, u) e h = elim (Bool-cases (is_terminal q.state)) [
      | inl d ↦ (
        0,
        s,
        omega arith,
        stay,
        e ∙ (rw d at h),
        subst (λ x. Ended x.state) (same_result q r u t (rw d at h))
            ((is_terminal-Ended q.state).0 d),
      )
      | inr d ↦ by_wait q u e (still_going q.state d) (N.wait interval u.world) refl (rw d at h)
    ]
    by_info (err m, u) e h = cc h
    by_info (hang, u) e h = cc h

  Found-poll :
      (fuel : ℕ) (s t : Session N) (r : RunResult)
      → poll N fuel batch_id interval s ≡ (ok r, t)
      → Found fuel s r t
  unfolding poll
  Found-poll zero s t r h = cc h
  Found-poll (suc fuel) s t r h =
      by_info fuel s t r (λ v k. Found-poll fuel v t r k) (batch_info_get N batch_id s) refl
        (sym (poll-suc fuel s) ∙ h)

  -- With fuel for so many rounds, Poll returns a result exactly if, after fewer rounds in which
  -- batchInfoGet answers with another state than Finished and Stopped and the interval is waited
  -- out, it answers with that result and one of these two states.
  pub poll-eq-ok :
      (fuel : ℕ) (s t : Session N) (r : RunResult)
      → (poll N fuel batch_id interval s ≡ (ok r, t)) ↔ (
          (n : ℕ) × (u : Session N) × (n < fuel)
          × Rounds n s u
          × (batch_info_get N batch_id u ≡ (ok r, t))
          × Ended r.state)
  poll-eq-ok fuel s t r = (
    Found-poll fuel s t r,
    λ f. let (n, u, le, x, e, d) = f in poll-Rounds fuel n s u r t x le e d,
  )

  pub poll-Ended :
      (fuel : ℕ) (s t : Session N) (r : RunResult)
      → poll N fuel batch_id interval s ≡ (ok r, t)
      → Ended r.state
  poll-Ended fuel s t r h = let (n, u, le, x, e, d) = Found-poll fuel s t r h in d
