-- ===== src/Server/Lifecycle/Channel.antt =====
-- The goroutine of a listener and its channel: internal/server/lifecycle.go and the goroutines of
-- `Start` of internal/server/dns.go.
use oastrix.Server.Lifecycle.{
  returned, ServeError, Phase, idle, serving, sending, closing, ended, Listener, after_serving,
  Runs, receive,
}
use oastrix.Prelude.{
  ℕ, ◌<◌, ◌≡◌, ◌≢◌, ◌⊎◌, refl, Bool, true, false, Option, none, some, arith, inl, inr, Bool-cases,
  Option-cases, ap, subst,
}

-- How many steps a goroutine can still take.
abbrev pub steps_left : Phase → ℕ
steps_left idle = 3
steps_left serving = 3
steps_left (sending e) = 2
steps_left closing = 1
steps_left ended = 0

module _ (test : ServeError → Bool) where
  after_serving_below : (o : Option ServeError) → steps_left (after_serving test o) < 3
  after_serving_below none = omega arith
  after_serving_below (some e) = ground arith

  pub Runs-steps_left :
      (l l' : Listener) → Runs test l l' → steps_left l'.phase < steps_left l.phase
  Runs-steps_left l l' (Runs.serve o h) = rw h (after_serving_below o)
  Runs-steps_left l l' (Runs.send e h room) = rw h (omega arith)
  Runs-steps_left l l' (Runs.close h) = rw h (omega arith)

  -- An error that passes the test and is what the listener returned.
  abbrev pub IsReport : ServeError → Option (Option ServeError) → Type 0
  IsReport e outcome = (outcome ≡ some (some e)) × (test e ≡ true)

  abbrev pub IsHeld : Option ServeError → Option (Option ServeError) → Type 0
  IsHeld none outcome = Unit
  IsHeld (some e) outcome = IsReport e outcome

  abbrev pub IsInPhase : Phase → Option ServeError → Bool → Option (Option ServeError) → Type 0
  IsInPhase idle buffer closed outcome = (buffer ≡ none) × (closed ≡ false) × (outcome ≡ none)
  IsInPhase serving buffer closed outcome = (buffer ≡ none) × (closed ≡ false) × (outcome ≡ none)
  IsInPhase (sending e) buffer closed outcome =
      (buffer ≡ none) × (closed ≡ false) × IsReport e outcome
  IsInPhase closing buffer closed outcome = (closed ≡ false) × IsHeld buffer outcome
  IsInPhase ended buffer closed outcome = (closed ≡ true) × IsHeld buffer outcome

  -- What holds of a goroutine and its channel: an error that is to be sent finds room; what is in
  -- the channel, or is to be sent, is what the listener returned, and passes the test; and the
  -- channel is closed once the goroutine has ended, and not before.
  abbrev pub IsSound : Listener → Type 0
  IsSound l = IsInPhase l.phase l.buffer l.closed l.outcome

  served-IsInPhase :
      (o : Option ServeError) (buffer : Option ServeError) (closed : Bool)
      → buffer ≡ none
      → closed ≡ false
      → IsInPhase (after_serving test o) buffer closed (some o)
  served-IsInPhase none buffer closed b c = (c, rw b tt)
  served-IsInPhase (some e) buffer closed b c = elim (Bool-cases (test e)) [
    | inl passes ↦ rw passes (b, c, (refl, passes))
    | inr fails ↦ rw fails (c, rw b tt)
  ]

  -- No step of a goroutine breaks this.
  pub Runs-IsSound : (l l' : Listener) → Runs test l l' → IsSound l → IsSound l'
  Runs-IsSound l l' (Runs.serve o h) s =
      let (b, c, unset) = rw h at s in served-IsInPhase o l.buffer l.closed b c
  Runs-IsSound l l' (Runs.send e h room) s = let (b, c, report) = rw h at s in (c, report)
  Runs-IsSound l l' (Runs.close h) s = let (c, held) = rw h at s in (refl, held)

  after_serving-begun : (o : Option ServeError) → after_serving test o ≢ idle
  after_serving-begun none h = cc
  after_serving-begun (some e) h = ground arith

  -- A goroutine that takes a step was begun.
  pub Runs-begun : (l l' : Listener) → Runs test l l' → (l.phase ≢ idle) × (l'.phase ≢ idle)
  Runs-begun l l' (Runs.serve o h) = (λ i. cc, after_serving-begun o)
  Runs-begun l l' (Runs.send e h room) = (λ i. cc, λ i. cc)
  Runs-begun l l' (Runs.close h) = (λ i. cc, λ i. cc)

  -- What the listener returned stays as it is.
  pub Runs-outcome :
      (l l' : Listener) (o : Option ServeError)
      → Runs test l l'
      → IsSound l
      → l.outcome ≡ some o
      → l'.outcome ≡ some o
  Runs-outcome l l' o (Runs.serve x h) s set = let (b, c, unset) = rw h at s in cc
  Runs-outcome l l' o (Runs.send e h room) s set = set
  Runs-outcome l l' o (Runs.close h) s set = set

  receive_of-IsSound :
      (phase : Phase) (b : Option ServeError) (c : Bool) (r : Option (Option ServeError))
      → IsInPhase phase b c r
      → IsInPhase phase none c r
  receive_of-IsSound idle b c r s = let (empty, live, unset) = s in (refl, live, unset)
  receive_of-IsSound serving b c r s = let (empty, live, unset) = s in (refl, live, unset)
  receive_of-IsSound (sending e) b c r s = let (empty, live, report) = s in (refl, live, report)
  receive_of-IsSound closing b c r s = (s.0, tt)
  receive_of-IsSound ended b c r s = (s.0, tt)

  unwrapped : {A : Type 0} (d a b : A) → some a ≡ some b → a ≡ b
  unwrapped d a b = ap (λ o. elim o [ none ↦ d | some x ↦ x ])

  -- Nor does a receive.
  pub receive-IsSound :
      (l l' : Listener) (o : Option ServeError) → receive l ≡ some (o, l') → IsSound l → IsSound l'
  receive-IsSound l l' o h s = elim (Option-cases l.buffer) [
    | inr (e, full) ↦
        subst (λ (p : Option ServeError × Listener). IsSound p.1)
          (unwrapped (o, l') (some e, record l { buffer = none }) (o, l') (rw full at h))
          (receive_of-IsSound l.phase l.buffer l.closed l.outcome s)
    | inl empty ↦ elim (Bool-cases l.closed) [
      | inl shut ↦
          subst (λ (p : Option ServeError × Listener). IsSound p.1)
            (unwrapped (o, l') (none, record l { buffer = none; closed = true }) (o, l')
              (rw (empty, shut) at h))
            (rw (empty, shut) at s)
      | inr live ↦ cc (rw (empty, live) at h)
    ]
  ]

  receive-full :
      (l l' : Listener) (e : ServeError) → receive l ≡ some (some e, l') → l.buffer ≡ some e
  receive-full l l' e h = ground arith

  held-IsReport :
      (phase : Phase) (b : Option ServeError) (c : Bool) (r : Option (Option ServeError))
      (e : ServeError)
      → b ≡ some e
      → IsInPhase phase b c r
      → IsReport e r
  held-IsReport idle b c r e full s = cc (s.0)
  held-IsReport serving b c r e full s = cc (s.0)
  held-IsReport (sending x) b c r e full s = let (empty, live, report) = s in cc
  held-IsReport closing b c r e full s = let held = rw full at s.1 in held
  held-IsReport ended b c r e full s = let held = rw full at s.1 in held

  -- A receive leaves the goroutine where it stands, and what the listener returned.
  pub receive-same :
      (l l' : Listener) (o : Option ServeError)
      → receive l ≡ some (o, l')
      → (l'.phase ≡ l.phase) × (l'.outcome ≡ l.outcome)
  receive-same l l' o h = ground arith

  -- An error that is received is what the listener returned, and passes the test.
  pub receive-IsReport :
      (l l' : Listener) (e : ServeError)
      → receive l ≡ some (some e, l')
      → IsSound l
      → IsReport e l.outcome
  receive-IsReport l l' e h s =
      held-IsReport l.phase l.buffer l.closed l.outcome e (receive-full l l' e h) s

  -- A goroutine that was begun has a step until it has ended.
  pub goroutine_progresses :
      (phase : Phase) (l : Listener)
      → l.phase ≡ phase
      → IsSound l
      → phase ≢ idle
      → (phase ≡ ended) ⊎ ((l' : Listener) × Runs test l l')
  goroutine_progresses idle l h s b = absurd (b refl)
  goroutine_progresses serving l h s b = inr (returned test none l, Runs.serve none h)
  goroutine_progresses (sending e) l h s b =
      let (room, live, report) = rw h at s in
      inr (record l { buffer = some e; phase = closing }, Runs.send e h room)
  goroutine_progresses closing l h s b =
      inr (record l { closed = true; phase = ended }, Runs.close h)
  goroutine_progresses ended l h s b = inl refl
