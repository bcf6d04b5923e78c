-- ===== src/Terminal/Bridge/Closing.antt =====
-- A bridge leaves its session closed, and tells the browser of the end at most once, behind all else.
use clusteration.Base.{
  ℕ, suc, ◌+◌, ◌-◌, ◌≤◌, ◌≡◌, subst, refl, sym, ◌⊎◌, inl, inr, String, Bool, true, false, Option,
  none, some, List, [], ◌∷◌, ◌++◌, ltb, if◌then◌else◌, arith,
}
use clusteration.Base.Json.{ℤ, Json, obj, get, int}
use clusteration.Entities.{Vm, TerminalSession, closed}
use clusteration.Terminal.{validate_and_claim_session}
use clusteration.Database.{Db}
use clusteration.Terminal.Bridge.{
  Frame, status_frame, output, pong, error_frame, ended, rejected, Input, typed, resized, Message,
  bytes_message, text_message, other_message, What, opened, read, read_failed, heard, unheard,
  receive_failed, Event, Phase, opening, live, over, Bridge, finish, tell_error, fail, send_frame,
  idle_at, check_idle, touch, write, resize_shell, on_payload, on_message, on_live, on_opening,
  step_at, step, steps, start_at, begin, terminal_websocket,
}

-- The frames that tell of the end, and those behind the first of them.
abbrev pub endings : List Frame → ℕ
endings [] = 0
endings (ended r ∷ fs) = suc (endings fs)
endings (f ∷ fs) = endings fs

endings-append : (fs gs : List Frame) → endings (fs ++ gs) ≡ endings fs + endings gs
endings-append [] gs = omega arith
endings-append (ended r ∷ fs) gs = omega (arith, endings-append fs gs)
endings-append (output bs ∷ fs) gs = endings-append fs gs
endings-append (status_frame s ∷ fs) gs = endings-append fs gs
endings-append (pong ∷ fs) gs = endings-append fs gs
endings-append (error_frame s ∷ fs) gs = endings-append fs gs
endings-append (rejected n ∷ fs) gs = endings-append fs gs

-- The row is as it was, and nothing tells of an end.
abbrev pub StandsAt : Phase → TerminalSession → Bridge → Type 0
StandsAt phase row b = (b.phase ≡ phase) × (b.row ≡ row) × (endings b.sent ≡ 0)

abbrev pub IsOver : TerminalSession → Bridge → Type 0
IsOver row b =
    (b.phase ≡ over)
    × ((utc : ℕ) × (b.row ≡ record row { status = closed; closed_at = some utc }))
    × (endings b.sent ≤ 1)

abbrev pub IsSound : TerminalSession → Bridge → Type 0
IsSound row b = StandsAt live row b ⊎ IsOver row b

module _ (row : TerminalSession) (e : Event) where
  finish-IsOver :
      (reason : String) (b : Bridge)
      → b.row ≡ row
      → endings b.sent ≡ 0
      → IsOver row (finish e reason b)
  unfolding finish
  finish-IsOver reason b p q =
      (refl, (e.utc, cc p), ground (arith, endings-append b.sent (ended reason ∷ [])))

  tell_error-endings : (b : Bridge) → endings b.sent ≡ 0 → endings (tell_error e b).sent ≡ 0
  unfolding tell_error
  tell_error-endings b q =
      ground (arith, endings-append b.sent (error_frame "erro ao conectar no terminal" ∷ []))

  fail-IsOver : (b : Bridge) → b.row ≡ row → endings b.sent ≡ 0 → IsOver row (fail e b)
  unfolding fail tell_error
  fail-IsOver b p q = finish-IsOver "ssh_error" (tell_error e b) p (tell_error-endings b q)

  -- Of two ways on, whichever is taken.
  either :
      (d : Bool) (x y : Bridge) → IsSound row x → IsSound row y → IsSound row (if d then x else y)
  either true x y k l = k
  either false x y k l = l

  fail-IsSound : (b : Bridge) → StandsAt live row b → IsSound row (fail e b)
  fail-IsSound b (p, q, r) = inr (fail-IsOver b q r)

  send_frame-IsSound :
      (f : Frame) (b : Bridge)
      → endings (f ∷ []) ≡ 0
      → StandsAt live row b
      → IsSound row (send_frame e f b)
  unfolding send_frame
  send_frame-IsSound f b no_end (p, q, r) =
      either e.delivers _ (fail e b) (inl (p, q, omega (arith, endings-append b.sent (f ∷ []))))
        (fail-IsSound b (p, q, r))

  check_idle-IsSound : (b : Bridge) → IsSound row b → IsSound row (check_idle e b)
  unfolding check_idle idle_at
  check_idle-IsSound b (inl (p, q, r)) =
      subst (λ x. IsSound row (idle_at x e b)) (sym p)
        (either (ltb 1800 (e.now - b.last_input)) (finish e "inactivity_timeout" b) b
          (inr (finish-IsOver _ b q r)) (inl (p, q, r)))
  check_idle-IsSound b (inr (p, ended_at, once)) =
      subst (λ x. IsSound row (idle_at x e b)) (sym p) (inr (p, ended_at, once))

  write-IsSound : (i : Input) (b : Bridge) → StandsAt live row b → IsSound row (write e i b)
  unfolding write
  write-IsSound i b h = either e.writes _ (fail e b) (inl h) (fail-IsSound b h)

  resize_shell-IsSound :
      (cols rows : Option ℤ) (b : Bridge)
      → StandsAt live row b
      → IsSound row (resize_shell e cols rows b)
  unfolding resize_shell
  resize_shell-IsSound (some c) (some r) b h = write-IsSound (resized c r) b h
  resize_shell-IsSound none r b h = fail-IsSound b h
  resize_shell-IsSound (some c) none b h = fail-IsSound b h

  on_payload-IsSound :
      (j : Json) (b : Bridge) → StandsAt live row b → IsSound row (on_payload e j b)
  unfolding on_payload touch
  on_payload-IsSound (obj d) b h =
      either _ _ _ (resize_shell-IsSound (int (get "cols" d)) (int (get "rows" d)) (touch e b) h)
        (either _ _ _ (send_frame-IsSound pong (touch e b) refl h) (inl h))
  on_payload-IsSound j b h = fail-IsSound b h

  on_message-IsSound :
      (m : Message) (b : Bridge) → StandsAt live row b → IsSound row (on_message e m b)
  unfolding on_message touch
  on_message-IsSound (bytes_message bs) b h = write-IsSound (typed bs) (touch e b) h
  on_message-IsSound (text_message (some j)) b h = on_payload-IsSound j b h
  on_message-IsSound (text_message none) b h = fail-IsSound b h
  on_message-IsSound other_message b h = inl h

  pub on_live-IsSound : (w : What) (b : Bridge) → StandsAt live row b → IsSound row (on_live e w b)
  unfolding on_live
  on_live-IsSound (read []) b (p, q, r) = inr (finish-IsOver "ssh_error" b q r)
  on_live-IsSound (read (c ∷ bs)) b h = send_frame-IsSound (output (c ∷ bs)) b refl h
  on_live-IsSound read_failed b h = fail-IsSound b h
  on_live-IsSound (heard m) b h = check_idle-IsSound (on_message e m b) (on_message-IsSound m b h)
  on_live-IsSound unheard b h = check_idle-IsSound b (inl h)
  on_live-IsSound receive_failed b h = fail-IsSound b h
  on_live-IsSound (opened ok) b h = inl h

  on_opening-IsSound :
      (w : What) (b : Bridge)
      → StandsAt opening row b
      → StandsAt opening row (on_opening e w b) ⊎ IsSound row (on_opening e w b)
  unfolding on_opening
  on_opening-IsSound (opened true) b (p, q, r) =
      inr (check_idle-IsSound _ (send_frame-IsSound (status_frame "connected") _ refl (refl, q, r)))
  on_opening-IsSound (opened false) b (p, q, r) = inr (inr (fail-IsOver b q r))
  on_opening-IsSound w b h = inl h

-- The bridge stands or is over.
abbrev pub IsBridge : TerminalSession → Bridge → Type 0
IsBridge row b = StandsAt opening row b ⊎ IsSound row b

module _ (row : TerminalSession) where
  step-IsBridge : (e : Event) (b : Bridge) → IsBridge row b → IsBridge row (step e b)
  unfolding step step_at
  step-IsBridge e b (inl (p, q, r)) =
      subst (λ x. IsBridge row (step_at x e b)) (sym p)
        (on_opening-IsSound row e e.what b (p, q, r))
  step-IsBridge e b (inr (inl (p, q, r))) =
      subst (λ x. IsBridge row (step_at x e b)) (sym p)
        (inr (on_live-IsSound row e e.what b (p, q, r)))
  step-IsBridge e b (inr (inr (p, ended_at, once))) =
      subst (λ x. IsBridge row (step_at x e b)) (sym p) (inr (inr (p, ended_at, once)))

  steps-IsBridge : (es : List Event) (b : Bridge) → IsBridge row b → IsBridge row (steps es b)
  unfolding steps
  steps-IsBridge [] b h = h
  steps-IsBridge (e ∷ es) b h = steps-IsBridge es (step e b) (step-IsBridge e b h)

begin-StandsAt :
    (now : ℕ) (claimed : Option (TerminalSession × Vm)) (b : Bridge)
    → begin now claimed ≡ inr b
    → StandsAt opening b.row b
unfolding begin
begin-StandsAt now none b h = absurd (cc h)
begin-StandsAt now (some (ts, vm)) b h =
    let eq : start_at now ts ≡ b = cc h in
    subst (λ (x : Bridge). StandsAt opening x.row x) eq (refl, refl, refl)

begun :
    (now utc : ℕ) (sid : Option ℕ) (db : Db) (b : Bridge)
    → (terminal_websocket now utc sid db).0 ≡ inr b
    → StandsAt opening b.row b
unfolding terminal_websocket
begun now utc sid db b h = begin-StandsAt now (validate_and_claim_session utc sid db).0 b h

-- Whatever happens to a bridge that has begun: as long as it is not over, its session stays as it was
-- claimed, and no frame has told of an end; once it is over, its session is closed with a time, and at
-- most one frame has.
pub terminal_websocket-closes :
    (now utc : ℕ) (sid : Option ℕ) (db : Db) (b : Bridge) (es : List Event)
    → (terminal_websocket now utc sid db).0 ≡ inr b
    → IsBridge b.row (steps es b)
terminal_websocket-closes now utc sid db b es h =
    steps-IsBridge b.row es b (inl (begun now utc sid db b h))
