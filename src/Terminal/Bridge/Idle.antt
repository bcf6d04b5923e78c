-- ===== src/Terminal/Bridge/Idle.antt =====
-- The bridge does not outlive half an hour without input.
use clusteration.Base.{
  ℕ, ◌+◌, ◌-◌, ◌≤◌, ◌≡◌, ◌≢◌, refl, subst, sym, ◌∙◌, ap, ◌⊎◌, inl, inr, Bool, true, false, ◌||◌,
  Option, none, some, List, [], ◌∷◌, any, ltb, leb, if◌then◌else◌, arith,
}
use clusteration.Base.Json.{ℤ, Json, obj, get, int}
use clusteration.Terminal.Bridge.Passed.{over≢live}
use clusteration.Terminal.Bridge.{
  Frame, output, pong, status_frame, Input, typed, resized, Message, bytes_message, text_message,
  other_message, What, opened, read, read_failed, heard, unheard, receive_failed, Event, Phase,
  opening, live, over, Bridge, finish, tell_error, fail, send_frame, idle_at, check_idle, touch,
  write, resize_shell, is_type, on_payload, on_message, on_live, on_opening, step_at, step, steps,
}

-- A message that counts as input: bytes, a resize or a ping.
abbrev pub is_input : What → Bool
is_input (heard (bytes_message bs)) = true
is_input (heard (text_message (some (obj d)))) = is_type "resize" d || is_type "ping" d
is_input _ = false

-- The times of the inputs
abbrev pub input_times : List Event → List ℕ
input_times [] = []
input_times (e ∷ es) =
    let later = input_times es in if is_input e.what then e.now ∷ later else later

-- The time of the last input is that before, or now.
abbrev Moved : Event → What → Bridge → Bridge → Type 0
Moved e w b x = (x.last_input ≡ b.last_input) ⊎ ((is_input w ≡ true) × (x.last_input ≡ e.now))

module _ (e : Event) where
  fail-last : (b : Bridge) → (fail e b).last_input ≡ b.last_input
  unfolding fail finish tell_error
  fail-last b = refl

  either-last :
      (d : Bool) (x y : Bridge) (n : ℕ)
      → x.last_input ≡ n
      → y.last_input ≡ n
      → (if d then x else y).last_input ≡ n
  either-last true x y n p q = p
  either-last false x y n p q = q

  send-last : (f : Frame) (b : Bridge) → (send_frame e f b).last_input ≡ b.last_input
  unfolding send_frame
  send-last f b = either-last e.delivers _ (fail e b) _ refl (fail-last b)

  write-last : (i : Input) (b : Bridge) → (write e i b).last_input ≡ b.last_input
  unfolding write
  write-last i b = either-last e.writes _ (fail e b) _ refl (fail-last b)

  idle_at-last : (p : Phase) (b : Bridge) → (idle_at p e b).last_input ≡ b.last_input
  unfolding idle_at finish
  idle_at-last live b =
      either-last (ltb 1800 (e.now - b.last_input)) (finish e "inactivity_timeout" b) b _ refl refl
  idle_at-last opening b = refl
  idle_at-last over b = refl

  check_idle-last : (b : Bridge) → (check_idle e b).last_input ≡ b.last_input
  unfolding check_idle
  check_idle-last b = idle_at-last b.phase b

  resize-last : (c r : Option ℤ) (b : Bridge) → (resize_shell e c r b).last_input ≡ b.last_input
  unfolding resize_shell
  resize-last (some c) (some r) b = write-last (resized c r) b
  resize-last none r b = fail-last b
  resize-last (some c) none b = fail-last b

  branch :
      (w : What) (b : Bridge) (c : Bool) (x y : Bridge)
      → (c ≡ true → Moved e w b x)
      → (c ≡ false → Moved e w b y)
      → Moved e w b (if c then x else y)
  branch w b true x y k l = k refl
  branch w b false x y k l = l refl

  on_payload-Moved :
      (j : Json) (b : Bridge) → Moved e (heard (text_message (some j))) b (on_payload e j b)
  unfolding on_payload touch
  on_payload-Moved (obj d) b =
      branch (heard (text_message (some (obj d)))) b (is_type "resize" d) _ _
        (λ p.
          inr
            (ground (arith, p), resize-last (int (get "cols" d)) (int (get "rows" d)) (touch e b)))
        λ p.
          branch (heard (text_message (some (obj d)))) b (is_type "ping" d) _ _
            (λ q. inr (ground (arith, q), send-last pong (touch e b))) λ q. inl refl
  on_payload-Moved j b = inl (fail-last b)

  on_message-Moved : (m : Message) (b : Bridge) → Moved e (heard m) b (on_message e m b)
  unfolding on_message touch
  on_message-Moved (bytes_message bs) b = inr (refl, write-last (typed bs) (touch e b))
  on_message-Moved (text_message (some j)) b = on_payload-Moved j b
  on_message-Moved (text_message none) b = inl (fail-last b)
  on_message-Moved other_message b = inl refl

  checked-Moved : (w : What) (b x : Bridge) → Moved e w b x → Moved e w b (check_idle e x)
  checked-Moved w b x (inl p) = inl (check_idle-last x ∙ p)
  checked-Moved w b x (inr (i, p)) = inr (i, check_idle-last x ∙ p)

  on_live-Moved : (w : What) (b : Bridge) → Moved e w b (on_live e w b)
  unfolding on_live finish
  on_live-Moved (read []) b = inl refl
  on_live-Moved (read (c ∷ bs)) b = inl (send-last (output (c ∷ bs)) b)
  on_live-Moved read_failed b = inl (fail-last b)
  on_live-Moved (heard m) b = checked-Moved (heard m) b _ (on_message-Moved m b)
  on_live-Moved unheard b = inl (check_idle-last b)
  on_live-Moved receive_failed b = inl (fail-last b)
  on_live-Moved (opened ok) b = inl refl

  on_opening-Moved : (w : What) (b : Bridge) → Moved e w b (on_opening e w b)
  unfolding on_opening
  on_opening-Moved (opened true) b =
      inl (check_idle-last _ ∙ send-last (status_frame "connected") _)
  on_opening-Moved (opened false) b = inl (fail-last b)
  on_opening-Moved w b = inl refl

  step_at-Moved : (p : Phase) (b : Bridge) → Moved e e.what b (step_at p e b)
  unfolding step_at
  step_at-Moved opening b = on_opening-Moved e.what b
  step_at-Moved live b = on_live-Moved e.what b
  step_at-Moved over b = inl refl

-- The time of the last input is that at the beginning, or of one of the inputs.
steps-last :
    (P : ℕ → Bool) (es : List Event) (b : Bridge)
    → P (steps es b).last_input ≡ true
    → any P (b.last_input ∷ input_times es) ≡ true
unfolding steps step
steps-last P [] b h = ground (arith, h)
steps-last P (e ∷ es) b h = elim (step_at-Moved e b.phase b) [
  | inl p ↦ let rec = steps-last P es (step e b) h in ground (arith, rec, ap P p)
  | inr (i, p) ↦ let rec = steps-last P es (step e b) h in ground (arith, rec, i, ap P p)
]

idle_at-recent :
    (e : Event) (b : Bridge) → (idle_at live e b).phase ≡ live → e.now ≤ b.last_input + 1800
unfolding idle_at finish
idle_at-recent e b h = ground (arith, h)

opening≢live : opening ≢ live
opening≢live p = cc p

step_at-recent :
    (e : Event) (b : Bridge) (p : Phase)
    → e.what ≡ unheard
    → b.phase ≡ p
    → (step_at p e b).phase ≡ live
    → leb e.now (b.last_input + 1800) ≡ true
unfolding step_at on_live on_opening check_idle
step_at-recent e b live silent at h =
    let checked : (on_live e unheard b).phase ≡ live =
      subst (λ w. (on_live e w b).phase ≡ live) silent h in
    let now_live : (idle_at live e b).phase ≡ live =
      subst (λ x. (idle_at x e b).phase ≡ live) at checked in
    let recent = idle_at-recent e b now_live in ground (arith, recent)
step_at-recent e b opening silent at h =
    let same : b.phase ≡ live = subst (λ w. (on_opening e w b).phase ≡ live) silent h in
    absurd (opening≢live (sym at ∙ same))
step_at-recent e b over silent at h = absurd (over≢live (sym at ∙ h))

-- A bridge that lives on when its browser has been silent has had an input, or has begun, within the last
-- half hour.
pub steps-recent :
    (es : List Event) (b : Bridge) (e : Event)
    → e.what ≡ unheard
    → (step e (steps es b)).phase ≡ live
    → any (λ i. leb e.now (i + 1800)) (b.last_input ∷ input_times es) ≡ true
unfolding step
steps-recent es b e silent h =
    steps-last (λ i. leb e.now (i + 1800)) es b
      (step_at-recent e (steps es b) (steps es b).phase silent refl h)
