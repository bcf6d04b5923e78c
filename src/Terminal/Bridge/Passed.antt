-- ===== src/Terminal/Bridge/Passed.antt =====
-- What one event passes on, in either direction.
use clusteration.Base.{
  ◌≡◌, ◌≢◌, if◌then◌else◌, refl, sym, ◌∙◌, ap, inl, inr, Bool, true, false, none, some, List, [],
  ◌∷◌, ◌++◌, append-nil, arith, ◌⊎◌,
}
use clusteration.Terminal.Bridge.{
  Bytes, output, typed, bytes_message, text_message, other_message, What, opened, read, read_failed,
  heard, unheard, receive_failed, Event, Phase, opening, live, over, Bridge, finish, fail,
  send_frame, check_idle, touch, write, on_payload, on_message, on_live,
}
use clusteration.Terminal.Bridge.Logs.{
  output_bytes, entered, output_bytes-append, entered-append, finish-output_bytes, finish-entered,
  fail-output_bytes, fail-entered, send_frame-entered, check_idle-output_bytes, check_idle-entered,
  on_payload-entered, on_message-output_bytes,
}

abbrev pub read_of : What → Bytes
read_of (read bs) = bs
read_of _ = []

abbrev pub typed_of : What → Bytes
typed_of (heard (bytes_message bs)) = bs
typed_of _ = []

-- What all the events have, in their order.
abbrev pub all_news : (What → Bytes) → List Event → Bytes
all_news news [] = []
all_news news (e ∷ es) = news e.what ++ all_news news es

-- The new bytes come behind those before, in their order; only a bridge that is over may lack the last.
abbrev pub Relayed : Phase → Bytes → Bytes → Bytes → Type 0
Relayed phase before after new =
    (rest : Bytes) × (before ++ new ≡ after ++ rest) × (phase ≡ live → rest ≡ [])

kept : (phase : Phase) (before after : Bytes) → after ≡ before → Relayed phase before after []
kept phase before after eq = ([], ap (λ x. x ++ []) (sym eq), λ p. refl)

Phase-cases : (p : Phase) → (p ≡ opening) ⊎ ((p ≡ live) ⊎ (p ≡ over))
Phase-cases opening = inl refl
Phase-cases live = inr (inl refl)
Phase-cases over = inr (inr refl)

pub over≢live : over ≢ live
over≢live p = cc p

fail-over : (e : Event) (b : Bridge) → (fail e b).phase ≡ over
unfolding fail finish
fail-over e b = refl

-- What is passed on, or the bridge is over.
choice-Relayed :
    (log : Bridge → Bytes) (passes : Bool) (x y : Bridge) (before bs : Bytes)
    → log x ≡ before ++ bs
    → log y ≡ before
    → y.phase ≡ over
    → Relayed (if passes then x else y).phase before (log (if passes then x else y)) bs
choice-Relayed log true x y before bs p q r = ([], sym (append-nil (log x) ∙ p), λ h. refl)
choice-Relayed log false x y before bs p q r =
    (bs, ap (λ z. z ++ bs) (sym q), λ h. absurd (over≢live (sym r ∙ h)))

check_idle-live : (e : Event) (b : Bridge) → (check_idle e b).phase ≡ live → b.phase ≡ live
unfolding check_idle
check_idle-live e b h = elim (Phase-cases b.phase) [
  | inl p ↦ absurd (ground (arith, p))
  | inr (inl p) ↦ p
  | inr (inr p) ↦ absurd (ground (arith, p))
]

sent-Relayed :
    (e : Event) (bs : Bytes) (b : Bridge)
    → Relayed
        (send_frame e (output bs) b).phase
        (output_bytes b.sent)
        (output_bytes (send_frame e (output bs) b).sent)
        bs
unfolding send_frame
sent-Relayed e bs b =
    choice-Relayed (λ x. output_bytes x.sent) e.delivers _ (fail e b) (output_bytes b.sent) bs
      (output_bytes-append b.sent (output bs ∷ [])
        ∙ ap (λ x. output_bytes b.sent ++ x) (append-nil bs))
      (fail-output_bytes e b) (fail-over e b)

pub on_live-output_bytes :
    (e : Event) (w : What) (b : Bridge)
    → Relayed
        (on_live e w b).phase
        (output_bytes b.sent)
        (output_bytes (on_live e w b).sent)
        (read_of w)
unfolding on_live
on_live-output_bytes e (read []) b = kept _ _ _ (finish-output_bytes e "ssh_error" b)
on_live-output_bytes e (read (c ∷ bs)) b = sent-Relayed e (c ∷ bs) b
on_live-output_bytes e read_failed b = kept _ _ _ (fail-output_bytes e b)
on_live-output_bytes e (heard m) b =
    kept _ _ _ (check_idle-output_bytes e (on_message e m b) ∙ on_message-output_bytes e m b)
on_live-output_bytes e unheard b = kept _ _ _ (check_idle-output_bytes e b)
on_live-output_bytes e receive_failed b = kept _ _ _ (fail-output_bytes e b)
on_live-output_bytes e (opened ok) b = kept _ _ _ refl

typed-Relayed :
    (e : Event) (bs : Bytes) (b : Bridge)
    → Relayed
        (write e (typed bs) b).phase
        (entered b.shell)
        (entered (write e (typed bs) b).shell)
        bs
unfolding write
typed-Relayed e bs b =
    choice-Relayed (λ x. entered x.shell) e.writes _ (fail e b) (entered b.shell) bs
      (entered-append b.shell (typed bs ∷ []) ∙ ap (λ x. entered b.shell ++ x) (append-nil bs))
      (fail-entered e b) (fail-over e b)

-- The head of the loop passes nothing on, and keeps a bridge over that is.
checked-Relayed :
    (e : Event) (b : Bridge) (before new : Bytes)
    → Relayed b.phase before (entered b.shell) new
    → Relayed (check_idle e b).phase before (entered (check_idle e b).shell) new
checked-Relayed e b before new (rest, eq, full) = (
  rest,
  eq ∙ ap (λ x. x ++ rest) (sym (check_idle-entered e b)),
  λ h. full (check_idle-live e b h),
)

pub on_live-entered :
    (e : Event) (w : What) (b : Bridge)
    → Relayed (on_live e w b).phase (entered b.shell) (entered (on_live e w b).shell) (typed_of w)
unfolding on_live on_message touch
on_live-entered e (read []) b = kept _ _ _ (finish-entered e "ssh_error" b)
on_live-entered e (read (c ∷ bs)) b = kept _ _ _ (send_frame-entered e (output (c ∷ bs)) b)
on_live-entered e read_failed b = kept _ _ _ (fail-entered e b)
on_live-entered e (heard (bytes_message bs)) b =
    checked-Relayed e _ _ bs (typed-Relayed e bs (touch e b))
on_live-entered e (heard (text_message (some j))) b =
    kept _ _ _ (check_idle-entered e (on_payload e j b) ∙ on_payload-entered e j b)
on_live-entered e (heard (text_message none)) b =
    kept _ _ _ (check_idle-entered e (fail e b) ∙ fail-entered e b)
on_live-entered e (heard other_message) b = kept _ _ _ (check_idle-entered e b)
on_live-entered e unheard b = kept _ _ _ (check_idle-entered e b)
on_live-entered e receive_failed b = kept _ _ _ (fail-entered e b)
on_live-entered e (opened ok) b = kept _ _ _ refl
