-- ===== src/Terminal/Bridge/Relay.antt =====
-- The bridge loses and reorders nothing of what it passes on, in either direction.
use mathlib.Core.List.{append_assoc}
use clusteration.Base.{◌≡◌, refl, subst, sym, ◌∙◌, ap, inl, inr, List, [], ◌∷◌, ◌++◌, append-nil}
use clusteration.Terminal.Bridge.{
  Bytes, What, Event, Phase, live, over, Bridge, on_live, step_at, step, steps,
}
use clusteration.Entities.{TerminalSession}
use clusteration.Terminal.Bridge.Closing.{StandsAt, on_live-IsSound}
use clusteration.Terminal.Bridge.Logs.{output_bytes, entered}
use clusteration.Terminal.Bridge.Passed.{
  read_of, typed_of, all_news, Relayed, over≢live, on_live-output_bytes, on_live-entered,
}

steps-over : (es : List Event) (b : Bridge) → b.phase ≡ over → steps es b ≡ b
unfolding steps step step_at
steps-over [] b p = refl
steps-over (e ∷ es) b p =
    let same : step e b ≡ b = subst (λ x. step_at x e b ≡ b) (sym p) refl in
    ap (steps es) same ∙ steps-over es b p

-- A log of the bridge, with what each event has for it.
module _ (log : Bridge → Bytes) (news : What → Bytes)
    (passes : (e : Event) (w : What) (b : Bridge)
      → Relayed (on_live e w b).phase (log b) (log (on_live e w b)) (news w)) where
  -- Behind a live bridge what follows is passed on, behind one that is over nothing.
  behind_live :
      (phase : Phase) (before mid after new more rest : Bytes)
      → before ++ new ≡ mid ++ rest
      → rest ≡ []
      → Relayed phase mid after more
      → Relayed phase before after (new ++ more)
  behind_live phase before mid after new more rest eq none_left (rest', eq', full) = (
    rest',
    sym (append_assoc before new more)
        ∙ ap (λ x. x ++ more) (eq ∙ ap (λ x. mid ++ x) none_left ∙ append-nil mid)
        ∙ eq',
    full,
  )

  behind_over :
      (phase : Phase) (before after new more rest : Bytes)
      → before ++ new ≡ after ++ rest
      → phase ≡ over
      → Relayed phase before after (new ++ more)
  behind_over phase before after new more rest eq p = (
    rest ++ more,
    sym (append_assoc before new more) ∙ ap (λ x. x ++ more) eq ∙ append_assoc after rest more,
    λ h. absurd (over≢live (sym p ∙ h)),
  )

  steps-Relayed :
      (row : TerminalSession) (es : List Event) (b : Bridge)
      → StandsAt live row b
      → Relayed (steps es b).phase (log b) (log (steps es b)) (all_news news es)
  unfolding steps step step_at
  steps-Relayed row [] b h = ([], refl, λ p. refl)
  steps-Relayed row (e ∷ es) b (p, q, r) =
      let x : Bridge = on_live e e.what b in
      let same : step e b ≡ x = ap (λ y. step_at y e b) p in
      let (rest, eq, full) = passes e e.what b in
      subst (λ y. Relayed (steps es y).phase (log b) (log (steps es y)) (all_news news (e ∷ es)))
        (sym same)
        (elim (on_live-IsSound row e e.what b (p, q, r)) [
          | inl stands ↦
              behind_live (steps es x).phase (log b) (log x) (log (steps es x)) (news e.what)
                (all_news news es) rest eq (full stands.0) (steps-Relayed row es x stands)
          | inr ended_now ↦
              subst (λ y. Relayed y.phase (log b) (log y) (all_news news (e ∷ es)))
                (sym (steps-over es x ended_now.0))
                (behind_over x.phase (log b) (log x) (news e.what) (all_news news es) rest eq
                  ended_now.0)
        ])

-- Of a bridge that is live, whatever happens to it: what the browser has got of the shell's output, and
-- what the shell has got of the browser's bytes, are what has come, in its order; a bridge that is still
-- live has passed on all of it, one that is over may lack the end.
pub steps-relays :
    (row : TerminalSession) (es : List Event) (b : Bridge)
    → StandsAt live row b
    → Relayed
        (steps es b).phase
        (output_bytes b.sent)
        (output_bytes (steps es b).sent)
        (all_news read_of es)
      × Relayed
          (steps es b).phase
          (entered b.shell)
          (entered (steps es b).shell)
          (all_news typed_of es)
steps-relays row es b h = (
  steps-Relayed (λ x. output_bytes x.sent) read_of on_live-output_bytes row es b h,
  steps-Relayed (λ x. entered x.shell) typed_of on_live-entered row es b h,
)
