-- ===== src/Base/Exec/Keeps.antt =====
-- Conditions on the state that a call does not break.
use Prim.Native.String.{String}
use mathlib.Core.Bool.{Bool, true, false}
use clusteration.Base.Tests.{if◌then◌else◌}
use clusteration.Base.Exec.{
  Exc, proxmox, ProxmoxKind, Result, ok, err, Exec, pure, raise, of_result, gets, try_except,
  on_proxmox, raise_if, ◌>>=◌,
}

-- Behind the call, returned from or raised in, the condition holds again.
pub record Keeps {ℓ} {S A : Type ℓ} (P : S → Type ℓ) (m : Exec S A) : Type ℓ where
  pub at : (before : S) → P before → P (m before).1

module _ {ℓ} {S A B : Type ℓ} {P : S → Type ℓ} where
  after_result :
      (k : A → Exec S B)
      → ((a : A) → Keeps P (k a))
      → (r : Result A) (mid : S) → P mid
      → P (((λ _. (r, mid)) >>= k) mid).1
  unfolding ◌>>=◌
  after_result k keeps (ok a) mid p = (keeps a).at mid p
  after_result k keeps (err e) mid p = p

  pub Keeps-bind :
      (first : Exec S A) (k : A → Exec S B)
      → Keeps P first
      → ((a : A) → Keeps P (k a))
      → Keeps P (first >>= k)
  unfolding ◌>>=◌
  Keeps-bind first k kept keeps = record {
    at = λ before p. let (r, mid) = first before in after_result k keeps r mid (kept.at before p);
  }

module _ {ℓ} {S A : Type ℓ} {P : S → Type ℓ} where
  handled :
      (h : Exc → Exec S A)
      → ((e : Exc) → Keeps P (h e))
      → (r : Result A) (mid : S) → P mid
      → P (try_except (λ _. (r, mid)) h mid).1
  unfolding try_except
  handled h keeps (ok a) mid p = p
  handled h keeps (err e) mid p = (keeps e).at mid p

  pub Keeps-try :
      (body : Exec S A) (h : Exc → Exec S A)
      → Keeps P body
      → ((e : Exc) → Keeps P (h e))
      → Keeps P (try_except body h)
  unfolding try_except
  Keeps-try body h kept keeps = record {
    at = λ before p. let (r, mid) = body before in handled h keeps r mid (kept.at before p);
  }

  pub Keeps-if :
      (test : Bool) (this that : Exec S A)
      → Keeps P this
      → Keeps P that
      → Keeps P (if test then this else that)
  Keeps-if false this that k l = l
  Keeps-if true this that k l = k

  pub Keeps-gets : (read : S → A) → Keeps P (gets read)
  unfolding gets
  Keeps-gets read = record { at = λ before p. p }

  pub Keeps-of_result : (r : Result A) → Keeps P (of_result r)
  unfolding of_result
  Keeps-of_result r = record { at = λ before p. p }

  pub Keeps-raise : (e : Exc) → Keeps P (raise {A = A} e)
  unfolding raise
  Keeps-raise e = record { at = λ before p. p }

  pub Keeps-pure : (a : A) → Keeps P (pure a)
  unfolding pure
  Keeps-pure a = record { at = λ before p. p }

module _ {S : Type 0} {P : S → Type 0} where
  pub Keeps-raise_if : (b : Bool) (e : Exc) → Keeps P (raise_if b e)
  unfolding raise_if
  Keeps-raise_if b e = record { at = λ before p. p }

module _ {S A : Type 0} {P : S → Type 0} where
  pub Keeps-on_proxmox :
      (h : ProxmoxKind → String → Exec S A)
      → ((k : ProxmoxKind) (msg : String) → Keeps P (h k msg))
      → (e : Exc) → Keeps P (on_proxmox h e)
  unfolding on_proxmox
  Keeps-on_proxmox h kh (proxmox k msg) = kh k msg
  Keeps-on_proxmox h kh e = Keeps-raise e

pub ruleset keeps_rules = (
  Keeps-bind, Keeps-try, Keeps-if, Keeps-gets, Keeps-of_result, Keeps-raise, Keeps-pure,
  Keeps-raise_if, Keeps-on_proxmox,
)
