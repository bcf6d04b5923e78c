-- ===== src/Base/Exec.antt =====
-- Python's calls: they change a state and may raise. An exception does not undo what was changed before
-- it, so the result, an exception or a value, comes with the state.
pub mod Keeps
pub mod Ends
pub mod Then
use Prim.Native.Nat.{ℕ}
use Prim.Native.String.{String}
use mathlib.Core.Bool.{Bool, true, false}
use mathlib.Core.Option.{Option, none, some}
use clusteration.Base.Tests.{if◌then◌else◌}

-- The subclasses of `ProxmoxError`, and the class itself.
pub data ProxmoxKind : Type 0 where
  base auth task timeout : ProxmoxKind

-- The exceptions of the program. `other` is one of Python or of a library, by its
-- `str`, or the name of its class where that is empty; of an operation of Python that fails in the code
-- itself, by the name of the class. A loop that
-- has no bound in the source is cut by `out_of_fuel`, which the program does not have.
pub data Exc : Type 0 where
  proxmox : ProxmoxKind → String → Exc
  runtime : String → Exc
  app : String → String → ℕ → Exc
  other : String → Exc
  out_of_fuel : Exc

pub data Result {ℓ} (A : Type ℓ) : Type ℓ where
  ok : A → Result A
  err : Exc → Result A

abbrev pub Exec {ℓ} : Type ℓ → Type ℓ → Type ℓ
Exec S A = S → Result A × S

module _ {ℓ} {S A : Type ℓ} where
  unfoldable pub gets : (S → A) → Exec S A
  gets read s = (ok (read s), s)

  unfoldable pub of_result : Result A → Exec S A
  of_result r s = (r, s)

  unfoldable pub raise : Exc → Exec S A
  raise e s = (err e, s)

  unfoldable pub pure : A → Exec S A
  pure a s = (ok a, s)

  -- An exception goes to the handler, which may raise again.
  abbrev handle : (Exc → Exec S A) → Result A → Exec S A
  handle h (err e) mid = h e mid
  handle h (ok a) mid = (ok a, mid)

  unfoldable pub try_except : Exec S A → (Exc → Exec S A) → Exec S A
  unfolding pure raise
  try_except body h s = let (r, mid) = body s in handle h r mid

module _ {ℓ} {S A B : Type ℓ} where
  abbrev go_on : (A → Exec S B) → Result A → Exec S B
  go_on k (err e) mid = (err e, mid)
  go_on k (ok a) mid = k a mid

  infixl 5 ◌>>=◌ ◌>>◌
  -- Where this is unfolded, the calls that do not change the state are too.
  unfoldable pub ◌>>=◌ : Exec S A → (A → Exec S B) → Exec S B
  unfolding gets of_result raise pure
  ◌>>=◌ first k s = let (r, mid) = first s in go_on k r mid

  abbrev pub ◌>>◌ : Exec S A → Exec S B → Exec S B
  first >> second = first >>= λ _. second

module _ {S : Type 0} where
  unfoldable pub modify : (S → S) → Exec S Unit
  modify f s = (ok tt, f s)

  unfoldable pub raise_if : Bool → Exc → Exec S Unit
  unfolding pure raise
  raise_if b e s = (if b then err e else ok tt, s)

-- A bare `except ProxmoxError`: the other exceptions go on.
module _ {S A : Type 0} where
  unfoldable pub on_proxmox : (ProxmoxKind → String → Exec S A) → Exc → Exec S A
  unfolding raise
  on_proxmox h (proxmox k msg) = h k msg
  on_proxmox h e = raise e
