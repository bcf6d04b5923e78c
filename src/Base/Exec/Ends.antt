-- ===== src/Base/Exec/Ends.antt =====
-- Calls that end: each way to build a call from calls that end.
use Prim.Native.Nat.{ℕ, ◌≤◌}
use Prim.Native.String.{String}
use mathlib.Core.Path.{◌≡◌, refl, ap}
use mathlib.Core.Logic.{◌≢◌}
use mathlib.Core.Bool.{Bool, true, false}
use native.Mathlib.Omega.{arith}
use clusteration.Base.Tests.{if◌then◌else◌}
use clusteration.Base.Exec.{
  Exc, proxmox, runtime, other, out_of_fuel, ProxmoxKind, Result, ok, err, Exec, pure, raise,
  of_result, gets, modify, try_except, on_proxmox, raise_if, ◌>>=◌,
}

-- A call from `s` has ended with a result or an exception of the program, and the clock has not gone
-- back.
abbrev pub IsFine : {S A : Type 0} → (S → ℕ) → S → Result A × S → Type 0
IsFine clock s (r, s') = (r ≢ err out_of_fuel) × (clock s ≤ clock s')

-- A call that ends: it does not run out of fuel, and the clock does not go back.
pub record Ends {S A : Type 0} (clock : S → ℕ) (m : Exec S A) : Type 0 where
  pub at : (s : S) → IsFine clock s (m s)

module _ {S A : Type 0} {clock : S → ℕ} where
  pub Ends-pure : (a : A) → Ends clock (pure a)
  unfolding pure
  Ends-pure a = record { at = λ n. (λ h. cc h, omega arith) }

  pub Ends-raise : (e : Exc) → e ≢ out_of_fuel → Ends clock (raise {A = A} e)
  unfolding raise
  Ends-raise e ne = record { at = λ n. (λ h. ne (cc h), omega arith) }

  pub Ends-of_result : (r : Result A) → r ≢ err out_of_fuel → Ends clock (of_result r)
  unfolding of_result
  Ends-of_result r ne = record { at = λ n. (ne, omega arith) }

  pub Ends-if :
      (b : Bool) (m k : Exec S A) → Ends clock m → Ends clock k → Ends clock (if b then m else k)
  Ends-if true m k em ek = em
  Ends-if false m k em ek = ek

  handled-IsFine :
      (h : Exc → Exec S A) (r : Result A) (n n' : S)
      → ((e : Exc) → e ≢ out_of_fuel → Ends clock (h e))
      → IsFine clock n (r, n')
      → IsFine clock n (try_except (λ _. (r, n')) h n)
  unfolding try_except
  handled-IsFine h (ok a) n n' eh f = f
  handled-IsFine h (err e) n n' eh f =
      let (ne, le) = (eh e (λ p. f.0 (ap err p))).at n' in (ne, omega arith)

  -- The handler takes over from an exception that was raised.
  pub Ends-try :
      (m : Exec S A) (h : Exc → Exec S A)
      → Ends clock m
      → ((e : Exc) → e ≢ out_of_fuel → Ends clock (h e))
      → Ends clock (try_except m h)
  unfolding try_except
  Ends-try m h em eh = record {
    at = λ n. let (r, n') = m n in handled-IsFine h r n n' eh (em.at n);
  }

  pub Ends-on_proxmox :
      (h : ProxmoxKind → String → Exec S A)
      → ((k : ProxmoxKind) (msg : String) → Ends clock (h k msg))
      → (e : Exc) → e ≢ out_of_fuel
      → Ends clock (on_proxmox h e)
  unfolding on_proxmox
  Ends-on_proxmox h eh (proxmox k msg) ne = eh k msg
  Ends-on_proxmox h eh e ne = Ends-raise e ne

module _ {S A B : Type 0} {clock : S → ℕ} where
  continued-IsFine :
      (f : A → Exec S B) (r : Result A) (n n' : S)
      → ((a : A) → Ends clock (f a))
      → IsFine clock n (r, n')
      → IsFine clock n (((λ _. (r, n')) >>= f) n)
  unfolding ◌>>=◌
  continued-IsFine f (ok a) n n' ef h = let (ne, le) = (ef a).at n' in (ne, omega arith)
  continued-IsFine f (err e) n n' ef h = (λ p. h.0 (cc p), h.1)

  pub Ends-bind :
      (m : Exec S A) (f : A → Exec S B)
      → Ends clock m
      → ((a : A) → Ends clock (f a))
      → Ends clock (m >>= f)
  unfolding ◌>>=◌
  Ends-bind m f em ef = record {
    at = λ n. let (r, n') = m n in continued-IsFine f r n n' ef (em.at n);
  }

module _ {S A B : Type 0} (clock : S → ℕ) where
  later-IsFine :
      (f : A → Exec S B) (r : Result A) (n n' : S)
      → ((a : A) → r ≡ ok a → IsFine clock n' (f a n'))
      → IsFine clock n (r, n')
      → IsFine clock n (((λ _. (r, n')) >>= f) n)
  unfolding ◌>>=◌
  later-IsFine f (ok a) n n' ef h = let (ne, le) = ef a refl in (ne, omega arith)
  later-IsFine f (err e) n n' ef h = (λ p. h.0 (cc p), h.1)

  -- What follows need only end from the state that the first call leaves.
  pub IsFine-bind :
      (m : Exec S A) (f : A → Exec S B) (n : S)
      → Ends clock m
      → ((a : A) → (m n).0 ≡ ok a → clock n ≤ clock (m n).1 → IsFine clock (m n).1 (f a (m n).1))
      → IsFine clock n ((m >>= f) n)
  unfolding ◌>>=◌
  IsFine-bind m f n em ef = later-IsFine f (m n).0 n (m n).1 (λ a p. ef a p (em.at n).1) (em.at n)

module _ {S A : Type 0} {clock : S → ℕ} where
  pub Ends-gets : (f : S → A) → Ends clock (gets f)
  unfolding gets
  Ends-gets f = record { at = λ s. (λ h. cc h, omega arith) }

module _ {S : Type 0} {clock : S → ℕ} where
  pub Ends-modify : (f : S → S) → ((s : S) → clock s ≤ clock (f s)) → Ends clock (modify f)
  unfolding modify
  Ends-modify f le = record { at = λ s. (λ h. cc h, le s) }

  pub Ends-raise_if : (b : Bool) (e : Exc) → e ≢ out_of_fuel → Ends clock (raise_if b e)
  unfolding raise_if
  Ends-raise_if true e ne = record { at = λ s. (λ h. ne (cc h), omega arith) }
  Ends-raise_if false e ne = record { at = λ s. (λ h. cc h, omega arith) }

pub proxmox-ne : (k : ProxmoxKind) (msg : String) → proxmox k msg ≢ out_of_fuel
proxmox-ne k msg h = cc h

pub runtime-ne : (msg : String) → runtime msg ≢ out_of_fuel
runtime-ne msg h = cc h

pub other-ne : (msg : String) → other msg ≢ out_of_fuel
other-ne msg h = cc h

pub ruleset ends_rules = (
  Ends-pure, Ends-raise, Ends-of_result, Ends-gets, Ends-if, Ends-try, Ends-bind, Ends-on_proxmox,
  Ends-raise_if, proxmox-ne, runtime-ne, other-ne,
)
