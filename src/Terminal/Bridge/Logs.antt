-- ===== src/Terminal/Bridge/Logs.antt =====
-- The bytes that the bridge has passed on, and the handlers that pass on none.
use mathlib.Core.List.{append_assoc}
use clusteration.Base.{
  ◌≡◌, refl, sym, ◌∙◌, ap, String, Option, none, some, List, [], ◌∷◌, ◌++◌, append-nil, arith,
}
use clusteration.Base.Json.{ℤ, Json, obj, get, int}
use clusteration.Terminal.Bridge.{
  Bytes, Frame, status_frame, output, pong, error_frame, ended, rejected, Input, typed, resized,
  Message, bytes_message, text_message, other_message, Event, Bridge, finish, tell_error, fail,
  send_frame, check_idle, touch, write, resize_shell, on_payload, on_message,
}

-- The bytes of the shell that the browser has got.
abbrev pub output_bytes : List Frame → Bytes
output_bytes [] = []
output_bytes (output bs ∷ fs) = bs ++ output_bytes fs
output_bytes (f ∷ fs) = output_bytes fs

-- The bytes of the browser that the shell has got.
abbrev pub entered : List Input → Bytes
entered [] = []
entered (typed bs ∷ is) = bs ++ entered is
entered (resized c r ∷ is) = entered is

pub output_bytes-append :
    (fs gs : List Frame) → output_bytes (fs ++ gs) ≡ output_bytes fs ++ output_bytes gs
output_bytes-append [] gs = refl
output_bytes-append (output bs ∷ fs) gs =
    ap (λ x. bs ++ x) (output_bytes-append fs gs)
    ∙ sym (append_assoc bs (output_bytes fs) (output_bytes gs))
output_bytes-append (status_frame s ∷ fs) gs = output_bytes-append fs gs
output_bytes-append (pong ∷ fs) gs = output_bytes-append fs gs
output_bytes-append (error_frame s ∷ fs) gs = output_bytes-append fs gs
output_bytes-append (ended s ∷ fs) gs = output_bytes-append fs gs
output_bytes-append (rejected n ∷ fs) gs = output_bytes-append fs gs

pub entered-append : (is js : List Input) → entered (is ++ js) ≡ entered is ++ entered js
entered-append [] js = refl
entered-append (typed bs ∷ is) js =
    ap (λ x. bs ++ x) (entered-append is js) ∙ sym (append_assoc bs (entered is) (entered js))
entered-append (resized c r ∷ is) js = entered-append is js

pub finish-output_bytes :
    (e : Event) (r : String) (b : Bridge) → output_bytes (finish e r b).sent ≡ output_bytes b.sent
unfolding finish
finish-output_bytes e r b =
    ground (arith, output_bytes-append b.sent (ended r ∷ []), append-nil (output_bytes b.sent))

tell_error-output_bytes :
    (e : Event) (b : Bridge) → output_bytes (tell_error e b).sent ≡ output_bytes b.sent
unfolding tell_error
tell_error-output_bytes e b = ground (
  arith,
  output_bytes-append b.sent (error_frame "erro ao conectar no terminal" ∷ []),
  append-nil (output_bytes b.sent),
)

pub fail-output_bytes :
    (e : Event) (b : Bridge) → output_bytes (fail e b).sent ≡ output_bytes b.sent
unfolding fail
fail-output_bytes e b =
    finish-output_bytes e "ssh_error" (tell_error e b) ∙ tell_error-output_bytes e b

pub finish-entered :
    (e : Event) (r : String) (b : Bridge) → entered (finish e r b).shell ≡ entered b.shell
unfolding finish
finish-entered e r b = refl

pub fail-entered : (e : Event) (b : Bridge) → entered (fail e b).shell ≡ entered b.shell
unfolding fail tell_error
fail-entered e b = finish-entered e "ssh_error" (tell_error e b)

-- What sends no output leaves the bytes of the browser.
pub check_idle-output_bytes :
    (e : Event) (b : Bridge) → output_bytes (check_idle e b).sent ≡ output_bytes b.sent
unfolding check_idle
check_idle-output_bytes e b = ground (arith, finish-output_bytes e "inactivity_timeout" b)

pub check_idle-entered : (e : Event) (b : Bridge) → entered (check_idle e b).shell ≡ entered b.shell
unfolding check_idle
check_idle-entered e b = ground (arith, finish-entered e "inactivity_timeout" b)

pub send_frame-entered :
    (e : Event) (f : Frame) (b : Bridge) → entered (send_frame e f b).shell ≡ entered b.shell
unfolding send_frame
send_frame-entered e f b = ground (arith, fail-entered e b)

pub send_frame-output_bytes :
    (e : Event) (b : Bridge) → output_bytes (send_frame e pong b).sent ≡ output_bytes b.sent
unfolding send_frame
send_frame-output_bytes e b = ground (
  arith,
  fail-output_bytes e b,
  output_bytes-append b.sent (pong ∷ []),
  append-nil (output_bytes b.sent),
)

write-output_bytes :
    (e : Event) (i : Input) (b : Bridge) → output_bytes (write e i b).sent ≡ output_bytes b.sent
unfolding write
write-output_bytes e i b = ground (arith, fail-output_bytes e b)

resize_shell-output_bytes :
    (e : Event) (cols rows : Option ℤ) (b : Bridge)
    → output_bytes (resize_shell e cols rows b).sent ≡ output_bytes b.sent
unfolding resize_shell
resize_shell-output_bytes e (some c) (some r) b = write-output_bytes e (resized c r) b
resize_shell-output_bytes e none r b = fail-output_bytes e b
resize_shell-output_bytes e (some c) none b = fail-output_bytes e b

resize_shell-entered :
    (e : Event) (cols rows : Option ℤ) (b : Bridge)
    → entered (resize_shell e cols rows b).shell ≡ entered b.shell
unfolding resize_shell write
resize_shell-entered e (some c) (some r) b = ground (
  arith,
  fail-entered e b,
  entered-append b.shell (resized c r ∷ []),
  append-nil (entered b.shell),
)
resize_shell-entered e none r b = fail-entered e b
resize_shell-entered e (some c) none b = fail-entered e b

on_payload-output_bytes :
    (e : Event) (j : Json) (b : Bridge) → output_bytes (on_payload e j b).sent ≡ output_bytes b.sent
unfolding on_payload touch
on_payload-output_bytes e (obj d) b = ground (
  arith,
  resize_shell-output_bytes e (int (get "cols" d)) (int (get "rows" d)) (touch e b),
  send_frame-output_bytes e (touch e b),
)
on_payload-output_bytes e j b = fail-output_bytes e b

pub on_payload-entered :
    (e : Event) (j : Json) (b : Bridge) → entered (on_payload e j b).shell ≡ entered b.shell
unfolding on_payload touch
on_payload-entered e (obj d) b = ground (
  arith,
  resize_shell-entered e (int (get "cols" d)) (int (get "rows" d)) (touch e b),
  send_frame-entered e pong (touch e b),
)
on_payload-entered e j b = fail-entered e b

pub on_message-output_bytes :
    (e : Event) (m : Message) (b : Bridge)
    → output_bytes (on_message e m b).sent ≡ output_bytes b.sent
unfolding on_message touch
on_message-output_bytes e (bytes_message bs) b = write-output_bytes e (typed bs) (touch e b)
on_message-output_bytes e (text_message (some j)) b = on_payload-output_bytes e j b
on_message-output_bytes e (text_message none) b = fail-output_bytes e b
on_message-output_bytes e other_message b = refl
