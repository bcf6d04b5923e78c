-- ===== src/Proxmox/Trace.antt =====
-- A transport that keeps the calls it has been asked to make, the newest first: the means to state
-- which requests a function of the panel may send.
use clusteration.Base.{List, ◌∷◌}
use clusteration.Proxmox.{Call, Transport}

pub record Traced (N : Type 0) : Type 0 where
  pub inner : N
  pub calls : List Call

abbrev pub traced : {N : Type 0} → Transport N → Transport (Traced N)
traced t = record {
  send = λ c s. let (o, n) = t.send c s.inner in (o, record { inner = n; calls = c ∷ s.calls });
  sleep = λ d s. record s { inner = t.sleep d s.inner };
  now = λ s. t.now s.inner;
  iso_now = λ s. t.iso_now s.inner;
  utcnow = λ s. t.utcnow s.inner;
  open_terminal =
      λ ip s. let (opened, n) = t.open_terminal ip s.inner in (opened, record s { inner = n });
}
