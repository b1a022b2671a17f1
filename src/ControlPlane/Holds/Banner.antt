-- ===== src/ControlPlane/Holds/Banner.antt =====
-- `_saturation` of control-plane/holds.py: what the banner shows of the registry.
use dockade.Base.{ℕ, Option, none, some, length, ◌==◌, nat_eq, if◌then◌else◌}
use dockade.Base.Text.{Text}
use dockade.ControlPlane.Holds.{Time, Scope, Caps, Registry, total_waiters}

pub record Report : Type 0 where
  pub in_flight : ℕ
  pub cards : ℕ
  pub max_waiters : ℕ
  pub max_pending : ℕ
  pub rejections : ℕ
  pub acknowledged : ℕ
  pub last_ts : Option Time
  pub last_scope : Option Scope
  pub last_host : Option Text
  pub since : Time

-- `or`: a time of 0 gives way as no time does.
abbrev pub or_started : Option Time → Time → Time
or_started none started = started
or_started (some t) started = if t == 0 then started else t

unfoldable pub saturation : Caps → Time → Registry → Report
saturation caps started r = record {
  in_flight = total_waiters r;
  cards = length r.events;
  max_waiters = caps.max_waiters;
  max_pending = caps.max_pending;
  rejections = r.saturation.count;
  acknowledged = r.saturation.acked;
  last_ts = r.saturation.last_ts;
  last_scope = r.saturation.last_scope;
  last_host = r.saturation.last_host;
  since = or_started r.saturation.acked_ts started;
}
