-- ===== src/Create/Refines.antt =====
-- The state of `netevent create` against a session, and the changes of both.
use netevent.Prelude.{
  true, refl, ℕ, suc, ◌≡◌, ap, ◌∙◌, List, ◌++◌, Option, some, ltb, ◌==◌, if◌then◌else◌,
}
use netevent.Packet.{InputEvent}
use netevent.Device.Out.{OutDevice}
use netevent.Daemon.Map.{find, assign}
use netevent.Daemon.Map.Numbers.{Ascending, assign-Ascending, find-assign_num}
use netevent.Create.{Receiver}
use netevent.Create.Messages.{Description, Session, update, device_for}

-- The receiver holds what the session says, in ascending order, and has met no driver without
-- UI_DEV_SETUP.
pub record Refines (r : Receiver) (s : Session) : Type 0 where
  pub devices_agree : (id : ℕ) → find ltb id r.devices ≡ s.device_of id
  pub in_order : Ascending r.devices
  pub announced_agree : r.announced ≡ s.announced
  pub written_agree : r.written ≡ s.written
  pub stays_modern : r.modern ≡ true

module _ (fds : ℕ → ℕ) where
  pub added-Refines :
      (number : ℕ) (d : Description) (r : Receiver) (s : Session)
      → Refines r s
      → Refines
          (record r {
            devices = assign ltb number (device_for fds r.announced d) r.devices;
            modern = true;
            announced = suc r.announced;
          })
          (record s {
            device_of = update s.device_of number (some (device_for fds s.announced d));
            announced = suc s.announced;
          })
  added-Refines number d r s f =
      let same : device_for fds r.announced d ≡ device_for fds s.announced d =
        ap (λ (n : ℕ). device_for fds n d) f.announced_agree in
      record {
        devices_agree = λ id.
            find-assign_num id number (device_for fds r.announced d) r.devices
            ∙ ap
                (λ (o : Option OutDevice).
                  if id == number then some (device_for fds r.announced d) else o)
                (f.devices_agree id)
            ∙ ap (λ (x : OutDevice). if id == number then some x else s.device_of id) same;
        in_order = assign-Ascending number (device_for fds r.announced d) r.devices f.in_order;
        announced_agree = ap suc f.announced_agree;
        written_agree = f.written_agree;
        stays_modern = refl;
      }

pub counted-Refines :
    (r : Receiver) (s : Session)
    → Refines r s
    → Refines (record r { announced = suc r.announced }) (record s { announced = suc s.announced })
counted-Refines r s f = record {
  devices_agree = f.devices_agree;
  in_order = f.in_order;
  announced_agree = ap suc f.announced_agree;
  written_agree = f.written_agree;
  stays_modern = f.stays_modern;
}

pub written-Refines :
    (more : List (ℕ × InputEvent)) (r : Receiver) (s : Session)
    → Refines r s
    → Refines
        (record r { events = suc r.events; written = r.written ++ more })
        (record s { written = s.written ++ more })
written-Refines more r s f = record {
  devices_agree = f.devices_agree;
  in_order = f.in_order;
  announced_agree = f.announced_agree;
  written_agree = ap (λ (l : List (ℕ × InputEvent)). l ++ more) f.written_agree;
  stays_modern = f.stays_modern;
}
