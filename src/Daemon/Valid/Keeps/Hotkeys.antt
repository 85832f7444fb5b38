-- ===== src/Daemon/Valid/Keeps/Hotkeys.antt =====
-- The changes of the hotkeys keep the state valid.
use netevent.Prelude.{◌≡◌, refl, inl, inr, Bytes, Bool-cases, Option-cases, leb, arith}
use netevent.Text.Event.{ev_cnt, SpecResult, ok, err, parse_spec}
use netevent.Daemon.Map.{HotkeyDef, find, string_lt}
use netevent.Daemon.State.{Daemon, Input, M, done, throw, ◌>>=◌, bad_spec}
use netevent.Daemon.Commands.Hotkey.{add_hotkey, remove_hotkey, read_hotkey}
use netevent.Daemon.Valid.{IsValid, registry, Listed}
use netevent.Daemon.Valid.Entries.{assign-HotkeysFit, erase-HotkeysFit, find-Listed}
use netevent.Daemon.Valid.Keeps.{Valid, Keeps}

pub add_hotkey-Valid :
    (def : HotkeyDef) (command : Bytes) (d : Daemon)
    → Listed def.device (registry d.inputs)
    → IsValid d
    → Valid (add_hotkey def command d)
unfolding add_hotkey
add_hotkey-Valid def command d l v = elim (Bool-cases (leb ev_cnt def.type)) [
  | inl e ↦ rw e v
  | inr e ↦ rw e record {
    removed_once = v.removed_once;
    in_order = v.in_order;
    ids_fit = v.ids_fit;
    free_fit = v.free_fit;
    hotkeys_fit =
        assign-HotkeysFit (registry d.inputs) def command d.hotkeys (ground arith) l v.hotkeys_fit;
  }
]

pub remove_hotkey-Keeps : (def : HotkeyDef) → Keeps (remove_hotkey def)
unfolding remove_hotkey
remove_hotkey-Keeps def = record {
  at = λ d v. elim (Bool-cases (leb ev_cnt def.type)) [
    | inl e ↦ rw e v
    | inr e ↦ rw e record {
      removed_once = v.removed_once;
      in_order = v.in_order;
      ids_fit = v.ids_fit;
      free_fit = v.free_fit;
      hotkeys_fit = erase-HotkeysFit (registry d.inputs) def d.hotkeys v.hotkeys_fit;
    }
  ];
}

-- What follows `read_hotkey` sees the state that it saw, and a device that is there.
spec-Valid :
    {A : Type 0} (input : Input) (o : SpecResult) (f : HotkeyDef → M A) (d : Daemon)
    → ((def : HotkeyDef) → def.device ≡ input.id → Valid (f def d))
    → IsValid d
    → let m : M HotkeyDef = elim o [
      | err e ↦ throw (bad_spec e)
      | ok spec ↦ λ d.
          done
            (record { device = input.id; type = spec.type; code = spec.code; value = spec.value })
            d
    ] in
      Valid ((m >>= f) d)
spec-Valid input (err e) f d k v = v
spec-Valid input (ok spec) f d k v = k _ refl

pub read_hotkey-Keeps :
    {A : Type 0} (device text : Bytes) (f : HotkeyDef → M A)
    → ((def : HotkeyDef) (d : Daemon)
        → Listed def.device (registry d.inputs)
        → IsValid d
        → Valid (f def d))
    → Keeps (read_hotkey device text >>= f)
unfolding read_hotkey
read_hotkey-Keeps device text f k = record {
  at = λ d v. elim (Option-cases (find string_lt device d.inputs)) [
    | inl e ↦ rw (e, Valid) v
    | inr (input, e) ↦
        rw (e, Valid)
          (spec-Valid input (parse_spec text) f d
            (λ def q. k def d (rw q (find-Listed device input d.inputs e)) v) v)
  ];
}
