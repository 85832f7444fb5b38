-- ===== src/Device/Out/Shrinks.antt =====
-- No reader of an announcement puts anything back on the stream (writer.cpp).
use netevent.Prelude.{
  ℕ, zero, suc, ◌≤◌, ◌≡◌, refl, Bool, true, false, List, [], ◌∷◌, Option, none, some, Bytes, length,
  ◌==◌, if◌then◌else◌, arith, length-drop,
}
use netevent.Bits.{Bits}
use netevent.Device.{AbsInfo, InputId}
use netevent.Device.Out.{
  DeviceError, OutDevice, Result, ok, err, Reader, pure, throw, ◌>>=◌, must_read, ensure, when_dev,
  Uinput, OpenResult, opened, refused, missing, open_failed, SetupResult, set_up, unsupported,
  failed, setup_failed, open_uinput, setup, new_out_device, set_event_bit_of, set_event_bits,
  set_generic_bit, set_code_bits, setup_absolute_axis, create, maybe_new, read_entry, read_entries,
  read_axes, new_from_ne2_add_command,
}
use netevent.Text.Event.{ev_ff}

-- A reader that leaves no more of the stream than it got.
pub record Shrinks {A : Type 0} (m : Reader A) : Type 0 where
  pub at : (s : Bytes) (a : A) (t : Bytes) → m s ≡ ok a t → length t ≤ length s

Shrinks-pure : {A : Type 0} (a : A) → Shrinks (pure a)
Shrinks-pure a = record { at = λ s b t h. ground arith }

Shrinks-throw : {A : Type 0} (e : DeviceError) → Shrinks (throw {A = A} e)
Shrinks-throw e = record { at = λ s b t h. ground arith }

bind-length :
    {A B : Type 0} (r : Result A) (f : A → Reader B) (n : ℕ) (b : B) (t : Bytes)
    → ((a : A) (u : Bytes) → r ≡ ok a u → length u ≤ n)
    → ((a : A) → Shrinks (f a))
    → (elim r [ ok a u ↦ f a u | err e ↦ err e ]) ≡ ok b t
    → length t ≤ n
bind-length (ok a u) f n b t hr hf h = omega (arith, hr a u refl, (hf a).at u b t h)
bind-length (err e) f n b t hr hf h = ground arith

Shrinks-bind :
    {A B : Type 0} (m : Reader A) (f : A → Reader B)
    → Shrinks m
    → ((a : A) → Shrinks (f a))
    → Shrinks (m >>= f)
Shrinks-bind m f hm hf = record {
  at = λ s b t h. bind-length (m s) f (length s) b t (λ a u e. hm.at s a u e) hf h;
}

must_read-Shrinks : (n : ℕ) → Shrinks (must_read n)
unfolding must_read
must_read-Shrinks n = record { at = λ s b t h. ground (arith, length-drop n s) }

ensure-Shrinks : (b : Bool) (e : DeviceError) → Shrinks (ensure b e)
ensure-Shrinks true e = Shrinks-pure tt
ensure-Shrinks false e = Shrinks-throw e

ruleset shrinks_rules =
    (Shrinks-pure, Shrinks-throw, Shrinks-bind, must_read-Shrinks, ensure-Shrinks)

Shrinks-if :
    {A : Type 0} (b : Bool) (m n : Reader A) → Shrinks m → Shrinks n → Shrinks (if b then m else n)
Shrinks-if true m n hm hn = hm
Shrinks-if false m n hm hn = hn

node-Shrinks :
    (o : OpenResult) (m : Reader ℕ)
    → Shrinks m
    → Shrinks (elim o [ opened fd ↦ pure fd | refused ↦ throw open_failed | missing ↦ m ])
node-Shrinks (opened fd) m h = Shrinks-pure fd
node-Shrinks refused m h = Shrinks-throw open_failed
node-Shrinks missing m h = h

-- The readers of an announcement.
module _ (u : Uinput) where
  open_uinput-Shrinks : (i n : ℕ) → Shrinks (open_uinput u i n)
  unfolding open_uinput
  open_uinput-Shrinks i zero = search shrinks_rules
  open_uinput-Shrinks i (suc n) =
      node-Shrinks (u.open_node i) (open_uinput u (suc i) n) (open_uinput-Shrinks (suc i) n)

  answer-Shrinks :
      (r : SetupResult)
      → Shrinks
          (elim r [ set_up ↦ pure true | unsupported ↦ pure false | failed ↦ throw setup_failed ])
  answer-Shrinks set_up = Shrinks-pure true
  answer-Shrinks unsupported = Shrinks-pure false
  answer-Shrinks failed = Shrinks-throw setup_failed

  setup-Shrinks : (modern : Bool) → Shrinks (setup u modern)
  unfolding setup
  setup-Shrinks true = answer-Shrinks u.setup_device
  setup-Shrinks false = Shrinks-pure false

  new_out_device-Shrinks :
      (modern : Bool) (name : Bytes) (id : InputId) → Shrinks (new_out_device u modern name id)
  unfolding new_out_device
  new_out_device-Shrinks modern name id = search (shrinks_rules, open_uinput-Shrinks, setup-Shrinks)

  maybe_new-Shrinks :
      (modern skip : Bool) (name : Bytes) (id : InputId) → Shrinks (maybe_new u modern skip name id)
  unfolding maybe_new
  maybe_new-Shrinks modern true name id = search shrinks_rules
  maybe_new-Shrinks modern false name id = search (shrinks_rules, new_out_device-Shrinks)

  set_event_bit_of-Shrinks : (ev : ℕ) (d : OutDevice) → Shrinks (set_event_bit_of u ev d)
  unfolding set_event_bit_of
  set_event_bit_of-Shrinks ev d = search shrinks_rules

  set_event_bits-Shrinks : (evs : List ℕ) (d : OutDevice) → Shrinks (set_event_bits u evs d)
  unfolding set_event_bits
  set_event_bits-Shrinks [] d = search shrinks_rules
  set_event_bits-Shrinks (ev ∷ evs) d =
      Shrinks-if (ev == ev_ff) (set_event_bits u evs d) _ (set_event_bits-Shrinks evs d) (
        Shrinks-bind (set_event_bit_of u ev d) (set_event_bits u evs)
          (set_event_bit_of-Shrinks ev d) (λ d'. set_event_bits-Shrinks evs d'))

  set_generic_bit-Shrinks : (ioc bit : ℕ) (d : OutDevice) → Shrinks (set_generic_bit u ioc bit d)
  unfolding set_generic_bit
  set_generic_bit-Shrinks ioc bit d = search shrinks_rules

  set_code_bits-Shrinks :
      (ioc : ℕ) (bits : List ℕ) (d : OutDevice) → Shrinks (set_code_bits u ioc bits d)
  unfolding set_code_bits
  set_code_bits-Shrinks ioc [] d = search shrinks_rules
  set_code_bits-Shrinks ioc (bit ∷ bits) d =
      Shrinks-bind (set_generic_bit u ioc bit d) (set_code_bits u ioc bits)
        (set_generic_bit-Shrinks ioc bit d) (λ d'. set_code_bits-Shrinks ioc bits d')

  setup_absolute_axis-Shrinks :
      (modern : Bool) (i : ℕ) (a : AbsInfo) (d : OutDevice)
      → Shrinks (setup_absolute_axis u modern i a d)
  unfolding setup_absolute_axis
  setup_absolute_axis-Shrinks modern i a d = search shrinks_rules

  create-Shrinks : (modern : Bool) (d : OutDevice) → Shrinks (create u modern d)
  unfolding create
  create-Shrinks modern d = search shrinks_rules

  when_dev-Shrinks :
      (f : OutDevice → Reader OutDevice) (dev : Option OutDevice)
      → ((d : OutDevice) → Shrinks (f d))
      → Shrinks (when_dev f dev)
  when_dev-Shrinks f none h = Shrinks-pure none
  when_dev-Shrinks f (some d) h =
      Shrinks-bind (f d) (λ d'. pure (some d')) (h d) (λ d'. Shrinks-pure (some d'))

  read_entry-Shrinks :
      (ev : ℕ) (dev : Option OutDevice) (count : ℕ) → Shrinks (read_entry u ev dev count)
  unfolding read_entry
  read_entry-Shrinks ev dev count = search (shrinks_rules, when_dev-Shrinks, set_code_bits-Shrinks)

  read_entries-Shrinks :
      (evs : List ℕ) (dev : Option OutDevice) (absbits : Bits)
      → Shrinks (read_entries u evs dev absbits)
  unfolding read_entries
  read_entries-Shrinks [] dev absbits = search shrinks_rules
  read_entries-Shrinks (ev ∷ evs) dev absbits =
      search (shrinks_rules, read_entry-Shrinks, read_entries-Shrinks evs)

  read_axes-Shrinks :
      (modern : Bool) (is : List ℕ) (dev : Option OutDevice) → Shrinks (read_axes u modern is dev)
  unfolding read_axes
  read_axes-Shrinks modern [] dev = search shrinks_rules
  read_axes-Shrinks modern (i ∷ is) dev =
      search
        (shrinks_rules, when_dev-Shrinks, setup_absolute_axis-Shrinks, read_axes-Shrinks modern is)

  pub new_from_ne2_add_command-Shrinks :
      (modern skip : Bool) (pkt : Bytes) → Shrinks (new_from_ne2_add_command u modern skip pkt)
  unfolding new_from_ne2_add_command
  new_from_ne2_add_command-Shrinks modern skip pkt =
      search
        (
          shrinks_rules, maybe_new-Shrinks, when_dev-Shrinks, set_event_bits-Shrinks,
          read_entries-Shrinks, read_axes-Shrinks, create-Shrinks,
        )
        depth 60
