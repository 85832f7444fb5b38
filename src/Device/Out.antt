-- ===== src/Device/Out.antt =====
-- `OutDevice` (writer.cpp): a uinput device made from an announcement. The uinput driver is a
-- parameter. A stream is what its descriptor delivers: `mustRead` of it takes a number of bytes or
-- fails (Io.Reads). Allocations are taken to succeed.
pub mod Shrinks
use netevent.Prelude.{
  ℕ, zero, suc, ◌≡◌, Bool, true, false, not, ◌||◌, List, [], ◌∷◌, ◌++◌, Option, none, some, Bytes,
  length, take, drop, leb, ◌==◌, if◌then◌else◌,
}
use netevent.Bits.{Bits, byte_size, set_bits, empty}
use netevent.Wire.{be16toh}
use netevent.Packet.{InputEvent, command_code, add_device, packet_cmd}
use netevent.Text.Event.{ev_ff, ev_max}
use netevent.Device.{
  InputId, AbsInfo, name_size, info_size, ev_abs, ui_set_bit_ioc, transferred, id_to_host,
  abs_to_host,
}

-- The exceptions of this file.
pub data DeviceError : Type 0 where
  name_too_long no_uinput_node open_failed setup_failed ioctl_failed : DeviceError
  already_created upload_failed create_failed write_failed : DeviceError
  wrong_packet info_size_mismatch name_size_mismatch type_count_mismatch short_read : DeviceError

-- `::open` of a device node, and the UI_DEV_SETUP request.
pub data OpenResult : Type 0 where
  opened : ℕ → OpenResult
  missing refused : OpenResult

pub data SetupResult : Type 0 where
  set_up unsupported failed : SetupResult

-- The requests to a uinput device that can fail.
pub data Request : Type 0 where
  set_event_bit : ℕ → Request
  set_code_bit : ℕ → ℕ → Request
  setup_axis : ℕ → AbsInfo → Request
  create_device upload : Request

-- The driver: what opening the n-th path of `gDevicePaths` gives, what UI_DEV_SETUP answers, and
-- which requests succeed.
pub record Uinput : Type 0 where
  pub open_node : ℕ → OpenResult
  pub setup_device : SetupResult
  pub accepts : Request → Bool

-- `OutDevice`: its descriptor, what was uploaded or set, in order, and `created_`.
pub record OutDevice : Type 0 where
  pub fd : ℕ
  pub name : Bytes
  pub id : InputId
  pub events : List ℕ
  pub codes : List (ℕ × ℕ)
  pub axes : List (ℕ × AbsInfo)
  pub created : Bool

-- A computation that reads a stream and may throw.
pub data Result (A : Type 0) : Type 0 where
  ok : A → Bytes → Result A
  err : DeviceError → Result A

abbrev pub Reader : Type 0 → Type 0
Reader A = Bytes → Result A

abbrev pub pure : {A : Type 0} → A → Reader A
pure a s = ok a s

abbrev pub throw : {A : Type 0} → DeviceError → Reader A
throw e s = err e

infixl 5 ◌>>=◌ ◌>>◌
abbrev pub ◌>>=◌ : {A B : Type 0} → Reader A → (A → Reader B) → Reader B
◌>>=◌ m f s = elim (m s) [ ok a t ↦ f a t | err e ↦ err e ]

abbrev pub ◌>>◌ : {B : Type 0} → Reader (Unit {0}) → Reader B → Reader B
m >> k = m >>= λ _. k

-- A step of a block, and the rest of the block behind it.
pub bind-ok :
    {A B : Type 0} (m : Reader A) (f : A → Reader B) (s : Bytes) {a : A} {t : Bytes} {r : Result B}
    → m s ≡ ok a t
    → f a t ≡ r
    → (m >>= f) s ≡ r
bind-ok m f s h k = rw (h, ◌>>=◌) k

abbrev pub ensure : Bool → DeviceError → Reader (Unit {0})
ensure true e = pure tt
ensure false e = throw e

-- `mustRead` of `n` bytes, whose failure the callers turn into an exception.
unfoldable pub must_read : ℕ → Reader Bytes
must_read n s = if leb n (length s) then ok (take n s) (drop n s) else err short_read

-- The name up to its first NUL: `string(name, strnlen(name, sizeof(name)))`.
unfoldable pub c_name : Bytes → Bytes
c_name [] = []
c_name (c ∷ s) = if c == 0 then [] else c ∷ c_name s

-- The loop over the three paths of `gDevicePaths`, from path `i`, with `left` to try.
unfoldable pub open_uinput : Uinput → ℕ → ℕ → Reader ℕ
open_uinput u i zero = throw no_uinput_node
open_uinput u i (suc left) = elim (u.open_node i) [
  | opened fd ↦ pure fd
  | refused ↦ throw open_failed
  | missing ↦ open_uinput u (suc i) left
]

-- The UI_DEV_SETUP part of the constructor; it returns the new `gUse_UI_DEV_SETUP`.
unfoldable pub setup : Uinput → Bool → Reader Bool
setup u false = pure false
setup u true = elim u.setup_device [
  | set_up ↦ pure true
  | unsupported ↦ pure false
  | failed ↦ throw setup_failed
]

-- `OutDevice::OutDevice`, in a build with HAS_UI_DEV_SETUP. `modern` is `gUse_UI_DEV_SETUP`.
unfoldable pub new_out_device : Uinput → Bool → Bytes → InputId → Reader (OutDevice × Bool)
new_out_device u modern name id = do
  ensure (not (leb name_size (length name))) name_too_long
  fd ← open_uinput u 0 3
  modern' ← setup u modern
  pure (
    record { fd = fd; name = name; id = id; events = []; codes = []; axes = []; created = false },
    modern',
  )

-- `OutDevice::setEventBit`
unfoldable pub set_event_bit_of : Uinput → ℕ → OutDevice → Reader OutDevice
set_event_bit_of u ev d = do
  ensure (not d.created) already_created
  ensure (u.accepts (set_event_bit ev)) ioctl_failed
  pure (record d { events = d.events ++ (ev ∷ []) })

-- `OutDevice::setGenericBit`
unfoldable pub set_generic_bit : Uinput → ℕ → ℕ → OutDevice → Reader OutDevice
set_generic_bit u ioc bit d = do
  ensure (not d.created) already_created
  ensure (u.accepts (set_code_bit ioc bit)) ioctl_failed
  pure (record d { codes = d.codes ++ ((ioc, bit) ∷ []) })

-- The data of an axis that a device gets: all of it by a request, and through `user_dev_`, which has
-- no fields for them, all but the value and the resolution, which are 0 then.
abbrev pub stored_axis : Bool → AbsInfo → AbsInfo
stored_axis true a = a
stored_axis false a = record a { value = 0; resolution = 0 }

-- `OutDevice::setupAbsoluteAxis`: by a request, or kept for the upload.
unfoldable pub setup_absolute_axis : Uinput → Bool → ℕ → AbsInfo → OutDevice → Reader OutDevice
setup_absolute_axis u modern i a d = do
  ensure (not d.created) already_created
  ensure (not modern || u.accepts (setup_axis i a)) ioctl_failed
  pure (record d { axes = d.axes ++ ((i, stored_axis modern a) ∷ []) })

-- `OutDevice::create`
unfoldable pub create : Uinput → Bool → OutDevice → Reader OutDevice
create u modern d = do
  ensure (modern || u.accepts upload) upload_failed
  ensure (u.accepts create_device) create_failed
  pure (record d { created = true })

-- `OutDevice::write`: force feedback is dropped; else the event goes out, if the write succeeds.
unfoldable pub write : (InputEvent → Bool) → InputEvent → Option (List InputEvent)
write writes ie = if ie.type == ev_ff then some [] else if writes ie then some (ie ∷ []) else none

-- `if (dev) …`
abbrev pub when_dev : (OutDevice → Reader OutDevice) → Option OutDevice → Reader (Option OutDevice)
when_dev f none = pure none
when_dev f (some d) = do d' ← f d; pure (some d')

-- `for (auto bit : evbits) if (bit && bit.index() != EV_FF) dev->setEventBit(…)`
unfoldable pub set_event_bits : Uinput → List ℕ → OutDevice → Reader OutDevice
set_event_bits u [] d = pure d
set_event_bits u (ev ∷ evs) d =
    let rest = set_event_bits u evs in
    if ev == ev_ff then rest d else do d' ← set_event_bit_of u ev d; rest d'

-- `for (auto b : entrybits) if (b) dev->setGenericBit(ioc, …)`
unfoldable pub set_code_bits : Uinput → ℕ → List ℕ → OutDevice → Reader OutDevice
set_code_bits u ioc [] d = pure d
set_code_bits u ioc (bit ∷ bits) d = do
  d' ← set_generic_bit u ioc bit d
  set_code_bits u ioc bits d'

-- The body of that loop over the event types that carry codes, behind the count of the bits.
unfoldable pub read_entry : Uinput → ℕ → Option OutDevice → ℕ → Reader (Option OutDevice × Bits)
read_entry u ev dev count = do
  bits ← must_read (byte_size count)
  let entry : Bits = record { bitcount = count; bytes = bits }
  dev' ← when_dev (set_code_bits u (ui_set_bit_ioc ev) (set_bits entry)) dev
  pure (dev', entry)

-- The loop; it returns the bits of the axes too.
unfoldable pub read_entries :
    Uinput → List ℕ → Option OutDevice → Bits → Reader (Option OutDevice × Bits)
read_entries u [] dev absbits = pure (dev, absbits)
read_entries u (ev ∷ evs) dev absbits = do
  c ← must_read 2
  (dev', entry) ← read_entry u ev dev (be16toh c)
  read_entries u evs dev' (if ev == ev_abs then entry else absbits)

-- `for (auto abs : absbits) …`
unfoldable pub read_axes : Uinput → Bool → List ℕ → Option OutDevice → Reader (Option OutDevice)
read_axes u modern [] dev = pure dev
read_axes u modern (i ∷ is) dev = do
  a ← must_read 24
  dev' ← when_dev (setup_absolute_axis u modern i (abs_to_host a)) dev
  read_axes u modern is dev'

-- The device, or none in the skipping mode.
unfoldable pub maybe_new : Uinput → Bool → Bool → Bytes → InputId → Reader (Option OutDevice × Bool)
maybe_new u modern true name id = pure (none, modern)
maybe_new u modern false name id = do
  (d, modern') ← new_out_device u modern name id
  pure (some d, modern')

-- `OutDevice::newFromNE2AddCommand`, on the packet and the stream behind it; `skip` reads the
-- announcement and makes no device. It returns the new `gUse_UI_DEV_SETUP` too.
unfoldable pub new_from_ne2_add_command :
    Uinput → Bool → Bool → Bytes → Reader (Option OutDevice × Bool)
new_from_ne2_add_command u modern skip pkt = do
  ensure (packet_cmd pkt == command_code add_device) wrong_packet
  ensure (be16toh (drop 4 pkt) == info_size) info_size_mismatch
  ensure (be16toh (drop 6 pkt) == name_size) name_size_mismatch
  name ← must_read name_size
  id ← must_read 8
  (dev, modern') ← maybe_new u modern skip (c_name name) (id_to_host id)
  n ← must_read 2
  ensure (be16toh n == ev_max) type_count_mismatch
  evs ← must_read (byte_size ev_max)
  let evbits : Bits = record { bitcount = ev_max; bytes = evs }
  dev1 ← when_dev (set_event_bits u (set_bits evbits)) dev
  (dev2, absbits) ← read_entries u (transferred (set_bits evbits)) dev1 empty
  dev3 ← read_axes u modern' (set_bits absbits) dev2
  state ← must_read (byte_size ev_max)
  dev4 ← when_dev (create u modern') dev3
  pure (dev4, modern')
