-- ===== src/Daemon/Ids.antt =====
-- The end of a device and the identifiers (daemon.cpp, `finishDeviceRemoval` and `getNextInputID`).
use netevent.Prelude.{
  ℕ, suc, ◌-◌, ◌%◌, ◌^◌, ◌≤◌, ◌≡◌, refl, inl, inr, ap, ◌∙◌, Bool, true, false, not, List, [], ◌∷◌,
  ◌++◌, some, Bytes, arith, length, ltb, ◌==◌, if◌then◌else◌, Bool-cases,
}
use netevent.Packet.{remove_packet}
use netevent.Daemon.Map.{Map, same_key, erase, string_lt}
use netevent.Daemon.State.{
  Daemon, Env, Input, done, M, ◌>>=◌, ◌>>◌, bind-done, modify, when, pure, skip, wrote,
}
use netevent.Daemon.Queue.{
  contains, remove_fd, write_to_output, write_to_outputs, announce_device_removal, without_device,
  cleanup_device_hotkeys,
}
use netevent.Daemon.Inputs.{input_at, finish_device_removal, get_next_input_id}

-- A call that returns and keeps the inputs, the hotkeys and the free identifiers.
pub record Quiet {A : Type 0} (m : M A) (d : Daemon) : Type 0 where
  pub value : A
  pub after : Daemon
  pub returns : m d ≡ done value after
  pub same_inputs : after.inputs ≡ d.inputs
  same_hotkeys : after.hotkeys ≡ d.hotkeys
  same_free : after.free_ids ≡ d.free_ids

quiet :
    {A : Type 0} (m : M A) (d d' : Daemon) (a : A)
    → m d ≡ done a d'
    → d'.inputs ≡ d.inputs
    → d'.hotkeys ≡ d.hotkeys
    → d'.free_ids ≡ d.free_ids
    → Quiet m d
quiet m d d' a r i h f = record {
  value = a;
  after = d';
  returns = r;
  same_inputs = i;
  same_hotkeys = h;
  same_free = f;
}

bind-Quiet :
    {A B : Type 0} (m : M A) (f : A → M B) (d : Daemon)
    → Quiet m d
    → ((a : A) (e : Daemon) → Quiet (f a) e)
    → Quiet (m >>= f) d
bind-Quiet m f d q k =
    let r = k q.value q.after in
    quiet (m >>= f) d r.after r.value (bind-done m f d q.after q.value q.returns ∙ r.returns)
      (r.same_inputs ∙ q.same_inputs) (r.same_hotkeys ∙ q.same_hotkeys) (r.same_free ∙ q.same_free)

remove_fd-Quiet : (fd : ℕ) (d : Daemon) → Quiet (remove_fd fd) d
remove_fd-Quiet fd d = elim (Bool-cases (contains d.remove_queue fd)) [
  | inl e ↦ quiet (remove_fd fd) d d tt (unfold remove_fd in rw e refl) refl refl refl
  | inr e ↦
      quiet (remove_fd fd) d (record d { remove_queue = d.remove_queue ++ (fd ∷ []) }) tt
        (unfold remove_fd in rw e refl) refl refl refl
]

drop_output-Quiet : (fd : ℕ) (d : Daemon) → Quiet (remove_fd fd >> pure false) d
drop_output-Quiet fd d =
    bind-Quiet (remove_fd fd) (λ _. pure false) d (remove_fd-Quiet fd d)
      (λ a e. quiet (pure false) e e false refl refl refl refl)

write_to_output-Quiet :
    (env : Env) (fd : ℕ) (bytes : Bytes) (d : Daemon) → Quiet (write_to_output env fd bytes) d
write_to_output-Quiet env fd bytes d = elim (Bool-cases (env.write_ok d.calls fd bytes)) [
  | inl e ↦
      quiet (write_to_output env fd bytes) d
        (record d { calls = suc d.calls; trace = wrote fd bytes ∷ d.trace }) true
        (unfold write_to_output in rw e refl) refl refl refl
  | inr e ↦
      let q = drop_output-Quiet fd (record d { calls = suc d.calls }) in
      quiet (write_to_output env fd bytes) d q.after q.value
        (unfold write_to_output in rw e q.returns) q.same_inputs q.same_hotkeys q.same_free
]

write_to_outputs-Quiet :
    (env : Env) (bytes : Bytes) (outputs : List (Bytes × ℕ)) (d : Daemon)
    → Quiet (write_to_outputs env bytes outputs) d
unfolding write_to_outputs
write_to_outputs-Quiet env bytes [] d = quiet skip d d tt refl refl refl refl
write_to_outputs-Quiet env bytes ((name, fd) ∷ outputs) d =
    bind-Quiet (write_to_output env fd bytes) (λ _. write_to_outputs env bytes outputs) d
      (write_to_output-Quiet env fd bytes d) (λ a e. write_to_outputs-Quiet env bytes outputs e)

pub announce-Quiet :
    (env : Env) (input : Input) (d : Daemon)
    → Quiet (when (not input.device.persistent) (announce_device_removal env input)) d
announce-Quiet env input d = elim (Bool-cases input.device.persistent) [
  | inl e ↦
      quiet (when (not input.device.persistent) (announce_device_removal env input)) d d tt
        (rw e refl) refl refl refl
  | inr e ↦
      let q = write_to_outputs-Quiet env (remove_packet input.id) d.outputs d in
      quiet (when (not input.device.persistent) (announce_device_removal env input)) d q.after tt
        (rw e (unfold announce_device_removal in q.returns)) q.same_inputs q.same_hotkeys
        q.same_free
]

string_lt_irrefl : (s : Bytes) → string_lt s s ≡ false
unfolding string_lt
string_lt_irrefl [] = refl
string_lt_irrefl (c ∷ s) = ground (arith, string_lt_irrefl s)

shorter_tail :
    {A : Type 0} (b : Bool) (x : A) (m n : List A)
    → b ≡ false
    → suc (length n) ≡ length m
    → suc (length (if b then m else x ∷ n)) ≡ suc (length m)
shorter_tail b x m n e h = rw e (ap suc h)

pub same_string : (s : Bytes) → same_key string_lt s s ≡ true
same_string s = rw (string_lt_irrefl s) refl

length-erase :
    (fd : ℕ) (name : Bytes) (input : Input) (m : Map Bytes Input)
    → input_at fd m ≡ some (name, input)
    → suc (length (erase string_lt name m)) ≡ length m
unfolding input_at erase
length-erase fd name input [] h = ground arith
length-erase fd name input ((j, i) ∷ m) h = elim (Bool-cases (same_key string_lt name j)) [
  | inl e ↦ rw e refl
  | inr e ↦ elim (Bool-cases (i.device.fd == fd)) [
    | inl here ↦ absurd (ground (arith, same_string name))
    | inr there ↦
        shorter_tail _ (j, i) m (erase string_lt name m) e
          (length-erase fd name input m (ground arith))
  ]
]

-- Once a device that is plugged in is closed for good, its removal returns: its input and its
-- hotkeys are gone, and the list of free identifiers is as it was.
pub finish_device_removal_lem :
    (env : Env) (fd : ℕ) (name : Bytes) (input : Input) (d : Daemon)
    → input_at fd d.inputs ≡ some (name, input)
    → (d' : Daemon) × (finish_device_removal env fd d ≡ done tt d')
      × (d'.inputs ≡ erase string_lt name d.inputs)
      × (d'.hotkeys ≡ without_device input.id d.hotkeys)
      × (d'.free_ids ≡ d.free_ids)
unfolding finish_device_removal cleanup_device_hotkeys
finish_device_removal_lem env fd name input d h =
    let q = announce-Quiet env input d in
    let rest : Unit {0} → M (Unit {0}) = λ _.
      cleanup_device_hotkeys input.id
      >> modify (λ e. record e { inputs = erase string_lt name e.inputs }) in
    (
      record q.after {
        hotkeys = without_device input.id q.after.hotkeys;
        inputs = erase string_lt name q.after.inputs;
      },
      rw h (
          bind-done (when (not input.device.persistent) (announce_device_removal env input)) rest d
            q.after q.value q.returns),
      ap (erase string_lt name) q.same_inputs,
      ap (without_device input.id) q.same_hotkeys,
      q.same_free,
    )

next_of_length :
    (d : Daemon) (n : ℕ)
    → d.free_ids ≡ []
    → suc (length d.inputs) ≡ n
    → n ≤ 2 ^ 16
    → get_next_input_id d ≡ done (n - 1) d
unfolding get_next_input_id
next_of_length d n f l b =
    let small : ltb 0xffff (length d.inputs) ≡ false = ground arith in
    let fits : length d.inputs % 2 ^ 16 ≡ n - 1 = omega arith in simp (small, f, fits)

-- While the list of free identifiers is empty and there are at most 2^16 devices, the removal of one
-- returns, and the next identifier is the number of the devices that were there, less one.
pub next_id_after_removal :
    (env : Env) (fd : ℕ) (name : Bytes) (input : Input) (d : Daemon)
    → input_at fd d.inputs ≡ some (name, input)
    → d.free_ids ≡ []
    → length d.inputs ≤ 2 ^ 16
    → (d' : Daemon) × (finish_device_removal env fd d ≡ done tt d')
      × (get_next_input_id d' ≡ done (length d.inputs - 1) d')
next_id_after_removal env fd name input d h f b =
    let (d', r, i, _, free) = finish_device_removal_lem env fd name input d h in
    (
      d',
      r,
      next_of_length d' (length d.inputs) (free ∙ f)
          (ap (λ (m : Map Bytes Input). suc (length m)) i ∙ length-erase fd name input d.inputs h)
          b,
    )
