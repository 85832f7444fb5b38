-- ===== src/Cat/Legacy/Trip.antt =====
-- `netevent cat --legacy` piped into `netevent create --legacy`.
use netevent.Prelude.{
  ℕ, zero, suc, ◌^◌, ◌<◌, ◌≡◌, refl, ap, ◌∙◌, Bool, true, false, not, List, [], ◌∷◌, ◌++◌, some,
  Bytes, length, leb, ◌==◌, if◌then◌else◌, arith, length-append, take-append, drop-append,
}
use netevent.Bits.{byte_size, IsValid}
use netevent.Text.Event.{ev_ff, ev_max}
use netevent.Packet.{InputEvent}
use netevent.Device.{AbsInfo, name_size}
use netevent.Device.In.{InDevice, Writes, grab}
use netevent.Device.In.Reads.{got, Stop, RawEvent, event_of, read, gone, broken}
use netevent.Device.Out.{Uinput, write, c_name}
use netevent.Device.Transfer.Spec.{IdFits, AbsFits, answering, concat, event_types}
use netevent.Device.Transfer.Sent.{concat-append}
use netevent.Device.Transfer.Read.{Works}
use netevent.Device.Legacy.{Layout, ne1_count, write_netevent_header}
use netevent.Device.Legacy.Spec.{ne1_described}
use netevent.Device.Legacy.Trip.{new_from_netevent_stream-write_netevent_header}
use netevent.Cat.{Cat, CatEnd, threw, read_error, sending, announced}
use netevent.Cat.Events.{answers, read_end, event_of-IsValid}
use netevent.Cat.Legacy.{
  EventLayout, Played, play_returned, event_size, legacy_round, legacy_events, played, play,
  cat_legacy, create_legacy,
}

-- The events that the device of version 1 gets: all but those of force feedback.
abbrev pub received : List RawEvent → List InputEvent
received [] = []
received (raw ∷ raws) =
    (if (event_of raw).type == ev_ff then [] else event_of raw ∷ []) ++ received raws

module _ (events : EventLayout) where
  abbrev images : List RawEvent → Bytes
  images [] = []
  images (raw ∷ raws) = events.event_image (event_of raw) ++ images raws

  legacy_sends :
      (c : Cat) (ev : InputEvent) (taken eof : Bool)
      → taken ≡ true
      → eof ≡ false
      → legacy_round events c taken (got ev (not eof)) ≡ sending (events.event_image ev) c
  unfolding legacy_round
  legacy_sends c ev taken eof t e = rw (t, e, not) refl

  legacy_events_lem :
      (takes : ℕ → Bool) (n : ℕ) (d : InDevice) (raws : List RawEvent) (s : Stop)
      → ((i : ℕ) → takes i ≡ true)
      → d.eof ≡ false
      → (concat (legacy_events events takes n d (answers raws s)).sent ≡ images raws)
        × ((legacy_events events takes n d (answers raws s)).ended
            ≡ threw (read_error (read_end s)))
  unfolding legacy_events legacy_round read
  legacy_events_lem takes n d [] gone t e = (refl, refl)
  legacy_events_lem takes n d [] (broken x) t e = (refl, refl)
  legacy_events_lem takes n d (raw ∷ raws) s t e =
      let (p, q) = legacy_events_lem takes (suc n) d raws s t e in
      rw
        (legacy_sends (legacy_events events takes (suc n) d (answers raws s)) (event_of raw)
          (takes n) d.eof (t n) e)
        (ap (◌++◌ (events.event_image (event_of raw))) p, q)

  -- A device that takes an event gets it, unless it is of force feedback.
  write_taken :
      (takes : InputEvent → Bool) (ev : InputEvent)
      → takes ev ≡ true
      → write takes ev ≡ some (if ev.type == ev_ff then [] else ev ∷ [])
  unfolding write
  write_taken takes ev t = ground arith

  -- One image is one round.
  play_step :
      (takes : ℕ → InputEvent → Bool) (fails : Bool) (fuel n : ℕ) (raw : RawEvent) (rest : Bytes)
      → takes n (event_of raw) ≡ true
      → play events takes fails (suc fuel) n (events.event_image (event_of raw) ++ rest)
        ≡ played events
            (some (if (event_of raw).type == ev_ff then [] else event_of raw ∷ []))
            (play events takes fails fuel (suc n) rest)
  unfolding play
  play_step takes fails fuel n raw rest t =
      let image : Bytes = events.event_image (event_of raw) in
      let size : length image ≡ event_size =
        events.length-event_image (event_of raw) (event_of-IsValid raw) in
      let enough : leb event_size (length (image ++ rest)) ≡ true =
        ground (arith, length-append image rest, size) in
      rw (enough, play)
        (rw (take-append event_size image rest size, drop-append event_size image rest size)
          (rw
            (
              events.read_event_image (event_of raw) (event_of-IsValid raw),
              write_taken (takes n) (event_of raw) t,
            )
            refl))

  play-images :
      (takes : ℕ → InputEvent → Bool) (fuel n : ℕ) (raws : List RawEvent)
      → ((i : ℕ) (ev : InputEvent) → takes i ev ≡ true)
      → length (images raws) < fuel
      → play events takes false fuel n (images raws)
        ≡ record { written = received raws; ended = play_returned 0 }
  unfolding play
  play-images takes zero n raws t h = absurd (omega arith)
  play-images takes (suc fuel) n [] t h = refl
  play-images takes (suc fuel) n (raw ∷ raws) t h =
      let size = length-append (events.event_image (event_of raw)) (images raws) in
      let image = events.length-event_image (event_of raw) (event_of-IsValid raw) in
      play_step takes false fuel n raw (images raws) (t n (event_of raw))
      ∙ ap
          (λ (p : Played).
            played events (some (if (event_of raw).type == ev_ff then [] else event_of raw ∷ [])) p)
          (play-images takes fuel (suc n) raws t (omega (arith, size, image)))

  images_behind :
      (w : Writes) (c : Cat) (b : Bytes) (e : CatEnd)
      → w.finished ≡ true
      → (concat c.sent ≡ b) × (c.ended ≡ e)
      → (concat (announced w c).sent ≡ concat w.sent ++ b) × ((announced w c).ended ≡ e)
  images_behind w c b e f (p, q) =
      rw f (concat-append w.sent c.sent ∙ ap (◌++◌ (concat w.sent)) p, q)

  -- What `cat` writes: its header and the images of the events.
  cat_legacy-images :
      (layout : Layout) (max_of : ℕ → ℕ) (bits_of states_of : ℕ → Bytes) (abs_of : ℕ → AbsInfo)
      (d : InDevice) (takes : ℕ → Bool) (opt_grab : Bool) (raws : List RawEvent) (s : Stop)
      → ((i : ℕ) → takes i ≡ true)
      → d.eof ≡ false
      → let k = answering bits_of abs_of in
        let states = λ (ev size : ℕ). some (states_of ev) in
        let w = write_netevent_header layout max_of k states d in
        w.finished ≡ true
        → let c = cat_legacy events layout max_of k states takes opt_grab d (answers raws s) in
          (concat c.sent ≡ concat w.sent ++ images raws)
          × (c.ended ≡ threw (read_error (read_end s)))
  unfolding cat_legacy grab write_netevent_header
  cat_legacy-images layout max_of bits_of states_of abs_of d takes true raws s t e f =
      images_behind
        (write_netevent_header layout max_of (answering bits_of abs_of)
          (λ ev size. some (states_of ev)) d)
        (legacy_events events takes 0 (record d { grabbing = true }) (answers raws s)) (images raws)
        (threw (read_error (read_end s))) f
        (legacy_events_lem takes 0 (record d { grabbing = true }) raws s t e)
  cat_legacy-images layout max_of bits_of states_of abs_of d takes false raws s t e f =
      images_behind
        (write_netevent_header layout max_of (answering bits_of abs_of)
          (λ ev size. some (states_of ev)) d)
        (legacy_events events takes 0 d (answers raws s)) (images raws)
        (threw (read_error (read_end s))) f (legacy_events_lem takes 0 d raws s t e)

  -- What `netevent cat --legacy` writes makes `netevent create --legacy` hold the device of its
  -- header and write to it all events but those of force feedback, in their order; then it returns 0.
  -- The kernel answers in full about the device, which delivers events and then goes away or fails,
  -- whereupon `cat` throws. The output takes the events, the driver of the receiver works, and its
  -- device takes the events. Both sides have the same layout in memory and the same greatest codes.
  pub create_legacy-cat_legacy :
      (layout : Layout) (max_of : ℕ → ℕ) (u : Uinput) (fd : ℕ) (bits_of states_of : ℕ → Bytes)
      (abs_of : ℕ → AbsInfo) (d : InDevice) (evs : Bytes) (raws : List RawEvent) (s : Stop)
      (opt_grab : Bool) (takes : ℕ → Bool) (accepts : ℕ → InputEvent → Bool)
      → Works u fd
      → ((ev : ℕ) → max_of ev < 2 ^ 16)
      → ((ev : ℕ) → length (bits_of ev) ≡ byte_size (ne1_count (max_of ev)))
      → ((ev : ℕ) → length (states_of ev) ≡ byte_size (ne1_count (max_of ev)))
      → ((i : ℕ) → AbsFits (abs_of i))
      → length d.dev_name ≡ name_size
      → length (c_name d.dev_name) < name_size
      → IdFits d.dev_id
      → d.evbits ≡ event_types evs
      → IsValid (event_types evs)
      → length evs ≡ byte_size ev_max
      → d.eof ≡ false
      → ((i : ℕ) → takes i ≡ true)
      → ((i : ℕ) (ev : InputEvent) → accepts i ev ≡ true)
      → let c =
          cat_legacy events layout max_of
            (answering bits_of abs_of)
            (λ ev size. some (states_of ev))
            takes
            opt_grab
            d
            (answers raws s) in
        (c.ended ≡ threw (read_error (read_end s)))
        × (create_legacy events layout max_of u accepts false (concat c.sent) ≡ (
          some (ne1_described fd max_of bits_of abs_of d.dev_name d.dev_id evs),
          record { written = received raws; ended = play_returned 0 },
        ))
  unfolding create_legacy
  create_legacy-cat_legacy layout max_of u fd bits_of states_of abs_of d evs raws s opt_grab takes
        accepts works small full states_full fits hn hc hi e v l eof t a =
      let (f, trip) =
        new_from_netevent_stream-write_netevent_header layout max_of u fd true bits_of states_of
          abs_of d evs (images raws) works small full states_full fits hn hc hi e v l in
      let (bytes, ended) =
        cat_legacy-images layout max_of bits_of states_of abs_of d takes opt_grab raws s t eof f in
      (
        ended,
        rw (bytes, create_legacy)
            (rw trip (
              ap
                (λ (p : Played).
                  (some (ne1_described fd max_of bits_of abs_of d.dev_name d.dev_id evs), p))
                (play-images accepts (suc (length (images raws))) 0 raws a (omega arith)))),
      )
