-- ===== src/Program/Piped.antt =====
-- `netevent cat` piped into `netevent create`, from their command lines on.
use netevent.Prelude.{ℕ, ◌≡◌, ap, ◌∙◌, Bool, true, false, List, [], ◌∷◌, none, Bytes, if◌then◌else◌}
use netevent.Device.In.Reads.{Node, Answer, RawEvent, Stop, open_device, opens}
use netevent.Device.In.{Evdev}
use netevent.Device.Transfer.Spec.{answering, concat}
use netevent.Cat.{Cat, cat, threw, read_error}
use netevent.Cat.Legacy.{cat_legacy}
use netevent.Cat.Events.{answers, read_end}
use netevent.Cat.Pipeline.{device, node, shared, cat-create}
use netevent.Options.{Arguments, go, CatOptions, cat_arguments}
use netevent.Options.Create.{CreateOptions, create_arguments}
use netevent.Create.{World, Client, Ended, create}
use netevent.Create.Messages.{Description, Fits, goes}
use netevent.Create.Step.{Serves}
use netevent.Create.Heard.{Matches}
use netevent.Create.Start.Connect.{daemonized_works}
use netevent.Create.Start.{System, start_from, start_create}
use netevent.Program.{
  Source, LegacyWorld, cat_ran, cat_parsed, cat_opened, cmd_cat, create_ran, create_started,
  create_legacy_or, create_parsed, cmd_create,
}

module _ (y : System) (w : World) (v : LegacyWorld) where
  -- Without `--legacy` and `--listen` the packets come from the standard input.
  cmd_create-create :
      (b : Arguments) (o : CreateOptions) (clients : List Client)
      → create_arguments b ≡ go o
      → o.legacy ≡ false
      → o.listen ≡ none
      → y.daemonizes ≡ true
      → cmd_create y w v b clients ≡ create_ran (create w o.duplicates false clients)
  unfolding cmd_create start_create
  cmd_create-create b o clients e l n d =
      ap (create_parsed y w v clients) e
      ∙ ap (λ (x : Bool). create_legacy_or y w v x o clients) l
      ∙ ap (create_started y w v o clients)
          (ap (start_from y o) n ∙ daemonized_works y o.daemonize _ _ d)

module _ (k : Source) where
  cmd_cat-cat :
      (a : Arguments) (o : CatOptions) (path : Bytes) (desc : Description) (fd : ℕ)
      (raws : List RawEvent) (s : Stop)
      → cat_arguments a ≡ go (o, path)
      → o.legacy ≡ false
      → k.node_at path ≡ node fd desc
      → open_device (node fd desc) ≡ opens (device fd false desc)
      → cmd_cat k a (answers raws s)
        ≡ cat_ran (cat k.evdev k.output o.grab (device fd false desc) (answers raws s))
  unfolding cmd_cat
  cmd_cat-cat a o path desc fd raws s e plain n opened =
      let l : List Answer = answers raws s in
      ap (cat_parsed k l) e
      ∙ ap (λ (x : Node). cat_opened k o l (open_device x)) n
      ∙ ap (cat_opened k o l) opened
      ∙ ap
          (λ (x : Bool). cat_ran (
            if x
            then cat_legacy k.events k.layout k.max_of k.evdev k.states k.output.takes o.grab
                (device fd false desc) l
            else cat k.evdev k.output o.grab (device fd false desc) l))
          plain

-- `netevent cat DEVICE` piped into `netevent create`, with any options that leave both in the second
-- protocol and have the receiver read its standard input: `cat` opens the device and writes its
-- announcement and its events, and throws when the device goes away or fails; `create` then holds a
-- copy of the device and wrote to it all events but those of force feedback, in their order. The
-- kernel answers in full about the device, the output takes what is written, the receiver's driver
-- works and its devices take the events, and the receiver gets into the background if it is asked to.
pub cmd_cat-cmd_create :
    (k : Source) (y : System) (w : World) (v : LegacyWorld) (fds : ℕ → ℕ) (desc : Description)
    (fd : ℕ) (raws : List RawEvent) (s : Stop) (a b : Arguments) (o : CatOptions) (path : Bytes)
    (p : CreateOptions)
    → cat_arguments a ≡ go (o, path)
    → o.legacy ≡ false
    → k.node_at path ≡ node fd desc
    → k.evdev ≡ answering desc.bits_of desc.abs_of
    → k.output.takes_hello ≡ true
    → ((i : ℕ) → k.output.takes i ≡ true)
    → Fits desc
    → Serves w fds
    → create_arguments b ≡ go p
    → p.legacy ≡ false
    → p.listen ≡ none
    → y.daemonizes ≡ true
    → (c : Cat) × (e : Ended) × (cmd_cat k a (answers raws s) ≡ cat_ran c)
      × (c.ended ≡ threw (read_error (read_end s)))
      × (cmd_create y w v b (record { bytes = concat c.sent; fails = false } ∷ []) ≡ create_ran e)
      × Matches (goes (shared fds desc raws)) e
cmd_cat-cmd_create k y w v fds desc fd raws s a b o path p parsed plain there kernel h t f serves
      given plain' stdin background =
    let (opened, ended, matches) =
      cat-create w fds p.duplicates false o.grab k.output desc fd raws s serves h t f in
    let c : Cat =
      cat (answering desc.bits_of desc.abs_of) k.output o.grab (device fd false desc)
        (answers raws s) in
    (
      c,
      create w p.duplicates false (record { bytes = concat c.sent; fails = false } ∷ []),
      cmd_cat-cat k a o path desc fd raws s parsed plain there opened
          ∙ ap
              (λ (x : Evdev).
                cat_ran (cat x k.output o.grab (device fd false desc) (answers raws s)))
              kernel,
      ended,
      cmd_create-create y w v b p _ given plain' stdin background,
      matches,
    )
