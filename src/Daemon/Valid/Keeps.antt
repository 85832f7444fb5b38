-- ===== src/Daemon/Valid/Keeps.antt =====
-- Calls that leave a valid state behind, whether they return or throw, with a rule for each part of
-- the handlers.
pub mod Queue
pub mod Events
pub mod Ids
pub mod Inputs
pub mod Commands
pub mod Hotkeys
pub mod Outputs
pub mod Run
pub mod Loop
use netevent.Prelude.{ℕ, ◌≡◌, refl, Bool, true, false, Option, none, some, if◌then◌else◌}
use netevent.Daemon.State.{
  Daemon, Error, Effect, Outcome, done, thrown, out_of_fuel, M, pure, throw, ◌>>=◌, ◌>>◌, skip, get,
  modify, when, require, some_or, catch_all, effect, next_call,
}
use netevent.Daemon.Valid.{IsValid}

abbrev pub Valid : {A : Type 0} → Outcome A → Type 0
Valid (done a d) = IsValid d
Valid (thrown e d) = IsValid d
Valid out_of_fuel = Unit {0}

pub record Keeps {A : Type 0} (m : M A) : Type 0 where
  pub at : (d : Daemon) → IsValid d → Valid (m d)

-- What the parts of a state that validity is about decide.
pub same-IsValid :
    (d e : Daemon)
    → e.remove_queue ≡ d.remove_queue
    → e.inputs ≡ d.inputs
    → e.free_ids ≡ d.free_ids
    → e.hotkeys ≡ d.hotkeys
    → IsValid d
    → IsValid e
same-IsValid d e r i f h v = record {
  removed_once = rw r v.removed_once;
  in_order = rw i v.in_order;
  ids_fit = rw i v.ids_fit;
  free_fit = rw f v.free_fit;
  hotkeys_fit = rw (i, h) v.hotkeys_fit;
}

pub Keeps-pure : {A : Type 0} (a : A) → Keeps (pure a)
Keeps-pure a = record { at = λ d v. v }

pub Keeps-throw : {A : Type 0} (e : Error) → Keeps (throw {A = A} e)
Keeps-throw e = record { at = λ d v. v }

pub Keeps-skip : Keeps skip
Keeps-skip = record { at = λ d v. v }

pub Keeps-get : Keeps get
Keeps-get = record { at = λ d v. v }

-- A chain, with what its first part returned.
pub bind-Valid :
    {A B : Type 0} (o : Outcome A) (m : M A) (f : A → M B) (d : Daemon)
    → m d ≡ o
    → Valid o
    → ((a : A) (e : Daemon) → m d ≡ done a e → IsValid e → Valid (f a e))
    → Valid ((m >>= f) d)
bind-Valid (done a e) m f d q v k = rw (q, ◌>>=◌) (k a e q v)
bind-Valid (thrown x e) m f d q v k = rw (q, ◌>>=◌) v
bind-Valid out_of_fuel m f d q v k = rw (q, ◌>>=◌) tt

pub Keeps-bind :
    {A B : Type 0} (m : M A) (f : A → M B) → Keeps m → ((a : A) → Keeps (f a)) → Keeps (m >>= f)
Keeps-bind m f hm hf = record {
  at = λ d v. bind-Valid (m d) m f d refl (hm.at d v) (λ a e q u. (hf a).at e u);
}

pub Keeps-then : {B : Type 0} (m : M (Unit {0})) (k : M B) → Keeps m → Keeps k → Keeps (m >> k)
Keeps-then m k hm hk = Keeps-bind m (λ a. k) hm (λ a. hk)

catch-Valid :
    {A : Type 0} (o : Outcome A) (m : M A) (h : Error → M A) (d : Daemon)
    → m d ≡ o
    → Valid o
    → ((e : Error) → Keeps (h e))
    → Valid (catch_all m h d)
catch-Valid (done a e) m h d q v k = rw (q, catch_all) v
catch-Valid (thrown x e) m h d q v k = rw (q, catch_all) ((k x).at e v)
catch-Valid out_of_fuel m h d q v k = rw (q, catch_all) tt

pub Keeps-catch :
    {A : Type 0} (m : M A) (h : Error → M A)
    → Keeps m
    → ((e : Error) → Keeps (h e))
    → Keeps (catch_all m h)
Keeps-catch m h hm hh = record { at = λ d v. catch-Valid (m d) m h d refl (hm.at d v) hh }

pub Keeps-effect : (e : Effect) → Keeps (effect e)
Keeps-effect e = record { at = λ d v. same-IsValid d _ refl refl refl refl v }

pub Keeps-next_call : Keeps next_call
Keeps-next_call = record { at = λ d v. same-IsValid d _ refl refl refl refl v }

Keeps-require : (b : Bool) (e : Error) → Keeps (require b e)
Keeps-require true e = Keeps-skip
Keeps-require false e = Keeps-throw e

pub Keeps-some_or : {A : Type 0} (o : Option A) (e : Error) → Keeps (some_or o e)
Keeps-some_or none e = Keeps-throw e
Keeps-some_or (some a) e = Keeps-pure a

pub Keeps-when : (b : Bool) (m : M (Unit {0})) → Keeps m → Keeps (when b m)
Keeps-when true m h = record { at = h.at }
Keeps-when false m h = Keeps-skip

pub Keeps-if : {A : Type 0} (b : Bool) (m n : M A) → Keeps m → Keeps n → Keeps (if b then m else n)
Keeps-if true m n hm hn = hm
Keeps-if false m n hm hn = hn

-- A change of other parts.
pub Keeps-modify :
    (f : Daemon → Daemon)
    → ((d : Daemon) → (f d).remove_queue ≡ d.remove_queue)
    → ((d : Daemon) → (f d).inputs ≡ d.inputs)
    → ((d : Daemon) → (f d).free_ids ≡ d.free_ids)
    → ((d : Daemon) → (f d).hotkeys ≡ d.hotkeys)
    → Keeps (modify f)
Keeps-modify f r i q h = record { at = λ d v. same-IsValid d (f d) (r d) (i d) (q d) (h d) v }

same : {A : Type 0} (a : A) → a ≡ a
same a = refl

ruleset keeps_rules = (
  Keeps-pure, Keeps-throw, Keeps-skip, Keeps-get, Keeps-bind, Keeps-then, Keeps-catch, Keeps-effect,
  Keeps-next_call, Keeps-require, Keeps-some_or, Keeps-when, Keeps-if, Keeps-modify, same,
)
