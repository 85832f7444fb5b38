-- ===== src/Options/Reference.antt =====
-- The options of `cmd_create` as a table: which option decides each variable.
use netevent.Prelude.{
  ℕ, ◌≡◌, refl, ap, ◌∙◌, Bool, true, false, List, [], ◌∷◌, Option, none, some, Bytes,
}
use netevent.Create.{Duplicates}
use netevent.Options.{Parsed, go, leaves, ◌>>=◌, exit_failure, getopt_error}
use netevent.Options.Create.{
  CreateOptions, CreateOption, help, legacy_on, legacy_off, daemonize_on, daemonize_off, connect_on,
  connect_off, duplicates_mode, listen_on, on_close, wrong_option, other_option, option_of,
  duplicates_of, ends_of, with_duplicates, with_end, create_option, create_options,
}

abbrev pub or_else : {A : Type 0} → Option A → A → A
or_else none a = a
or_else (some b) a = b

abbrev pub first_or : {A : Type 0} → Option A → Option A → Option A
first_or none r = r
first_or (some b) r = some b

-- What the last option that says something says.
abbrev pub last_of : {A : Type 0} → (CreateOption → Bytes → Option A) → A → List (ℕ × Bytes) → A
last_of f a [] = a
last_of f a ((c, arg) ∷ rs) = last_of f (or_else (f (option_of c) arg) a) rs

-- What the first option that says something says.
abbrev pub first_of : {A : Type 0} → (CreateOption → Bytes → Option A) → List (ℕ × Bytes) → Option A
first_of f [] = none
first_of f ((c, arg) ∷ rs) = first_or (f (option_of c) arg) (first_of f rs)

abbrev pub failure_of : {A : Type 0} → Option A → Option ℕ
failure_of none = some exit_failure
failure_of (some a) = none

-- The options that end the process, with its status.
abbrev pub status_in : CreateOption → Bytes → Option ℕ
status_in help arg = some 0
status_in duplicates_mode arg = failure_of (duplicates_of arg)
status_in on_close arg = failure_of (ends_of arg)
status_in other_option arg = some getopt_error
status_in _ arg = none

abbrev pub no_legacy_in : CreateOption → Bytes → Option Bool
no_legacy_in duplicates_mode arg = some true
no_legacy_in listen_on arg = some true
no_legacy_in on_close arg = some true
no_legacy_in _ arg = none

abbrev pub legacy_in : CreateOption → Bytes → Option Bool
legacy_in legacy_on arg = some true
legacy_in legacy_off arg = some false
legacy_in _ arg = none

abbrev pub daemonize_in : CreateOption → Bytes → Option Bool
daemonize_in daemonize_on arg = some true
daemonize_in daemonize_off arg = some false
daemonize_in _ arg = none

abbrev pub connect_in : CreateOption → Bytes → Option Bool
connect_in connect_on arg = some true
connect_in connect_off arg = some false
connect_in _ arg = none

abbrev pub duplicates_in : CreateOption → Bytes → Option Duplicates
duplicates_in duplicates_mode arg = duplicates_of arg
duplicates_in _ arg = none

abbrev pub end_in : CreateOption → Bytes → Option Bool
end_in on_close arg = ends_of arg
end_in _ arg = none

abbrev pub listen_in : CreateOption → Bytes → Option (Option Bytes)
listen_in listen_on arg = some (some arg)
listen_in _ arg = none

abbrev pub table : CreateOptions → List (ℕ × Bytes) → CreateOptions
table o rs = record {
  no_legacy = last_of no_legacy_in o.no_legacy rs;
  legacy = last_of legacy_in o.legacy rs;
  daemonize = last_of daemonize_in o.daemonize rs;
  connect = last_of connect_in o.connect rs;
  duplicates = last_of duplicates_in o.duplicates rs;
  end_on_close = last_of end_in o.end_on_close rs;
  listen = last_of listen_in o.listen rs;
}

abbrev pub outcome : CreateOptions → Option ℕ → Parsed CreateOptions
outcome o none = go o
outcome o (some status) = leaves status

-- What one option says about the variables.
abbrev decide : CreateOption → Bytes → CreateOptions → CreateOptions
decide k arg o = record {
  no_legacy = or_else (no_legacy_in k arg) o.no_legacy;
  legacy = or_else (legacy_in k arg) o.legacy;
  daemonize = or_else (daemonize_in k arg) o.daemonize;
  connect = or_else (connect_in k arg) o.connect;
  duplicates = or_else (duplicates_in k arg) o.duplicates;
  end_on_close = or_else (end_in k arg) o.end_on_close;
  listen = or_else (listen_in k arg) o.listen;
}

with_duplicates_lem :
    (o : CreateOptions) (m : Option Duplicates)
    → with_duplicates o m
      ≡ outcome (record o { no_legacy = true; duplicates = or_else m o.duplicates }) (failure_of m)
with_duplicates_lem o none = refl
with_duplicates_lem o (some mode) = refl

with_end_lem :
    (o : CreateOptions) (e : Option Bool)
    → with_end o e
      ≡ outcome
          (record o { no_legacy = true; end_on_close = or_else e o.end_on_close })
          (failure_of e)
with_end_lem o none = refl
with_end_lem o (some b) = refl

create_option-decide :
    (k : CreateOption) (arg : Bytes) (o : CreateOptions)
    → create_option k arg o ≡ outcome (decide k arg o) (status_in k arg)
unfolding create_option
create_option-decide help arg o = refl
create_option-decide duplicates_mode arg o = with_duplicates_lem o (duplicates_of arg)
create_option-decide on_close arg o = with_end_lem o (ends_of arg)
create_option-decide other_option arg o = refl
create_option-decide legacy_on arg o = refl
create_option-decide legacy_off arg o = refl
create_option-decide daemonize_on arg o = refl
create_option-decide daemonize_off arg o = refl
create_option-decide connect_on arg o = refl
create_option-decide connect_off arg o = refl
create_option-decide listen_on arg o = refl
create_option-decide wrong_option arg o = refl

-- An option and the options behind it.
outcome-bind :
    (status rest : Option ℕ) (o t : CreateOptions) (f : CreateOptions → Parsed CreateOptions)
    → f o ≡ outcome t rest
    → (outcome o status >>= f) ≡ outcome t (first_or status rest)
outcome-bind none rest o t f e = e
outcome-bind (some status) rest o t f e = refl

-- The loop over the options of `netevent create` does what the table says: the first option that
-- ends the process decides its status, and else every variable has the value of the last option
-- that sets it.
pub create_options-eq-table :
    (rs : List (ℕ × Bytes)) (o : CreateOptions)
    → create_options rs o ≡ outcome (table o rs) (first_of status_in rs)
unfolding create_options
create_options-eq-table [] o = refl
create_options-eq-table ((c, arg) ∷ rs) o =
    ap (λ (p : Parsed CreateOptions). p >>= create_options rs)
      (create_option-decide (option_of c) arg o)
    ∙ outcome-bind (status_in (option_of c) arg) (first_of status_in rs)
        (decide (option_of c) arg o) (table (decide (option_of c) arg o) rs) (create_options rs)
        (create_options-eq-table rs (decide (option_of c) arg o))
