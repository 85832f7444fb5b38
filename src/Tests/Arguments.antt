-- ===== src/Tests/Arguments.antt =====
-- Examples for options and for the messages of exceptions.
use netevent.Prelude.{
  ℕ, zero, suc, ◌-◌, ◌≤◌, ◌≡◌, ◌↔◌, refl, true, List, [], ◌∷◌, ◌++◌, some, Bytes, codes, arith,
  length, replicate, take,
}
use netevent.Device.Out.{c_name}
use netevent.Exceptions.{Printer, Prints, msgbuf_size, run_stores, errno_exception}
use netevent.Exceptions.Bounds.{Within, errno_exception_bounds}
use netevent.Exceptions.What.{what-errno_exception}
use netevent.Create.{resume}
use netevent.Options.Create.{CreateOptions, create_defaults, create_options}
use netevent.Options.Reference.{outcome, table, first_of, status_in, create_options-eq-table}

-- `snprintf` as the C library documents it.
abbrev print : Printer
print zero text = []
print (suc n) text = take n text ++ (0 ∷ [])

print-Prints : Prints print
print-Prints = record { print-zero = λ text. refl; print-suc = λ n text. refl }

errno_exception_bounds_example :
    Within (errno_exception print (some (codes "open(/tmp/x)")) (codes "No such file"))
    ↔ (length (codes "open(/tmp/x)") ≤ msgbuf_size)
errno_exception_bounds_example =
    errno_exception_bounds print print-Prints (codes "open(/tmp/x)") (codes "No such file")
      (omega arith)

what-errno_exception_example :
    c_name (
      run_stores
        (errno_exception print (some (codes "open(/tmp/x)")) (codes "No such file"))
        (replicate 40 1))
    ≡ c_name (take (msgbuf_size - 1) (codes "open(/tmp/x)" ++ (codes ": " ++ codes "No such file")))
what-errno_exception_example =
    what-errno_exception print print-Prints (codes "open(/tmp/x)") (codes "No such file")
      (replicate 40 1) (omega arith)

-- `-d resume --listen=@net --connect --daemonize`
abbrev create_results : List (ℕ × Bytes)
create_results = (b'd', codes "resume") ∷ (0x1001, codes "@net") ∷ (0x1004, []) ∷ (0x1003, []) ∷ []

abbrev pub chosen : CreateOptions
chosen = record create_defaults {
  no_legacy = true;
  daemonize = true;
  connect = true;
  duplicates = resume;
  listen = some (codes "@net");
}

create_options-eq-table_example :
    create_options create_results create_defaults
    ≡ outcome (table create_defaults create_results) (first_of status_in create_results)
create_options-eq-table_example = create_options-eq-table create_results create_defaults
