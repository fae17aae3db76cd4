-- ===== src/Deffile/Types.antt =====
-- The types of pkg/build/types/definition.go, and the outcomes of its parser. A map or a slice that
-- may be nil, where the program tells nil from empty, is an Option.
use apptainer.Prelude.{String, List, [], Option, none, some, Assoc, ◌≡◌}
use mathlib.Core.Path.{subst}

-- A script section: its arguments and its text.
pub record Script : Type 0 where
  pub args : String
  pub script : String

pub record FileTransport : Type 0 where
  pub src : String
  pub dst : String

-- A `%files` section.
pub record Files : Type 0 where
  pub args : String
  pub files : List FileTransport

pub record ImageScripts : Type 0 where
  pub help : Script
  pub environment : Script
  pub runscript : Script
  pub test : Script
  pub startscript : Script

pub record ImageData : Type 0 where
  pub metadata : Option String
  pub labels : Assoc String
  pub image_scripts : ImageScripts

pub record Scripts : Type 0 where
  pub pre : Script
  pub setup : Script
  pub post : Script
  pub test : Script
  pub arguments : Script

pub record Data : Type 0 where
  pub files : List Files
  pub scripts : Scripts

pub record Definition : Type 0 where
  pub header : Option (Assoc String)
  pub image_data : ImageData
  pub build_data : Data
  pub custom_data : Option (Assoc String)
  pub raw : String
  pub full_raw : String
  pub app_order : List String

-- The errors of the parser, each with what its message quotes.
pub data ParseError : Type 0 where
  read_failed empty_definition no_stages token_too_long : ParseError
  invalid_section : List String → ParseError
  no_body : String → ParseError
  no_app_name : String → ParseError
  no_val : String → ParseError
  invalid_keyword : String → ParseError
  header_failed : ParseError → ParseError

-- `panicked` is a run that the Go runtime stops: an index out of range or a write to a nil map.
pub data Outcome (A : Type 0) : Type 0 where
  ok : A → Outcome A
  failed : ParseError → Outcome A
  panicked : Outcome A

abbrev pub and_then : {A B : Type 0} → Outcome A → (A → Outcome B) → Outcome B
and_then (ok a) f = f a
and_then (failed e) f = failed e
and_then panicked f = panicked

-- The predicate holds of the value, if there is one.
pub data Gives {ℓ} {A : Type 0} (P : A → Type ℓ) : Outcome A → Type ℓ where
  value : {a : A} → P a → Gives P (ok a)
  no_value : {e : ParseError} → Gives P (failed e)
  stopped : Gives P panicked

pub Gives-and_then {ℓ κ} :
    {A B : Type 0} {P : A → Type ℓ} {Q : B → Type κ} {r : Outcome A} {f : A → Outcome B}
    → Gives P r
    → ((a : A) → P a → Gives Q (f a))
    → Gives Q (and_then r f)
Gives-and_then (value {a} h) k = k a h
Gives-and_then no_value k = no_value
Gives-and_then stopped k = stopped

-- Nothing is known of the value.
abbrev pub Anything : {A : Type 0} → A → Type 0
Anything a = Unit

pub all_given : {A : Type 0} (r : Outcome A) → Gives Anything r
all_given (ok a) = value tt
all_given (failed e) = no_value
all_given panicked = stopped

module _ {ℓ} {A : Type 0} {P : A → Type ℓ} where
  pub Gives-ok : {r : Outcome A} {a : A} → Gives P r → r ≡ ok a → P a
  Gives-ok (value h) e = subst P (cc) h
  Gives-ok no_value e = cc
  Gives-ok stopped e = cc

abbrev pub or_default {ℓ} : {A : Type ℓ} → Option A → A → A
or_default none default = default
or_default (some a) default = a

abbrev pub no_script : Script
no_script = record { args = ""; script = "" }

-- The zero value of a definition.
abbrev pub no_definition : Definition
no_definition = record {
  header = none;
  image_data = record {
    metadata = none;
    labels = [];
    image_scripts = record {
      help = no_script;
      environment = no_script;
      runscript = no_script;
      test = no_script;
      startscript = no_script;
    };
  };
  build_data = record {
    files = [];
    scripts = record {
      pre = no_script;
      setup = no_script;
      post = no_script;
      test = no_script;
      arguments = no_script;
    };
  };
  custom_data = none;
  raw = "";
  full_raw = "";
  app_order = [];
}
