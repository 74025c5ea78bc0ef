-- ===== src/SocketIo/Settings.antt =====
-- src/socketio.rs: the checks on a session's settings.
pub mod Namespace
use wsblast.Common.{
  ℕ, zero, suc, ◌+◌, Bool, true, false, not, ◌&&◌, ◌||◌, Option, none, some, List, [], ◌∷◌, ◌++◌,
  Bytes, codes, length, ◌==◌, if◌then◌else◌,
}
use wsblast.Common.Text.{text_eq, is_empty, starts_with_slash}
use wsblast.Data.{DataSet}
use wsblast.Template.{Template, TemplateError, Values, is_dynamic, check_data, render}
use wsblast.SocketIo.Frame.{SocketIoConfig, Json}

pub data SettingsError : Type 0 where
  bad_namespace empty_event reserved_event auth_not_object : SettingsError
  auth_template : TemplateError → SettingsError
  auth_row : ℕ → SettingsError

pub has_comma : Bytes → Bool
has_comma [] = false
has_comma (c ∷ cs) = c == b',' || has_comma cs

abbrev reserved_events : List Bytes
reserved_events =
    codes "connect"
    ∷ codes "connect_error"
    ∷ codes "disconnect"
    ∷ codes "disconnecting"
    ∷ codes "newListener"
    ∷ codes "removeListener"
    ∷ []

is_reserved : Bytes → List Bytes → Bool
is_reserved event [] = false
is_reserved event (r ∷ rs) = text_eq r event || is_reserved event rs

module _ (json : Json) where
  auth_is_object : Option Template → Bool
  auth_is_object none = true
  auth_is_object (some auth) = if is_dynamic auth then true else json.is_object auth.source

  -- `validate`: the first fault.
  unfoldable pub validate : SocketIoConfig → Option SettingsError
  unfolding has_comma is_reserved auth_is_object
  validate config =
      if not (starts_with_slash config.namespace) || has_comma config.namespace
      then some bad_namespace
      else if is_empty config.event
      then some empty_event
      else if is_reserved config.event reserved_events
      then some reserved_event
      else if auth_is_object config.auth
      then none
      else some auth_not_object

  -- `clock` gives the milliseconds at which a row is rendered.
  abbrev pub row_values : (ℕ → ℕ) → Option DataSet → ℕ → Values
  row_values clock file row = record {
    seq_value = 0;
    worker = row;
    row = elim file [ none ↦ none | some d ↦ some (d, row) ];
    var_values = [];
    now_ms = clock row;
  }

  -- The loop over the rows, from a row on.
  pub check_rows : (ℕ → ℕ) → Template → Option DataSet → ℕ → ℕ → Option SettingsError
  check_rows clock auth file row zero = none
  check_rows clock auth file row (suc n) =
      let rest = check_rows clock auth file (suc row) n in
      if json.is_object (render auth (row_values clock file row)) then rest else some (auth_row row)

  abbrev row_count : Option DataSet → ℕ
  row_count none = 1
  row_count (some d) = length d.rows

  unfoldable pub check_auth : (ℕ → ℕ) → Template → Option DataSet → Option SettingsError
  unfolding check_rows
  check_auth clock auth file =
      let rows = check_rows clock auth file 0 (row_count file) in
      if is_dynamic auth
      then elim (check_data auth file) [ some e ↦ some (auth_template e) | none ↦ rows ]
      else none
