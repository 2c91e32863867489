-- ===== src/SiteConfig.antt =====
-- frontend/js/site_config.js: the schema and loadSiteConfig. The fetch is an argument: what awaiting
-- it gave. Console warnings are part of the result.
pub mod Entries
pub mod Keys
pub mod Laws
use orbital_viewer.Base.{
  ℕ, Bool, true, false, not, ◌&&◌, ◌||◌, Option, none, some, List, [], ◌∷◌, ◌++◌, if◌then◌else◌,
  Text, codes, ◌===◌,
}
use orbital_viewer.Base.Outcome.{ok, err}
use orbital_viewer.Num.{is_integer, le, whole}
use orbital_viewer.SiteConfig.Entries.{property_order, put}
use orbital_viewer.Toml.Document.{Failure, parse_toml}
use orbital_viewer.Value.{Value, bool, num, str}

pub data Kind : Type 0 where
  string boolean : Kind
  integer : (min max : ℕ) → Kind

pub record SchemaEntry : Type 0 where
  pub kind : Kind
  pub result_key : Text

-- What `SITE_CONFIG_SCHEMA[key]` finds: an own entry, a property of Object.prototype, or nothing.
pub data Found : Type 0 where
  own : SchemaEntry → Found
  inherited missing : Found

abbrev of_prototype : Text → Bool
of_prototype key =
    key === codes "constructor"
    || key === codes "__proto__"
    || key === codes "toString"
    || key === codes "valueOf"
    || key === codes "toLocaleString"
    || key === codes "hasOwnProperty"
    || key === codes "isPrototypeOf"
    || key === codes "propertyIsEnumerable"
    || key === codes "__defineGetter__"
    || key === codes "__defineSetter__"
    || key === codes "__lookupGetter__"
    || key === codes "__lookupSetter__"

unfoldable pub schema : Text → Found
schema key =
    if key === codes "websocket.host"
    then own (record { kind = string; result_key = codes "host" })
    else if key === codes "websocket.port"
    then own (record { kind = integer 1 65_535; result_key = codes "port" })
    else if key === codes "display.show_trails"
    then own (record { kind = boolean; result_key = codes "showTrails" })
    else if key === codes "display.trail_seconds"
    then own (record { kind = integer 0 60; result_key = codes "trailSeconds" })
    else if key === codes "display.show_labels"
    then own (record { kind = boolean; result_key = codes "showLabels" })
    else if of_prototype key
    then inherited
    else missing

unfoldable pub is_valid_value : Kind → Value → Bool
is_valid_value string (str _) = true
is_valid_value boolean (bool _) = true
is_valid_value (integer lo hi) (num x) = is_integer x && le (whole lo) x && le x (whole hi)
is_valid_value _ _ = false

pub data Warning : Type 0 where
  ignored_file : Failure → Warning
  unknown_key invalid_value : Text → Warning

pub record Loaded : Type 0 where
  pub config : List (Text × Value)
  pub warnings : List Warning

abbrev warn : Warning → Loaded → Loaded
warn w r = record r { warnings = r.warnings ++ w ∷ [] }

-- One round of the loop over the entries.
unfoldable pub accept : Loaded → Text → Value → Loaded
accept r key value = elim (schema key) [
  | missing ↦ warn (unknown_key key) r
  | inherited ↦ warn (invalid_value key) r
  | own e ↦
      if is_valid_value e.kind value
      then record r { config = put e.result_key value r.config }
      else warn (invalid_value key) r
]

unfoldable pub accept_all : Loaded → List (Text × Value) → Loaded
accept_all r [] = r
accept_all r ((key, value) ∷ es) = accept_all (accept r key value) es

-- What `fetchFn('config.toml')` gave: a rejection, no response object, or a response with its `ok`
-- and its text, `none` if reading the text was rejected.
pub data Fetched : Type 0 where
  rejected absent : Fetched
  response : (is_ok : Bool) (body : Option Text) → Fetched

abbrev pub nothing : Loaded
nothing = record { config = []; warnings = [] }

unfoldable pub load_text : Text → Loaded
load_text text = elim (parse_toml text) [
  | err f ↦ record { config = []; warnings = ignored_file f ∷ [] }
  | ok entries ↦ accept_all nothing (property_order entries)
]

unfoldable pub load_site_config : Fetched → Loaded
load_site_config (response true (some text)) = load_text text
load_site_config _ = nothing
