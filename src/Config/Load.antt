-- ===== src/Config/Load.antt =====
-- internal/config/load.go: the defaults and the normal form that a decoded file gets. Reading the
-- file and decoding YAML are outside; `read` gives their outcome. The fields of an `any_object`
-- stand in the order of one iteration of the Go map.
pub mod Normal
use crawlwall.Base.{
  String, Bool, true, false, not, ◌&&◌, Option, none, some, ◌==◌, Result, ok, err, ◌>>=◌,
  if◌then◌else◌,
}
use crawlwall.Base.Text.{is_blank}
use crawlwall.Config.{
  Value, Items, Fields, Entries, null, bool, int, float, text, array, object, any_object, no_items,
  item, no_fields, field, no_entries, entry, Config, version_v1, site_mode_enforce, fail_mode_block,
  action_allow, Action,
}

-- `out[key] = value`
unfoldable pub insert_field : String → Value → Fields → Fields
insert_field k v no_fields = field k v no_fields
insert_field k v (field j w fs) = if j == k then field k v fs else field j w (insert_field k v fs)

module _ (sprint : Value → String) where
  unfoldable mutual
    unfolding insert_field

    pub normalize_value : Value → Value
    normalize_value (object fs) = object (normalize_fields fs)
    normalize_value (any_object es) = object (normalize_entries es no_fields)
    normalize_value (array xs) = array (normalize_items xs)
    normalize_value null = null
    normalize_value (bool b) = bool b
    normalize_value (int n) = int n
    normalize_value (float x) = float x
    normalize_value (text s) = text s

    pub normalize_items : Items → Items
    normalize_items no_items = no_items
    normalize_items (item x xs) = item (normalize_value x) (normalize_items xs)

    pub normalize_fields : Fields → Fields
    normalize_fields no_fields = no_fields
    normalize_fields (field k x fs) = field k (normalize_value x) (normalize_fields fs)

    pub normalize_entries : Entries → Fields → Fields
    normalize_entries no_entries out = out
    normalize_entries (entry k x es) out =
        normalize_entries es (insert_field (sprint k) (normalize_value x) out)

  unfoldable pub normalize_sets : Option Fields → Option Fields
  normalize_sets none = some no_fields
  normalize_sets (some fs) = some (normalize_fields fs)

abbrev default_type : Action → Action
default_type a = if a.type == "" then record a { type = action_allow } else a

unfoldable pub apply_defaults : Config → Config
apply_defaults c = record c {
  version = if is_blank c.version then version_v1 else c.version;
  site = record c.site { mode = if is_blank c.site.mode then site_mode_enforce else c.site.mode };
  runtime = record c.runtime {
    fail_mode = if is_blank c.runtime.fail_mode then fail_mode_block else c.runtime.fail_mode;
    default_action = default_type c.runtime.default_action;
  };
}

-- `filepath.IsAbs`, and `filepath.Clean` of `filepath.Join`
pub record FilePaths : Type 0 where
  pub is_abs : String → Bool
  pub clean_join : String → String → String

unfoldable pub normalize : FilePaths → (Value → String) → String → Config → Config
normalize paths sprint base_dir c = record c {
  sets = normalize_sets sprint c.sets;
  receipts = record c.receipts {
    signer = record c.receipts.signer {
      key_file =
          if c.receipts.enabled
            && not (c.receipts.signer.key_file == "")
            && not (paths.is_abs c.receipts.signer.key_file)
          then paths.clean_join base_dir c.receipts.signer.key_file
          else c.receipts.signer.key_file;
    };
  };
}

pub data LoadError : Type 0 where
  read_failed decode_failed : String → LoadError

unfoldable pub load_file :
    FilePaths
    → (Value → String)
    → (String → String)
    → (String → Result LoadError Config)
    → String
    → Result LoadError Config
unfolding apply_defaults normalize
load_file paths sprint dir read path =
    read path >>= λ c. ok (normalize paths sprint (dir path) (apply_defaults c))
