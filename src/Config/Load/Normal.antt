-- ===== src/Config/Load/Normal.antt =====
-- internal/config/load.go: the defaults and the keys of maps after loading.
use mathlib.Core.Path.{subst}
use crawlwall.Base.{
  Result-cases, String, ◌≡◌, refl, ap, false, Option, none, some, ◌==◌, arith, Result, ok,
  if◌then◌else◌, Bool-cases, inl, inr,
}
use crawlwall.Base.Text.{is_blank}
use crawlwall.Config.{
  Value, Items, Fields, Entries, null, bool, int, float, text, array, object, any_object, no_items,
  item, no_fields, field, no_entries, entry, Config, Action,
}
use crawlwall.Config.Load.{
  insert_field, normalize_value, normalize_items, normalize_fields, normalize_entries,
  normalize_sets, apply_defaults, default_type, normalize, load_file, FilePaths, LoadError,
}

-- No map has keys other than texts, at any depth.
abbrev mutual
  pub TextKeys : Value → Type 0
  TextKeys (array xs) = TextKeysItems xs
  TextKeys (object fs) = TextKeysFields fs
  TextKeys (any_object es) = ⊥
  TextKeys null = Unit
  TextKeys (bool _) = Unit
  TextKeys (int _) = Unit
  TextKeys (float _) = Unit
  TextKeys (text _) = Unit

  pub TextKeysItems : Items → Type 0
  TextKeysItems no_items = Unit
  TextKeysItems (item x xs) = TextKeys x × TextKeysItems xs

  pub TextKeysFields : Fields → Type 0
  TextKeysFields no_fields = Unit
  TextKeysFields (field k x fs) = TextKeys x × TextKeysFields fs

insert_field-TextKeys :
    (k : String) (v : Value) (fs : Fields)
    → TextKeys v
    → TextKeysFields fs
    → TextKeysFields (insert_field k v fs)
unfolding insert_field
insert_field-TextKeys k v no_fields h i = (h, i)
insert_field-TextKeys k v (field j w fs) h i = elim (Bool-cases (j == k)) [
  | inl e ↦ rw e (h, i.1)
  | inr n ↦ rw n (i.0, insert_field-TextKeys k v fs h i.1)
]

-- The maps of a loaded configuration's sets.
abbrev pub SetsAreNormal : Option Fields → Type 0
SetsAreNormal none = ⊥
SetsAreNormal (some fs) = TextKeysFields fs

pub record IsLoaded (c : Config) : Type 0 where
  pub version : is_blank c.version ≡ false
  pub mode : is_blank c.site.mode ≡ false
  pub fail_mode : is_blank c.runtime.fail_mode ≡ false
  pub default_type : (c.runtime.default_action.type == "") ≡ false
  pub sets : SetsAreNormal c.sets

given_or : (s d : String) → is_blank d ≡ false → is_blank (if is_blank s then d else s) ≡ false
given_or s d h = ground arith

ok-injective : (a b : Config) → ◌≡◌ {A = Result LoadError Config} (ok a) (ok b) → a ≡ b
ok-injective a b h = cc

type_given : (a : Action) → ((default_type a).type == "") ≡ false
type_given a = elim (Bool-cases (a.type == "")) [ inl e ↦ rw e refl | inr n ↦ rw n n ]

module _ (sprint : Value → String) where
  mutual
    unfolding normalize_value

    normalize_value-TextKeys : (v : Value) → TextKeys (normalize_value sprint v)
    normalize_value-TextKeys (object fs) = normalize_fields-TextKeys fs
    normalize_value-TextKeys (any_object es) = normalize_entries-TextKeys es no_fields tt
    normalize_value-TextKeys (array xs) = normalize_items-TextKeys xs
    normalize_value-TextKeys null = tt
    normalize_value-TextKeys (bool b) = tt
    normalize_value-TextKeys (int n) = tt
    normalize_value-TextKeys (float x) = tt
    normalize_value-TextKeys (text s) = tt

    normalize_items-TextKeys : (xs : Items) → TextKeysItems (normalize_items sprint xs)
    normalize_items-TextKeys no_items = tt
    normalize_items-TextKeys (item x xs) = (normalize_value-TextKeys x, normalize_items-TextKeys xs)

    normalize_fields-TextKeys : (fs : Fields) → TextKeysFields (normalize_fields sprint fs)
    normalize_fields-TextKeys no_fields = tt
    normalize_fields-TextKeys (field k x fs) =
        (normalize_value-TextKeys x, normalize_fields-TextKeys fs)

    normalize_entries-TextKeys :
        (es : Entries) (out : Fields)
        → TextKeysFields out
        → TextKeysFields (normalize_entries sprint es out)
    normalize_entries-TextKeys no_entries out h = h
    normalize_entries-TextKeys (entry k x es) out h =
        normalize_entries-TextKeys es _
          (insert_field-TextKeys (sprint k) _ out (normalize_value-TextKeys x) h)

  mutual
    unfolding normalize_value

    normalize_value_fixed : (v : Value) → TextKeys v → normalize_value sprint v ≡ v
    normalize_value_fixed (object fs) h = ap object (normalize_fields_fixed fs h)
    normalize_value_fixed (any_object es) h = absurd h
    normalize_value_fixed (array xs) h = ap array (normalize_items_fixed xs h)
    normalize_value_fixed null h = refl
    normalize_value_fixed (bool b) h = refl
    normalize_value_fixed (int n) h = refl
    normalize_value_fixed (float x) h = refl
    normalize_value_fixed (text s) h = refl

    normalize_items_fixed : (xs : Items) → TextKeysItems xs → normalize_items sprint xs ≡ xs
    normalize_items_fixed no_items h = refl
    normalize_items_fixed (item x xs) h =
        cc (normalize_value_fixed x h.0, normalize_items_fixed xs h.1)

    normalize_fields_fixed : (fs : Fields) → TextKeysFields fs → normalize_fields sprint fs ≡ fs
    normalize_fields_fixed no_fields h = refl
    normalize_fields_fixed (field k x fs) h =
        cc (normalize_value_fixed x h.0, normalize_fields_fixed fs h.1)

  -- A normalised value has text keys at every depth, and normalising it again changes nothing.
  pub normalize_value_normal :
      (v : Value)
      → TextKeys (normalize_value sprint v)
        × (normalize_value sprint (normalize_value sprint v) ≡ normalize_value sprint v)
  normalize_value_normal v =
      let keys = normalize_value-TextKeys v in (keys, normalize_value_fixed _ keys)

  normalize_sets-normal : (o : Option Fields) → SetsAreNormal (normalize_sets sprint o)
  unfolding normalize_sets
  normalize_sets-normal none = tt
  normalize_sets-normal (some fs) = normalize_fields-TextKeys fs

  defaults-IsLoaded :
      (paths : FilePaths) (base : String) (c : Config)
      → IsLoaded (normalize paths sprint base (apply_defaults c))
  unfolding normalize apply_defaults
  defaults-IsLoaded paths base c = record {
    version = given_or c.version _ (unfold is_blank in refl);
    mode = given_or c.site.mode _ (unfold is_blank in refl);
    fail_mode = given_or c.runtime.fail_mode _ (unfold is_blank in refl);
    default_type = type_given c.runtime.default_action;
    sets = normalize_sets-normal c.sets;
  }

  -- A file that loads has a version, a site mode, a fail mode and a default action type, and its
  -- sets are a map whose maps have text keys at every depth.
  pub load_file-IsLoaded :
      (paths : FilePaths) (dir : String → String) (read : String → Result LoadError Config)
      (path : String) {c : Config}
      → load_file paths sprint dir read path ≡ ok c
      → IsLoaded c
  unfolding load_file
  load_file-IsLoaded paths dir read path h = elim (Result-cases (read path)) [
    | inl (c₀, e) ↦
        subst IsLoaded (ok-injective _ _ (rw e at h)) (defaults-IsLoaded paths (dir path) c₀)
    | inr (x, e) ↦ absurd (ground arith)
  ]
