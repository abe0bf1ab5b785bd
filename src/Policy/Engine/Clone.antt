-- ===== src/Policy/Engine/Clone.antt =====
-- internal/policy/engine.go: the copies that the engine hands to a request.
use crawlwall.Base.{◌≡◌, refl, ap}
use crawlwall.Config.{
  Value, Items, Fields, null, bool, int, float, text, array, object, any_object, no_items, item,
  no_fields, field,
}
use crawlwall.Policy.Engine.{Engine, clone_value, clone_items, clone_map, site_input, sets_input}

mutual
  unfolding clone_value

  clone_value-eq : (v : Value) → clone_value v ≡ v
  clone_value-eq (object fs) = ap object (clone_map-eq fs)
  clone_value-eq (array xs) = ap array (clone_items-eq xs)
  clone_value-eq (any_object es) = refl
  clone_value-eq null = refl
  clone_value-eq (bool b) = refl
  clone_value-eq (int n) = refl
  clone_value-eq (float x) = refl
  clone_value-eq (text s) = refl

  clone_items-eq : (xs : Items) → clone_items xs ≡ xs
  clone_items-eq no_items = refl
  clone_items-eq (item x xs) = cc (clone_value-eq x, clone_items-eq xs)

  clone_map-eq : (fs : Fields) → clone_map fs ≡ fs
  clone_map-eq no_fields = refl
  clone_map-eq (field k x fs) = cc (clone_value-eq x, clone_map-eq fs)

-- A request sees the site and the sets as the engine holds them.
pub inputs_unchanged : (e : Engine) → (site_input e ≡ e.site) × (sets_input e ≡ e.sets)
unfolding site_input sets_input
inputs_unchanged e = (clone_map-eq e.site, clone_map-eq e.sets)
