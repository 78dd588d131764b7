-- ===== src/Serve/Json/Depth.antt =====
-- The nesting of a JSON value: src/serve/json.rs.
use reinstinct.Base.{ℕ, suc, max}
use reinstinct.Serve.Json.{Json, Items, Fields, arr, obj, nil, cons, done, field}

module _ {F : Type 0} where
  -- How deep arrays and objects are nested.
  unfoldable mutual
    pub depth : Json F → ℕ
    depth (arr vs) = suc (depth_items vs)
    depth (obj kv) = suc (depth_fields kv)
    depth _ = 0

    pub depth_items : Items F → ℕ
    depth_items nil = 0
    depth_items (cons v vs) = max (depth v) (depth_items vs)

    pub depth_fields : Fields F → ℕ
    depth_fields done = 0
    depth_fields (field k v kv) = max (depth v) (depth_fields kv)
