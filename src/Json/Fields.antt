-- ===== src/Json/Fields.antt =====
-- The two ways in which `from_json` reads a field: `j.at(k).get_to(dst)`, and the same only if the
-- key is there.
use chowdy.Base.{Str, Result, ok, ◌>>=◌, if◌then◌else◌}
use chowdy.Json.{JsonLib}

module _ (L : JsonLib) where
  abbrev pub field {ℓ} : {A : Type ℓ} → (L.J → Result A) → Str → L.J → Result A
  field get k j = L.at k j >>= get

  abbrev pub field_or {ℓ} : {A : Type ℓ} → (L.J → Result A) → Str → A → L.J → Result A
  field_or get k default j = if L.contains k j then L.at k j >>= get else ok default
