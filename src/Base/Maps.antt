-- ===== src/Base/Maps.antt =====
-- Maps from texts, as functions.
use Prim.Native.String.{String}
use text.Mathlib.Text.{◌==◌ as str_eq}
use starbies_schedule_sync.Base.Tests.{if◌then◌else◌}

-- `map.set(key, v)`, or `m[key] = v`; the value of a missing or deleted key is `none`.
abbrev pub put {ℓ} : {V : Type ℓ} → String → V → (String → V) → String → V
put k v f j = if str_eq k j then v else f j
