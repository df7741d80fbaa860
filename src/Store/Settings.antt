-- ===== src/Store/Settings.antt =====
-- internal/store/settings.go: the key-value table `cluster_settings`.
use poor_man_cluster.Common.{String, Bool, Option, none, some, Map, lookup, insert, if◌then◌else◌}
use poor_man_cluster.Common.Errors.{Error, plain, Result, ok, err}

abbrev pub err_setting_not_found : Error
err_setting_not_found = plain "setting not found"

abbrev pub query_failed : Error
query_failed = plain "get setting"

abbrev found : Option String → Result String
found none = err err_setting_not_found
found (some v) = ok v

-- `Store.Setting`
unfoldable pub setting : Bool → Map String → String → Result String
unfolding lookup
setting fails rows key = if fails then err query_failed else found (lookup key rows)

-- `Store.SetSetting`, an upsert.
unfoldable pub set_setting : Bool → Map String → String → String → Result (Map String)
unfolding insert
set_setting fails rows key value = if fails then err query_failed else ok (insert key value rows)

abbrev or_fallback : String → Result String → String
or_fallback fallback (ok v) = v
or_fallback fallback (err e) = fallback

-- `Store.SettingDefault`: a failed read is logged, and reads as an absent key.
unfoldable pub setting_default : Bool → Map String → String → String → String
unfolding setting
setting_default fails rows key fallback = or_fallback fallback (setting fails rows key)
