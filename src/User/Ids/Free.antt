-- ===== src/User/Ids/Free.antt =====
-- The id that `_find_free_uid` gives, and when it gives none.
use platform_upstream_gumd.Common.{ℕ, ◌<◌, ◌≡◌, refl, ltb}
use platform_upstream_gumd.Database.{Passwd}
use platform_upstream_gumd.StringUtils.{Strv}
use platform_upstream_gumd.File.{DbFiles, invalid_id, getpwuid}
use platform_upstream_gumd.Ids.Free.{Searched, find_in_range-Searched}
use platform_upstream_gumd.World.{Config}
use platform_upstream_gumd.User.{UserObject}
use platform_upstream_gumd.User.Ids.{type_of, get_default_uid_range, find_free_uid}

range-proper :
    (c : Config) (ut : ℕ)
    → let range = get_default_uid_range c ut in range.proper ≡ ltb range.min range.max
unfolding get_default_uid_range
range-proper c ut = refl

-- With a range whose end is below the largest `uid_t`, the loop ends; `find_free_uid` gives the first id
-- of the range of the object's type that no entry has, and none only if the range is improper or
-- wholly in use.
pub find_free_uid-Searched :
    (glib : Strv) (c : Config) (f : DbFiles Passwd) (o : UserObject)
    → let range = get_default_uid_range c (type_of glib o) in
      range.max < invalid_id → Searched (λ uid. getpwuid uid f) range (find_free_uid glib c f o)
unfolding find_free_uid
find_free_uid-Searched glib c f o small =
    find_in_range-Searched (λ uid. getpwuid uid f) (get_default_uid_range c (type_of glib o)) small
      (range-proper c (type_of glib o))
