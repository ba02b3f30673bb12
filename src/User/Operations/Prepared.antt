-- ===== src/User/Operations/Prepared.antt =====
-- What `gumd_daemon_user_add` has prepared before it writes: a name and an id that are not in use.
use platform_upstream_gumd.Common.{
  ℕ, ◌≡◌, inl, inr, refl, ap, ◌∙◌, Option, none, some, Str, codes, Option-cases, arith,
}
use platform_upstream_gumd.Error.{Result, ok, err}
use platform_upstream_gumd.Database.{Group, Passwd}
use platform_upstream_gumd.StringUtils.{Strv}
use platform_upstream_gumd.Validate.{validate_name, generate_username}
use platform_upstream_gumd.File.{DbFiles, getpwnam, getpwuid}
use platform_upstream_gumd.Ids.Free.{IsFree, find_in_range-IsFree}
use platform_upstream_gumd.World.{
  Config, Os, State, Action, combinators, ◌>>=◌, lift, on_object, set_self,
}
use platform_upstream_gumd.World.Post.{Post, Triple, bind-Triple, gets-Triple}
use platform_upstream_gumd.World.Frame.{Keeps, accounts, set_self-Keeps}
use platform_upstream_gumd.Group.Operations.Frame.{group_add-Keeps}
use platform_upstream_gumd.User.Fields.{
  without_user_secret, store_user_secret, user_secret_from, set_user_secret, with_ages,
  set_shadow_data,
}
use platform_upstream_gumd.User.Steps.{group_or_new, set_group}
use platform_upstream_gumd.User.{
  UserObject, realname, set_gecos_property, with_gecos, set_uid_property, set_username_property,
  set_user_secret_property, set_user_gid_property, set_homedir_property,
}
use platform_upstream_gumd.User.Ids.{
  type_of, get_default_uid_range, find_free_uid, default_realname, name_generated, name_from,
  set_daemon_user_name, set_home, take_uid, choose_uid, set_uid,
}

-- The name and the id of an object, which most of its steps leave alone.
abbrev Names : UserObject → UserObject → Type 0
Names o o' = (o'.pw.pw_name ≡ o.pw.pw_name) × (o'.pw.pw_uid ≡ o.pw.pw_uid)

set_gecos_property-Names :
    (glib : Strv) (o : UserObject) (value : Option Str)
    → Names o (set_gecos_property glib realname value o)
unfolding set_gecos_property with_gecos
set_gecos_property-Names glib o value = ground arith

default_realname-Names : (glib : Strv) (o : UserObject) → Names o (default_realname glib o)
unfolding default_realname
default_realname-Names glib o = ground (arith, set_gecos_property-Names glib o o.pw.pw_name)

set_home-Names :
    (glib : Strv) (os : Os) (c : Config) (o : UserObject) → Names o (set_home glib os c o)
unfolding set_home set_homedir_property
set_home-Names glib os c o = ground arith

find_free_uid-IsFree :
    (glib : Strv) (c : Config) (f : DbFiles Passwd) (o : UserObject)
    → IsFree
        (λ uid. getpwuid uid f)
        (get_default_uid_range c (type_of glib o))
        (find_free_uid glib c f o)
unfolding find_free_uid
find_free_uid-IsFree glib c f o =
    find_in_range-IsFree (λ uid. getpwuid uid f) (get_default_uid_range c (type_of glib o))

module _ (glib : Strv) (os : Os) (c : Config) where
  store_user_secret-Keeps : (enc : Option Str) → Keeps (store_user_secret glib enc)
  unfolding store_user_secret
  store_user_secret-Keeps none = record { keeps = λ s. refl }
  store_user_secret-Keeps (some enc) = record { keeps = λ s. refl }

  user_secret_from-Keeps : (secret : Option Str) → Keeps (user_secret_from glib os c secret)
  unfolding user_secret_from
  user_secret_from-Keeps none = record { keeps = λ s. refl }
  user_secret_from-Keeps (some secret) = record { keeps = λ s. (store_user_secret-Keeps _).keeps s }

  pub set_user_secret-Keeps : Keeps (set_user_secret glib os c)
  unfolding set_user_secret
  set_user_secret-Keeps = record {
    keeps = λ s. (user_secret_from-Keeps s.self.pw.pw_passwd).keeps s;
  }

module _ (glib : Strv) (os : Os) (c : Config) (s0 : State UserObject) where
  abbrev pub Same : State UserObject → Type 0
  Same s = s.world.passwd ≡ s0.world.passwd

  -- The object has a valid name.
  abbrev pub Named : State UserObject → Type 0
  Named s = Same s × (validate_name s.self.pw.pw_name ≡ ok tt)

  -- The object has a valid name and an id that no entry of the file has.
  abbrev pub Ready : State UserObject → Type 0
  Ready s =
      Named s
      × (getpwnam s.self.pw.pw_name s0.world.passwd ≡ none)
      × (getpwuid s.self.pw.pw_uid s0.world.passwd ≡ none)

  name_generated-Named :
      (name : Str) (s : State UserObject)
      → Same s
      → s.self.pw.pw_name ≡ none
      → Post (λ _ t. Named t) Same (name_generated glib os name s)
  unfolding name_generated set_username_property combinators
  name_generated-Named name s h e =
      ground (arith, default_realname-Names glib (set_username_property (some name) s.self))

  generated_lifted :
      (r : Result Str) (s : State UserObject)
      → Same s
      → s.self.pw.pw_name ≡ none
      → Post (λ _ t. Named t) Same ((lift r >>= name_generated glib os) s)
  unfolding lift ◌>>=◌
  generated_lifted (ok tname) s h e = name_generated-Named tname s h e
  generated_lifted (err e') s h e = h

  name_from-Named :
      (name nick : Option Str) (s : State UserObject)
      → Same s
      → s.self.pw.pw_name ≡ name
      → Post (λ _ t. Named t) Same (name_from glib os name nick s)
  unfolding name_from combinators
  name_from-Named none none s h e = h
  name_from-Named (some name) nick s h e = ground (arith, default_realname-Names glib s.self)
  name_from-Named none (some nick) s h e =
      ground (arith, generated_lifted (generate_username os.md5 (some nick)) s h e)

  set_daemon_user_name-Named : Triple Same (λ _ t. Named t) Same (set_daemon_user_name glib os)
  unfolding set_daemon_user_name
  set_daemon_user_name-Named = record {
    holds = λ s h. name_from-Named s.self.pw.pw_name s.self.nick_name s h refl;
  }

  set_id_and_home :
      (s : State UserObject)
      → Named s
      → getpwnam s.self.pw.pw_name s.world.passwd ≡ none
      → (uid : ℕ) → getpwuid uid s.world.passwd ≡ none
      → Ready (record s { self = set_home glib os c (set_uid_property uid s.self) })
        × Ready (record s { self = set_uid_property uid s.self })
  unfolding set_uid_property
  set_id_and_home s h n uid f =
      ground (arith, set_home-Names glib os c (set_uid_property uid s.self))

  take_uid-Ready :
      (free : Option ℕ) (s : State UserObject)
      → Named s
      → getpwnam s.self.pw.pw_name s.world.passwd ≡ none
      → (IsFree
          (λ uid. getpwuid uid s.world.passwd)
          (get_default_uid_range c (type_of glib s.self))
          free)
      → Post (λ _ t. Ready t) Same (take_uid glib os c free s)
  unfolding take_uid combinators
  take_uid-Ready none s h n f = h.0
  take_uid-Ready (some uid) s h n f = ground (arith, set_id_and_home s h n uid f)

  choose_uid-Ready : Triple Named (λ _ t. Ready t) Same (choose_uid glib os c)
  unfolding choose_uid combinators
  choose_uid-Ready = record {
    holds = λ s h. elim (Option-cases (getpwnam s.self.pw.pw_name s.world.passwd)) [
      | inl e ↦ rw e (take_uid-Ready _ s h e (find_free_uid-IsFree glib c s.world.passwd s.self))
      | inr (p, e) ↦ rw e h.0
    ];
  }

  pub set_uid-Ready : Triple Same (λ _ t. Ready t) Same (set_uid glib os c)
  unfolding set_uid
  set_uid-Ready =
      bind-Triple Same Named (λ _ t. Ready t) Same _ _ set_daemon_user_name-Named
        λ _. choose_uid-Ready

  ready_after :
      {A : Type 0} (s : State UserObject) (x : Result A × State UserObject)
      → Ready s
      → accounts x.1 ≡ accounts s
      → Names s.self x.1.self
      → Post (λ _ t. Ready t) Same x
  ready_after s (ok a, t) h k n = ground (arith, ap (λ a. a.0) k)
  ready_after s (err e, t) h k n = ap (λ a. a.0) k ∙ h.0.0

  -- A step that leaves the files alone, and the name and the id of the object.
  Ready_kept :
      {A : Type 0} (m : Action UserObject A)
      → Keeps m
      → ((s : State UserObject) → Names s.self (m s).1.self)
      → Triple Ready (λ _ t. Ready t) Same m
  Ready_kept m p n = record { holds = λ s h. ready_after s (m s) h (p.keeps s) (n s) }

  group_or_new-Names :
      (grp : Option Group) (s : State UserObject)
      → Names s.self (group_or_new glib os c grp s).1.self
  unfolding group_or_new on_object
  group_or_new-Names none s = (refl, refl)
  group_or_new-Names (some g) s = (refl, refl)

  group_or_new-Keeps : (grp : Option Group) → Keeps (group_or_new glib os c grp)
  unfolding group_or_new on_object
  group_or_new-Keeps none = record { keeps = λ s. (group_add-Keeps os c s.self.pw.pw_uid).keeps _ }
  group_or_new-Keeps (some g) = record { keeps = λ s. refl }

  user_gid-Names :
      (gid : ℕ) (s : State UserObject)
      → Names s.self (set_self (set_user_gid_property gid) s).1.self
  unfolding set_self set_user_gid_property
  user_gid-Names gid s = ground arith

  pub set_group-Ready : Triple Ready (λ _ t. Ready t) Same (set_group glib os c)
  unfolding set_group
  set_group-Ready =
      bind-Triple Ready Ready (λ _ t. Ready t) Same _ _ (gets-Triple Ready Same _)
        λ grp.
          bind-Triple Ready Ready (λ _ t. Ready t) Same _ _
            (Ready_kept (group_or_new glib os c grp) (group_or_new-Keeps grp)
              (group_or_new-Names grp))
            λ gid.
              Ready_kept (set_self (set_user_gid_property gid)) (set_self-Keeps _)
                (user_gid-Names gid)

  with_x-Names : (o : UserObject) → Names o (set_user_secret_property (some (codes "x")) o)
  unfolding set_user_secret_property
  with_x-Names o = ground arith

  store_user_secret-Names :
      (enc : Option Str) (s : State UserObject) → Names s.self (store_user_secret glib enc s).1.self
  unfolding store_user_secret
  store_user_secret-Names none s = (refl, refl)
  store_user_secret-Names (some enc) s = with_x-Names _

  user_secret_from-Names :
      (secret : Option Str) (s : State UserObject)
      → Names s.self (user_secret_from glib os c secret s).1.self
  unfolding user_secret_from without_user_secret
  user_secret_from-Names none s = with_x-Names _
  user_secret_from-Names (some secret) s = store_user_secret-Names _ s

  set_user_secret-Ready : Triple Ready (λ _ t. Ready t) Same (set_user_secret glib os c)
  unfolding set_user_secret
  set_user_secret-Ready =
      Ready_kept (set_user_secret glib os c) (set_user_secret-Keeps glib os c)
        λ s. user_secret_from-Names s.self.pw.pw_passwd s

  -- A step on the object alone, which keeps the name and the id.
  set_self-Ready :
      (f : UserObject → UserObject)
      → ((o : UserObject) → Names o (f o))
      → Triple Ready (λ _ t. Ready t) Same (set_self f)
  unfolding set_self
  set_self-Ready f n = Ready_kept (set_self f) (set_self-Keeps f) λ s. n s.self

  pub set_shadow_data-Ready : Triple Ready (λ _ t. Ready t) Same (set_shadow_data glib os c)
  unfolding set_shadow_data with_ages
  set_shadow_data-Ready =
      bind-Triple Ready Ready (λ _ t. Ready t) Same _ _ (set_self-Ready _ λ o. (refl, refl))
        λ _.
          bind-Triple Ready Ready (λ _ t. Ready t) Same _ _ set_user_secret-Ready
            λ _.
              bind-Triple Ready Ready (λ _ t. Ready t) Same _ _ (gets-Triple Ready Same _)
                λ today. set_self-Ready _ λ o. (refl, refl)
