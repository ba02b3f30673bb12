-- ===== src/Client/Sync.antt =====
-- src/lib/gum-user.c, gum-group.c: the operations that wait, of the daemon's functions in the process
-- itself when the object is offline, and over D-Bus otherwise.
use platform_upstream_gumd.Common.{
  ℕ, ◌≡◌, refl, Bool, true, false, Option, none, some, Str, if◌then◌else◌, arith,
}
use platform_upstream_gumd.Error.{Result, ok, err}
use platform_upstream_gumd.Client.{Reply, path, finished, failed}

-- `offline_user` and `dbus_user`, or those of a group, of an object of the library.
pub record Handle : Type 0 where
  pub local : Option ℕ
  pub proxy : Option Str

abbrev pub no_objects : Handle
no_objects = record { local = none; proxy = none }

abbrev pub local_at : ℕ → Handle
local_at h = record { local = some h; proxy = none }

abbrev pub proxy_at : Str → Handle
proxy_at p = record { local = none; proxy = some p }

-- The daemon of an offline object, and what is at the other end of the bus.
pub record Site (D R : Type 0) : Type 0 where
  pub daemon : D
  pub remote : R

abbrev pub is_ok : {A : Type 0} → Result A → Bool
is_ok (ok x) = true
is_ok (err e) = false

abbrev pub succeeded : Reply → Bool
succeeded (failed e) = false
succeeded _ = true

-- `_create_dbus_user`, `_create_dbus_group`: the caller's error is passed by value. `proxied` says
-- whether a proxy can be made for a path.
abbrev pub made_for : (Str → Bool) → Str → Handle
made_for proxied p = record { local = none; proxy = if proxied p then some p else none }

abbrev pub handle_for : (Str → Bool) → Reply → Option Handle
handle_for proxied (path p) = some (made_for proxied p)
handle_for proxied finished = some no_objects
handle_for proxied (failed e) = none

abbrev pub found : Result ℕ → Option Handle
found (ok h) = some (local_at h)
found (err e) = none

-- `call` answers a method, of the object at a path or of the service; `available` says whether there is
-- a proxy of the service.
module _ {D R M : Type 0} (call : M → Option Str → R → Reply × R) (available : Bool)
    (proxied : Str → Bool) where
  -- The service is asked.
  unfoldable pub ask_service : M → Site D R → Option Handle × Site D R
  ask_service method s =
      let (r, remote) = call method none s.remote in
      (handle_for proxied r, record s { remote = remote })

  unfoldable pub create_sync : (D → ℕ × D) → M → Bool → Site D R → Option Handle × Site D R
  unfolding ask_service
  create_sync new_object method true s =
      let (h, d) = new_object s.daemon in (some (local_at h), record s { daemon = d })
  create_sync new_object method false s = if available then ask_service method s else (none, s)

  -- Without a service the object has none of its own, and it is returned all the same.
  unfoldable pub get_sync : (D → Result ℕ × D) → M → Bool → Site D R → Option Handle × Site D R
  unfolding ask_service
  get_sync get method true s = let (r, d) = get s.daemon in (found r, record s { daemon = d })
  get_sync get method false s = if available then ask_service method s else (some no_objects, s)

  abbrev pub over_bus : M → Option Str → Site D R → Bool × Site D R
  over_bus method none s = (false, s)
  over_bus method (some p) s =
      let (r, remote) = call method (some p) s.remote in (succeeded r, record s { remote = remote })

  abbrev pub on_either :
      {A : Type 0} → (ℕ → D → Result A × D) → M → Option ℕ → Option Str → Site D R → Bool × Site D R
  on_either act method none p s = over_bus method p s
  on_either act method (some h) p s =
      let (r, d) = act h s.daemon in (is_ok r, record s { daemon = d })

  unfoldable pub act_sync :
      {A : Type 0} → (ℕ → D → Result A × D) → M → Handle → Site D R → Bool × Site D R
  act_sync act method o s = on_either act method o.local o.proxy s

  -- Where no proxy can be made for a path, the object that is asked for is returned, and whatever is
  -- asked of it then fails and does nothing.
  unproxied_useless :
      {A : Type 0} (new_object : D → ℕ × D) (act : ℕ → D → Result A × D) (asked method : M)
      (p : Str) (s : Site D R) (t : R)
      → available ≡ true
      → call asked none s.remote ≡ (path p, t)
      → proxied p ≡ false
      → (o : Handle) × ((create_sync new_object asked false s ≡ (some o, record s { remote = t }))
          × ((u : Site D R) → act_sync act method o u ≡ (false, u)))
  unfolding create_sync act_sync ask_service
  unproxied_useless new_object act asked method p s t there answered unproxied =
      (no_objects, (ground (arith, answered), λ u. refl))
