-- ===== src/Client/Services.antt =====
-- src/lib/gum-user-service.c: the service of the users as the library has it. There is one object, which
-- all callers share; its proxy is made by a source of the main loop.
use platform_upstream_gumd.Common.{
  ℕ, ◌≡◌, refl, ap, ◌∙◌, Bool, true, false, Option, none, some, List, [], ◌∷◌, Str, ◌==◌,
  if◌then◌else◌, arith,
}
use platform_upstream_gumd.Error.{Result, ok, err}
use platform_upstream_gumd.File.{invalid_id}
use platform_upstream_gumd.Client.{
  GError, Op, Client, without, create_op, run_op, start_on_object, queued,
}
use platform_upstream_gumd.Client.Turns.{freed_op-idle}
use platform_upstream_gumd.Client.Sync.{Handle}

-- `GumUserService`; a call has the types that are asked for.
pub record UserService : Type 0 where
  pub base : Client (Option (List Str))
  pub dbus_proxy_cb_id : ℕ

-- What comes of making a proxy: its path, or an error.
pub data Proxy : Type 0 where
  at_path : Str → Proxy
  no_proxy : GError → Proxy

-- A service without an operation or a callback has nothing to set up, and nothing to call.
abbrev pub set_up_op :
    (List ℕ → ℕ)
    → Option Op
    → Option GError
    → Client (Option (List Str))
    → Client (Option (List Str))
set_up_op new_id none error c = c
set_up_op new_id (some op) error c = queued new_id (λ p. true) op.callback op error c

abbrev pub run_service_op :
    ℕ → Option Op → Client (Option (List Str)) → Option (Client (Option (List Str)))
run_service_op id none c = some (record c { idle = without id c.idle })
run_service_op id (some op) c = run_op id (some op) c

-- `_trigger_callback` of a service, which does nothing without an operation.
unfoldable pub trigger_service_callback :
    ℕ → Client (Option (List Str)) → Option (Client (Option (List Str)))
unfolding without
trigger_service_callback id c = run_service_op id c.op c

module _ (new_id : List ℕ → ℕ) where
  unfoldable pub setup_service_callback : Option GError → UserService → UserService
  setup_service_callback error s = record s { base = set_up_op new_id s.base.op error s.base }

  unfoldable pub setup_proxy_callback : UserService → UserService
  setup_proxy_callback s =
      if s.dbus_proxy_cb_id == 0
      then record s {
        dbus_proxy_cb_id = new_id s.base.idle;
        base = record s.base { idle = new_id s.base.idle ∷ s.base.idle };
      }
      else s

  abbrev pub with_proxy : Option Str → Proxy → UserService → UserService
  unfolding setup_service_callback
  with_proxy (some p) made s =
      setup_service_callback none (record s { base = record s.base { dbus_object = some p } })
  with_proxy none (at_path p) s =
      setup_service_callback none (record s { base = record s.base { dbus_object = some p } })
  with_proxy none (no_proxy e) s = setup_service_callback (some e) s

  abbrev pub own_or : Option Str → Option Str → Option Str
  own_or none shared = shared
  own_or (some p) shared = some p

  -- `_service_dbus_proxy_callback`: the own proxy, or one that the thread shares, or a new one
  unfoldable pub service_dbus_proxy_callback : Option Str → Proxy → UserService → UserService
  unfolding setup_service_callback
  service_dbus_proxy_callback shared made s =
      with_proxy (own_or s.base.dbus_object shared) made (record s { dbus_proxy_cb_id = 0 })

  -- The main loop calls it, and its source goes.
  unfoldable pub run_proxy_callback : Option Str → Proxy → UserService → UserService
  unfolding service_dbus_proxy_callback without
  run_proxy_callback shared made s =
      service_dbus_proxy_callback shared made
        (record s { base = record s.base { idle = without s.dbus_proxy_cb_id s.base.idle } })

  unfoldable pub gum_user_service_create : Option ℕ → UserService → UserService
  unfolding setup_proxy_callback create_op
  gum_user_service_create callback s =
      setup_proxy_callback (record s { base = create_op callback s.base })

  unfoldable pub gum_user_service_create_sync :
      Bool → Option Str → Proxy → UserService → UserService
  unfolding service_dbus_proxy_callback
  gum_user_service_create_sync true shared made s = s
  gum_user_service_create_sync false shared made s = service_dbus_proxy_callback shared made s

  abbrev pub proxy_error : Option Str → Proxy → Option GError
  proxy_error (some p) made = none
  proxy_error none (at_path p) = none
  proxy_error none (no_proxy e) = some e

  abbrev pub proxy_of : Option Str → Proxy → Option Str
  proxy_of (some p) made = some p
  proxy_of none (at_path p) = some p
  proxy_of none (no_proxy e) = none

  -- The service, with the operation of its creation and its source.
  abbrev creating : ℕ → UserService → UserService
  creating cb s = record s {
    dbus_proxy_cb_id = new_id [];
    base = record s.base {
      op = some (record { callback = some cb; error = none; cb_id = 0 });
      idle = new_id [] ∷ [];
    };
  }

  create-creating :
      (cb : ℕ) (s : UserService)
      → s.base.idle ≡ []
      → s.dbus_proxy_cb_id ≡ 0
      → gum_user_service_create (some cb) s ≡ creating cb s
  unfolding gum_user_service_create setup_proxy_callback create_op
  create-creating cb s i z = rw (z, freed_op-idle s.base.op s.base.idle i) refl

  -- The service without its source, and the operation still to be called back.
  abbrev opened : ℕ → UserService → UserService
  opened cb s = record s {
    dbus_proxy_cb_id = 0;
    base = record s.base {
      op = some (record { callback = some cb; error = none; cb_id = 0 });
      idle = [];
    };
  }

  abbrev told : ℕ → Option Str → Option GError → UserService → Client (Option (List Str))
  told cb o e s = record s.base {
    dbus_object = o;
    op = some (record { callback = some cb; error = e; cb_id = 0 });
    idle = [];
    called = (cb, e) ∷ s.base.called;
  }

  run_proxy_callback-creating :
      (cb : ℕ) (shared : Option Str) (made : Proxy) (s : UserService)
      → run_proxy_callback shared made (creating cb s)
        ≡ with_proxy (own_or s.base.dbus_object shared) made (opened cb s)
  unfolding run_proxy_callback service_dbus_proxy_callback without
  run_proxy_callback-creating cb shared made s = ground arith

  with_proxy-told :
      (cb : ℕ) (o shared : Option Str) (made : Proxy) (s : UserService)
      → let own = own_or o shared in
        let s' = record s { base = record s.base { dbus_object = o } } in
        trigger_service_callback (new_id []) (with_proxy own made (opened cb s')).base
        ≡ some (told cb (proxy_of own made) (proxy_error own made) s)
  unfolding setup_service_callback trigger_service_callback without
  with_proxy-told cb (some p) shared made s = ground arith
  with_proxy-told cb none (some p) made s = ground arith
  with_proxy-told cb none none (at_path p) s = ground arith
  with_proxy-told cb none none (no_proxy e) s = ground arith

  -- A service that is created while none of its sources is there: when the main loop has called its
  -- source, and the one of the callback after it, the callback has been called once, with the error of
  -- making a proxy if there was none to use; and the service has the proxy.
  pub create_called :
      (cb : ℕ) (shared : Option Str) (made : Proxy) (s : UserService)
      → s.base.idle ≡ []
      → s.dbus_proxy_cb_id ≡ 0
      → let t = run_proxy_callback shared made (gum_user_service_create (some cb) s) in
        let own = own_or s.base.dbus_object shared in
        (d : Client (Option (List Str))) × ((trigger_service_callback (new_id []) t.base ≡ some d)
          × ((d.called ≡ (cb, proxy_error own made) ∷ s.base.called)
              × ((d.dbus_object ≡ proxy_of own made) × (d.idle ≡ []))))
  create_called cb shared made s i z =
      let own = own_or s.base.dbus_object shared in
      (
        told cb (proxy_of own made) (proxy_error own made) s,
        (
          ap (λ t. trigger_service_callback (new_id []) (run_proxy_callback shared made t).base)
                (create-creating cb s i z)
              ∙ ap (λ t. trigger_service_callback (new_id []) t.base)
                  (run_proxy_callback-creating cb shared made s)
              ∙ with_proxy-told cb s.base.dbus_object shared made s,
          (refl, (refl, refl)),
        ),
      )

unfoldable pub gum_user_service_get_user_list :
    UserService → Option (List Str) → Option ℕ → Bool × UserService
unfolding start_on_object
gum_user_service_get_user_list s types callback =
    let (r, c) = start_on_object callback types s.base in (r, record s { base = c })

module _ {S : Type 0} (get_sync : ℕ → S → Option Handle × S) where
  abbrev pub prepended : Option Handle → List Handle → List Handle
  prepended none users = users
  prepended (some u) users = u ∷ users

  -- `_uids_variant_to_user_list`: the users are got one after the other.
  unfoldable pub uids_to_user_list : List ℕ → S → List Handle × S
  uids_to_user_list [] s = ([], s)
  uids_to_user_list (uid ∷ rest) s = elim (uid == invalid_id) [
    | true ↦ uids_to_user_list rest s
    | false ↦
        let (u, s1) = get_sync uid s in
        let (users, s2) = uids_to_user_list rest s1 in (prepended u users, s2)
  ]

  abbrev pub listed : Result (List ℕ) × S → List Handle × S
  listed (ok uids, s) = uids_to_user_list uids s
  listed (err e, s) = ([], s)

  -- What lists the uids, the daemon in the process or the one on the bus, if there is one
  unfoldable pub get_user_list_sync : Option (S → Result (List ℕ) × S) → S → List Handle × S
  unfolding uids_to_user_list
  get_user_list_sync none s = ([], s)
  get_user_list_sync (some list) s = listed (list s)
