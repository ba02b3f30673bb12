-- ===== src/Server/MsgBus.antt =====
-- src/daemon/dbus/gumd-dbus-server-msg-bus.c: the server on the message bus, which owns a name there. It
-- closes itself, by a source of the main loop, when both of its services have been disposed of.
use platform_upstream_gumd.Common.{
  ℕ, ◌+◌, ◌-◌, ◌≤◌, ◌≡◌, ◌≢◌, refl, sym, ◌∙◌, subst, Bool, true, false, Option, none, some, ◌==◌,
  if◌then◌else◌, ◌⊎◌, arith,
}
use mathlib.Core.Option.{some-injective}

-- `closing` counts the sources of `_close_server`, and `refs` the references to the server; `acquired` says
-- that the bus has called it back.
pub record MsgBus : Type 0 where
  pub user_service : Bool
  pub group_service : Bool
  pub name_owned : Bool
  pub acquired : Bool
  pub refs : ℕ
  pub closing : ℕ

-- `_gumd_dbus_server_msg_bus_start` on a new server
abbrev pub started : MsgBus
started = record {
  user_service = false;
  group_service = false;
  name_owned = true;
  acquired = false;
  refs = 1;
  closing = 0;
}

unfoldable pub on_bus_acquired : MsgBus → MsgBus
on_bus_acquired s = record s { user_service = true; group_service = true; acquired = true }

unfoldable pub on_user_interface_dispose : MsgBus → MsgBus
on_user_interface_dispose s =
    let s' = record s { user_service = false } in
    if s.group_service then s' else record s' { closing = s.closing + 1 }

unfoldable pub on_group_interface_dispose : MsgBus → MsgBus
on_group_interface_dispose s =
    let s' = record s { group_service = false } in
    if s.user_service then s' else record s' { closing = s.closing + 1 }

unfoldable pub stop : MsgBus → MsgBus
stop s = record s { user_service = false; group_service = false; name_owned = false }

-- `g_object_unref`: it is an error without a reference.
unfoldable pub unref : MsgBus → Option MsgBus
unfolding stop
unref s =
    let s' = record s { refs = s.refs - 1 } in
    if s.refs == 0 then none else some (if s'.refs == 0 then stop s' else s')

-- A source of the main loop, which goes with its call
unfoldable pub close_server : MsgBus → Option MsgBus
unfolding unref
close_server s = unref (record s { closing = s.closing - 1 })

unfoldable pub on_name_lost : MsgBus → Option MsgBus
unfolding unref
on_name_lost s = unref s

-- What happens to a server whose name is not lost.
pub data Runs : MsgBus → Type 0 where
  begun : Runs started
  acquires : {s : MsgBus} → Runs s → s.acquired ≡ false → Runs (on_bus_acquired s)
  user_gone : {s : MsgBus} → Runs s → s.user_service ≡ true → Runs (on_user_interface_dispose s)
  group_gone : {s : MsgBus} → Runs s → s.group_service ≡ true → Runs (on_group_interface_dispose s)
  closes : {s t : MsgBus} → Runs s → s.closing ≢ 0 → close_server s ≡ some t → Runs t

-- The server is closed by one source, which is there exactly from the time when both services have gone
-- to the time when the server goes.
abbrev pub Counted : MsgBus → Type 0
Counted s =
    (s.refs ≡ (
      if s.acquired
      then (if s.user_service then 1 else if s.group_service then 1 else s.closing)
      else 1))
    × (s.closing ≤ 1)
    × ((s.acquired ≡ false)
        → (s.user_service ≡ false) × (s.group_service ≡ false) × (s.closing ≡ 0))
    × ((s.user_service ≡ true) ⊎ (s.group_service ≡ true) → s.closing ≡ 0)
    × (s.name_owned ≡ (if s.refs == 0 then false else true))

abbrev gone : MsgBus → MsgBus
unfolding stop
gone s = stop (record s { refs = 0; closing = s.closing - 1 })

close_server-gone : (s : MsgBus) → s.refs ≡ 1 → close_server s ≡ some (gone s)
unfolding close_server unref stop
close_server-gone s e = rw e refl

last_one : (s : MsgBus) → Counted s → s.closing ≢ 0 → s.refs ≡ 1
last_one s h n = ground (arith, h, n)

closed-Counted : (s t : MsgBus) → Counted s → s.closing ≢ 0 → close_server s ≡ some t → Counted t
unfolding stop
closed-Counted s t h n e =
    subst Counted (some-injective _ _ (sym (close_server-gone s (last_one s h n)) ∙ e))
      (ground (arith, h, n))

Runs-Counted : {s : MsgBus} → Runs s → Counted s
unfolding on_bus_acquired on_user_interface_dispose on_group_interface_dispose
Runs-Counted begun = (refl, omega arith, λ _. (refl, refl, refl), λ _. refl, refl)
Runs-Counted (acquires {s} r a) = ground (arith, a, Runs-Counted r)
Runs-Counted (user_gone {s} r a) = ground (arith, a, Runs-Counted r)
Runs-Counted (group_gone {s} r a) = ground (arith, a, Runs-Counted r)
Runs-Counted (closes {s} {t} r n e) = closed-Counted s t (Runs-Counted r) n e

-- For a server whose name is not lost: at most one source is to close it, there is one only when both services
-- have gone, and then its call is answered, drops the last reference and gives up the name; and while the
-- server has a service, it has its reference and its name.
pub Runs-Closes :
    {s : MsgBus}
    → Runs s
    → (s.closing ≤ 1)
      × ((s.user_service ≡ true) ⊎ (s.group_service ≡ true)
          → (s.refs ≡ 1) × (s.closing ≡ 0) × (s.name_owned ≡ true))
      × (s.closing ≢ 0
          → (t : MsgBus) × (close_server s ≡ some t)
            × (t.refs ≡ 0)
            × (t.closing ≡ 0)
            × (t.name_owned ≡ false))
unfolding stop
Runs-Closes {s} r =
    let h = Runs-Counted r in
    (
      h.1,
      λ either. ground (arith, h, either),
      λ n. (gone s, close_server-gone s (last_one s h n), refl, ground (arith, h), refl),
    )
