-- ===== src/Client.antt =====
-- src/lib/gum-user.c, gum-group.c: the operations of a client's object that do not wait, which differ in
-- the methods only. The calls over D-Bus that are under way, the idle sources of the main loop, and
-- the client's callbacks that have been called belong to the state. A callback stands, with its
-- user_data, for a number, and what it does for the steps that follow it.
pub mod Turns
pub mod Rounds
pub mod Overlap
pub mod Sync
pub mod Users
pub mod Groups
pub mod Agreed
pub mod Services
use platform_upstream_gumd.Common.{
  ℕ, suc, ◌≡◌, ◌≢◌, Bool, true, false, not, ◌&&◌, Option, none, some, List, [], ◌∷◌, ◌++◌, Str,
  ◌==◌, if◌then◌else◌,
}
use platform_upstream_gumd.Error.{Error}

-- A `GError`: of GIO for a call that is cancelled, the daemon's, or another one of D-Bus.
pub data GError : Type 0 where
  cancelled : GError
  remote : Error → GError
  transport : GError

-- The reply of a call: an object's path, or nothing, or an error.
pub data Reply : Type 0 where
  path : Str → Reply
  finished : Reply
  failed : GError → Reply

-- `GumUserOp`, `GumGroupOp`
pub record Op : Type 0 where
  pub callback : Option ℕ
  pub error : Option GError
  pub cb_id : ℕ

-- `GumUserPrivate`, `GumGroupPrivate`, as far as it matters here; the proxy has the path of its object.
-- A call is one of the methods `M`.
pub record Client (M : Type 0) : Type 0 where
  pub dbus_object : Option Str
  pub op : Option Op
  pub calls : List M
  pub idle : List ℕ
  pub called : List (ℕ × Option GError)

-- `GUM_OPERATION_IS_NOT_CANCELLED`
abbrev pub is_cancelled : Option GError → Bool
is_cancelled (some cancelled) = true
is_cancelled _ = false

unfoldable pub without : ℕ → List ℕ → List ℕ
without id [] = []
without id (i ∷ rest) = let rest' = without id rest in if i == id then rest' else i ∷ rest'

abbrev pub freed_op : Option Op → List ℕ → List ℕ
freed_op none idle = idle
freed_op (some op) idle = if not (op.cb_id == 0) then without op.cb_id idle else idle

abbrev pub noted : Option GError → Option GError → Option GError
noted none old = old
noted (some e) old = some e

module _ {M : Type 0} where
  unfoldable pub free_op : Client M → Client M
  unfolding without
  free_op c = record c { idle = freed_op c.op c.idle; op = none }

  unfoldable pub create_op : Option ℕ → Client M → Client M
  unfolding free_op
  create_op callback c = record (free_op c) {
    op = some (record { callback = callback; error = none; cb_id = 0 });
  }

  -- The call is made with the callback `_on_…_cb`.
  unfoldable pub start : Option ℕ → M → Client M → Client M
  unfolding create_op
  start callback method c =
      let c' = create_op callback c in record c' { calls = c'.calls ++ method ∷ [] }

  -- On the objects that are there: FALSE without one.
  unfoldable pub start_on_object : Option ℕ → M → Client M → Bool × Client M
  unfolding start
  start_on_object callback method c = elim c.dbus_object [
    | none ↦ (false, c)
    | some p ↦ (true, start callback method c)
  ]

  -- `_trigger_callback` of the source `id`; without an operation it would read through NULL.
  abbrev pub run_op : ℕ → Option Op → Client M → Option (Client M)
  run_op id none c = none
  run_op id (some op) c = some (record c {
    idle = without id c.idle;
    called = elim op.callback [ none ↦ c.called | some cb ↦ (cb, op.error) ∷ c.called ];
    op = some (record op { cb_id = 0 });
  })

  unfoldable pub trigger_callback : ℕ → Client M → Option (Client M)
  unfolding without
  trigger_callback id c = run_op id c.op c

  abbrev pub no_object : Client M → Client M
  no_object c = record c { dbus_object = none }

  -- `_dispose`, which also cancels the calls, so that their replies leave the object alone.
  unfoldable pub dispose : Client M → Client M
  unfolding free_op
  dispose c = record (free_op c) { dbus_object = none }

  abbrev pub new_client : Client M
  new_client = record { dbus_object = none; op = none; calls = []; idle = []; called = [] }

  -- An object that has just been made for the call, if there is a proxy of the service.
  abbrev pub asked_new : Bool → Option ℕ → M → Option (Client M)
  unfolding start
  asked_new false callback method = none
  asked_new true callback method = some (start callback method new_client)

  -- A client starts an operation when the one before has been called back.
  abbrev pub IsIdle : Client M → Type 0
  IsIdle c = (c.calls ≡ []) × (c.idle ≡ [])

  -- `new_id` gives the id of a new source, and `proxied` whether a proxy can be made for a path.
  module _ (new_id : List ℕ → ℕ) (proxied : Str → Bool) where
    -- Without a callback there is nothing to set up.
    abbrev pub queued : Option ℕ → Op → Option GError → Client M → Client M
    queued none op error c = c
    queued (some cb) op error c = record c {
      op = some (record op { error = noted error op.error; cb_id = new_id c.idle });
      idle = new_id c.idle ∷ c.idle;
    }

    abbrev pub with_idle : Option Op → Option GError → Client M → Option (Client M)
    with_idle none error c = none
    with_idle (some op) error c = some (queued op.callback op error c)

    unfoldable pub setup_idle_callback : Option GError → Client M → Option (Client M)
    setup_idle_callback error c = with_idle c.op error c

    -- The error is passed by value: a failure is not seen by the caller.
    unfoldable pub create_dbus_object : Str → Client M → Client M
    create_dbus_object p c = record c { dbus_object = if proxied p then some p else none }

    -- `_on_new_user_cb`, `_on_get_user_cb`, `_on_user_add_cb` and the others, on the reply.
    unfoldable pub on_reply : Reply → Client M → Option (Client M)
    unfolding setup_idle_callback create_dbus_object
    on_reply (path p) c = setup_idle_callback none (create_dbus_object p c)
    on_reply finished c = setup_idle_callback none c
    on_reply (failed cancelled) c = some c
    on_reply (failed e) c = setup_idle_callback (some e) c

    pub data Ordered : Client M → Type 0 where
      created : Ordered new_client
      started :
          {c : Client M} (callback : Option ℕ) (method : M)
          → Ordered c
          → IsIdle c
          → Ordered (start callback method c)
      replied :
          {c d : Client M} (before after : List M) (method : M) (r : Reply)
          → Ordered c
          → c.calls ≡ before ++ method ∷ after
          → on_reply r (record c { calls = before ++ after }) ≡ some d
          → Ordered d
      dispatched :
          {c d : Client M} (before after : List ℕ) (id : ℕ)
          → Ordered c
          → c.idle ≡ before ++ id ∷ after
          → trigger_callback id c ≡ some d
          → Ordered d
      lost : {c : Client M} → Ordered c → Ordered (no_object c)
