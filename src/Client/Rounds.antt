-- ===== src/Client/Rounds.antt =====
-- An operation from its start to its callback.
use platform_upstream_gumd.Common.{
  ℕ, ◌≡◌, refl, ap, ◌∙◌, Bool, false, Option, none, some, List, [], ◌∷◌, Str, if◌then◌else◌, arith,
}
use platform_upstream_gumd.Client.{
  GError, cancelled, remote, transport, Reply, path, finished, failed, Client, is_cancelled,
  without, start, trigger_callback, on_reply, IsIdle,
}
use platform_upstream_gumd.Client.Turns.{freed_op-idle}

abbrev pub error_of : Reply → Option GError
error_of (path p) = none
error_of finished = none
error_of (failed e) = some e

abbrev pub object_after : (Str → Bool) → Reply → Option Str → Option Str
object_after proxied (path p) o = if proxied p then some p else none
object_after proxied finished o = o
object_after proxied (failed e) o = o

module _ {M : Type 0} (new_id : List ℕ → ℕ) (proxied : Str → Bool) where
  -- The main loop calls the first source back, if there is one.
  abbrev pub settled : List ℕ → Client M → Option (Client M)
  settled [] c = some c
  settled (id ∷ rest) c = trigger_callback id c

  abbrev pub replied_to : Option (Client M) → Option (Client M)
  replied_to none = none
  replied_to (some d) = settled d.idle d

  -- An operation is started, its call is answered, and the main loop goes on.
  abbrev pub round : Option ℕ → M → Reply → Client M → Option (Client M)
  round callback method r c =
      replied_to (on_reply new_id proxied r (record (start callback method c) { calls = [] }))

  -- The client after the round.
  abbrev told : Option ℕ → Reply → Client M → Client M
  told callback r c = record c {
    op = some (record {
      callback = callback;
      error = elim callback [ none ↦ none | some cb ↦ error_of r ];
      cb_id = 0;
    });
    called = elim callback [ none ↦ c.called | some cb ↦ (cb, error_of r) ∷ c.called ];
    dbus_object = object_after proxied r c.dbus_object;
    calls = [];
    idle = [];
  }

  abbrev begun : Option ℕ → Client M → Client M
  begun callback c = record c {
    op = some (record { callback = callback; error = none; cb_id = 0 });
    calls = [];
    idle = [];
  }

  start-eq-begun :
      (callback : Option ℕ) (method : M) (c : Client M)
      → c.idle ≡ []
      → record (start callback method c) { calls = [] } ≡ begun callback c
  unfolding start
  start-eq-begun callback method c i =
      ap (λ l. record (begun callback c) { idle = l }) (freed_op-idle c.op c.idle i)

  answered-eq-told :
      (callback : Option ℕ) (r : Reply) (c : Client M)
      → is_cancelled (error_of r) ≡ false
      → replied_to (on_reply new_id proxied r (begun callback c)) ≡ some (told callback r c)
  unfolding on_reply trigger_callback without
  answered-eq-told none (path p) c n = refl
  answered-eq-told none finished c n = refl
  answered-eq-told _ (failed cancelled) c n = absurd (cc)
  answered-eq-told none (failed (remote e)) c n = refl
  answered-eq-told none (failed transport) c n = refl
  answered-eq-told (some cb) (path p) c n = ground arith
  answered-eq-told (some cb) finished c n = ground arith
  answered-eq-told (some cb) (failed (remote e)) c n = ground arith
  answered-eq-told (some cb) (failed transport) c n = ground arith

  -- An operation that is started when nothing is under way, and whose call is answered but not by being
  -- cancelled, ends: its own callback, if it has one, is called once, with the error of its own
  -- reply; the object is the one of the path, if a proxy can be made for it; and nothing is under
  -- way again.
  pub round_called :
      (callback : Option ℕ) (method : M) (r : Reply) (c : Client M)
      → IsIdle c
      → is_cancelled (error_of r) ≡ false
      → (d : Client M) × ((round callback method r c ≡ some d)
          × ((d.called ≡ elim callback [ none ↦ c.called | some cb ↦ (cb, error_of r) ∷ c.called ])
              × ((d.dbus_object ≡ object_after proxied r c.dbus_object) × IsIdle d)))
  round_called callback method r c (_, i) n = (
    told callback r c,
    (
      ap (λ x. replied_to (on_reply new_id proxied r x)) (start-eq-begun callback method c i)
          ∙ answered-eq-told callback r c n,
      (refl, (refl, (refl, refl))),
    ),
  )
