-- ===== src/Client/Turns.antt =====
-- A client that starts an operation only when the one before has been called back.
use platform_upstream_gumd.Common.{
  ℕ, ◌≡◌, ◌≢◌, refl, sym, ap, ◌∙◌, subst, ◌⊎◌, inl, inr, Bool, Option, none, some, List, [], ◌∷◌,
  ◌++◌, Str, length, ◌+◌, ◌≤◌, arith,
}
use mathlib.Core.Option.{some-injective}
use platform_upstream_gumd.Client.{
  GError, cancelled, remote, transport, Reply, path, finished, failed, Op, Client, without,
  freed_op, noted, start, trigger_callback, run_op, no_object, dispose, queued, with_idle,
  create_dbus_object, on_reply, IsIdle, Ordered, created, started, replied, dispatched, lost,
}

one_left {ℓ} :
    {A : Type ℓ} (x y : A) (before after : List A)
    → x ∷ [] ≡ before ++ y ∷ after
    → before ++ after ≡ []
one_left x y [] [] e = refl
one_left x y [] (z ∷ after) e = absurd (cc)
one_left x y (z ∷ []) after e = absurd (cc)
one_left x y (z ∷ w ∷ before) after e = absurd (cc)

one_same {ℓ} : {A : Type ℓ} (x y : A) (before after : List A) → x ∷ [] ≡ before ++ y ∷ after → x ≡ y
one_same x y [] after e = cc
one_same x y (z ∷ []) after e = absurd (cc)
one_same x y (z ∷ w ∷ before) after e = absurd (cc)

none_here {ℓ} : {A : Type ℓ} (y : A) (before after : List A) → [] ≡ before ++ y ∷ after → ⊥
none_here y [] after e = cc
none_here y (z ∷ before) after e = cc

pub freed_op-idle : (o : Option Op) (idle : List ℕ) → idle ≡ [] → freed_op o idle ≡ []
unfolding without
freed_op-idle none idle e = e
freed_op-idle (some op) idle e = rw e (ground arith)

module _ {M : Type 0} where
  -- Nothing that is under way would read through an operation that is NULL.
  abbrev pub HasOp : Client M → Type 0
  HasOp c = IsIdle c ⊎ (op : Op) × (c.op ≡ some op)

  -- Nothing is under way; or one call is, with its operation; or the callback of the operation is due.
  pub data Turn (c : Client M) : Type 0 where
    quiet : c.calls ≡ [] → c.idle ≡ [] → Turn c
    asked : (method : M) (op : Op) → c.calls ≡ method ∷ [] → c.idle ≡ [] → c.op ≡ some op → Turn c
    due : (op : Op) → c.calls ≡ [] → c.op ≡ some op → op.cb_id ≢ 0 → c.idle ≡ op.cb_id ∷ [] → Turn c

  start-Turn :
      (callback : Option ℕ) (method : M) (c : Client M) → IsIdle c → Turn (start callback method c)
  unfolding start without
  start-Turn callback method c (n, i) =
      asked method (record { callback = callback; error = none; cb_id = 0 })
        (ap (λ l. l ++ method ∷ []) n) (freed_op-idle c.op c.idle i) refl

  -- The due callback is called, and nothing is under way.
  run_op-quiet :
      (id : ℕ) (o : Option Op) (op : Op) (c d : Client M)
      → o ≡ some op
      → c.calls ≡ []
      → without id c.idle ≡ []
      → run_op id o c ≡ some d
      → (d.calls ≡ []) × (d.idle ≡ [])
  run_op-quiet id none op c d p n i e = absurd (cc)
  run_op-quiet id (some o) op c d p n i e =
      let q = some-injective _ _ e in (ap (λ x. x.calls) (sym q) ∙ n, ap (λ x. x.idle) (sym q) ∙ i)

  trigger-Turn :
      (before after : List ℕ) (id : ℕ) (c d : Client M)
      → Turn c
      → c.idle ≡ before ++ id ∷ after
      → trigger_callback id c ≡ some d
      → Turn d
  unfolding trigger_callback without
  trigger-Turn before after id c d (quiet n i) at_ e =
      absurd (none_here id before after (sym i ∙ at_))
  trigger-Turn before after id c d (asked m op n i o) at_ e =
      absurd (none_here id before after (sym i ∙ at_))
  trigger-Turn before after id c d (due op n o z i) at_ e =
      let same = one_same op.cb_id id before after (sym i ∙ at_) in
      let gone : without id c.idle ≡ [] = rw (i, same) (ground arith) in
      let (no_calls, no_idle) = run_op-quiet id c.op op c d o n gone e in quiet no_calls no_idle

  module _ (new_id : List ℕ → ℕ) (proxied : Str → Bool)
      (positive : (l : List ℕ) → new_id l ≢ 0) where
    queued-Turn :
        (cb : Option ℕ) (op : Op) (error : Option GError) (c : Client M)
        → c.calls ≡ []
        → c.idle ≡ []
        → Turn (queued new_id proxied cb op error c)
    queued-Turn none op error c n i = quiet n i
    queued-Turn (some cb) op error c n i =
        due (record op { error = noted error op.error; cb_id = new_id c.idle }) n refl
          (positive c.idle) (ap (◌∷◌ (new_id c.idle)) i)

    with_idle-Turn :
        (o : Option Op) (error : Option GError) (c d : Client M)
        → c.calls ≡ []
        → c.idle ≡ []
        → with_idle new_id proxied o error c ≡ some d
        → Turn d
    with_idle-Turn none error c d n i e = absurd (cc)
    with_idle-Turn (some op) error c d n i e =
        subst Turn (some-injective _ _ e) (queued-Turn op.callback op error c n i)

    -- The reply of the only call.
    answered-Turn :
        (r : Reply) (c d : Client M)
        → c.calls ≡ []
        → c.idle ≡ []
        → on_reply new_id proxied r c ≡ some d
        → Turn d
    unfolding on_reply
    answered-Turn (path p) c d n i e =
        with_idle-Turn c.op none (create_dbus_object new_id proxied p c) d n i e
    answered-Turn finished c d n i e = with_idle-Turn c.op none c d n i e
    answered-Turn (failed cancelled) c d n i e = subst Turn (some-injective _ _ e) (quiet n i)
    answered-Turn (failed (remote x)) c d n i e = with_idle-Turn c.op (some (remote x)) c d n i e
    answered-Turn (failed transport) c d n i e = with_idle-Turn c.op (some transport) c d n i e

    on_reply-Turn :
        (before after : List M) (method : M) (r : Reply) (c d : Client M)
        → Turn c
        → c.calls ≡ before ++ method ∷ after
        → on_reply new_id proxied r (record c { calls = before ++ after }) ≡ some d
        → Turn d
    on_reply-Turn before after method r c d (quiet n i) at_ e =
        absurd (none_here method before after (sym n ∙ at_))
    on_reply-Turn before after method r c d (due op n o z i) at_ e =
        absurd (none_here method before after (sym n ∙ at_))
    on_reply-Turn before after method r c d (asked m op n i o) at_ e =
        answered-Turn r (record c { calls = before ++ after }) d
          (one_left m method before after (sym n ∙ at_)) i e

    no_object-Turn : (c : Client M) → Turn c → Turn (no_object c)
    no_object-Turn c (quiet n i) = quiet n i
    no_object-Turn c (asked m op n i o) = asked m op n i o
    no_object-Turn c (due op n o z i) = due op n o z i

    Turn-Settled :
        (c : Client M)
        → Turn c
        → HasOp c × (length c.calls + length c.idle ≤ 1) × ((dispose c).idle ≡ [])
    unfolding dispose without
    Turn-Settled c (quiet n i) = (inl (n, i), rw (n, i) (omega arith), freed_op-idle c.op c.idle i)
    Turn-Settled c (asked m op n i o) =
        (inr (op, o), rw (n, i) (omega arith), freed_op-idle c.op c.idle i)
    Turn-Settled c (due op n o z i) =
        (inr (op, o), rw (n, i) (omega arith), rw (o, i) (ground (arith, z)))

    Ordered-Turn : {c : Client M} → Ordered new_id proxied c → Turn c
    Ordered-Turn created = quiet refl refl
    Ordered-Turn (started {c} cb method h q) = start-Turn cb method c q
    Ordered-Turn (replied {c} {d} before after method r h at_ e) =
        on_reply-Turn before after method r c d (Ordered-Turn h) at_ e
    Ordered-Turn (dispatched {c} {d} before after id h at_ e) =
        trigger-Turn before after id c d (Ordered-Turn h) at_ e
    Ordered-Turn (lost {c} h) = no_object-Turn c (Ordered-Turn h)

    -- For a client that starts an operation only when the one before has been called back: at most one
    -- call or callback is under way, with its operation there; and where the object is disposed of, no
    -- source that would call it back is left.
    pub Ordered-Settled :
        {c : Client M}
        → Ordered new_id proxied c
        → HasOp c × (length c.calls + length c.idle ≤ 1) × ((dispose c).idle ≡ [])
    Ordered-Settled {c} h = Turn-Settled c (Ordered-Turn h)
