-- ===== src/Tests/Services.antt =====
-- A service on the message bus, of objects with two ids only.
use platform_upstream_gumd.Common.{
  ℕ, suc, ◌≡◌, refl, Bool, true, false, none, some, ◌⊎◌, [], ◌∷◌, Str, codes, str_eq, if◌then◌else◌,
  ◌==◌, arith,
}
use platform_upstream_gumd.Error.{ok, err, user_not_found}
use platform_upstream_gumd.Disposable.{set_timeout, set_auto_dispose}
use platform_upstream_gumd.Service.{
  on_adapter_disposed, clear_peer, clear_adapter, msg_bus, Kind, Exports, Invocation, Service,
  Reply, is_empty, find_adapter, create_and_cache, keep, handle_get, handle_create_new,
  on_bus_name_lost,
}
use platform_upstream_gumd.Service.Uses.{
  new_with_connection, Reached, begun, then_served, creates, loses,
}
use platform_upstream_gumd.Service.Alive.{Reached-Kept}
use platform_upstream_gumd.Service.Cached.{Answered}
use platform_upstream_gumd.Service.There.{Reached-Answered}
use platform_upstream_gumd.Service.Null.{null_for, null_entry-faults}
use platform_upstream_gumd.Service.Requests.{Deletion, handle_deletion, handle_deletion-Deletion}
use platform_upstream_gumd.Tests.Disposables.{number, number_positive}

abbrev things : Kind ℕ
things = record {
  id_of = λ d h. h;
  get_object = λ id d. if id == 7 then (ok 7, d) else (err user_not_found, d);
  id_by_name = λ name d. (7, d);
  new_object = λ d. (3, suc d);
  not_found = user_not_found;
  timeout = 0;
}

abbrev path_text : ℕ → Str
path_text n = 47 ∷ n ∷ []

abbrev exporting : Bool → Exports
exporting b = record { object_path = path_text; exported = λ n. b; new_id = number }

abbrev caller : Invocation
caller = record { sender = codes ":1.5"; socket = [] }

abbrev service_at : Bool → Service ℕ
service_at b = new_with_connection (exporting b) things msg_bus 5 0

abbrev asked : Bool → Service ℕ
asked b = (handle_create_new (exporting b) things caller (service_at b)).1

abbrev left_alone : Service ℕ
left_alone = on_bus_name_lost (exporting true) (codes ":1.5") (asked true)

left_alone-Reached : Reached (exporting true) things msg_bus 5 0 left_alone
unfolding handle_create_new new_with_connection set_timeout set_auto_dispose create_and_cache
left_alone-Reached =
    then_served (then_served begun (ground arith) (creates caller)) (ground arith)
      (loses (codes ":1.5"))

Reached-Kept_example :
    (left_alone.keeper.keep_obj_counter ≡ 0)
    × ((is_empty left_alone.peers ≡ true) ⊎ (left_alone.keeper.sources ≡ []))
unfolding on_bus_name_lost handle_create_new new_with_connection str_eq
Reached-Kept_example = Reached-Kept (exporting true) things number_positive left_alone-Reached

Reached-Answered_example :
    (r : Reply) × (t : Service ℕ) × ((handle_get (exporting true) things caller 7 left_alone
        ≡ some (r, t))
      × Answered (exporting true) things caller 7 (keep (exporting true) false left_alone) r t)
Reached-Answered_example =
    Reached-Answered (exporting true) things (λ n. refl) caller 7 left_alone-Reached

null_entry-faults_example :
    (handle_get (exporting false) things caller 7 (asked false) ≡ none)
    × ((on_bus_name_lost (exporting false) (codes ":1.5") (asked false)).peers
        ≡ null_for (codes ":1.5") ∷ [])
    × ((on_adapter_disposed (exporting false) 0 (asked false)).peers ≡ null_for (codes ":1.5") ∷ [])
unfolding handle_create_new new_with_connection find_adapter clear_peer clear_adapter
null_entry-faults_example =
    null_entry-faults (exporting false) things caller 7 (asked false) [] [] (codes ":1.5") 0 refl
      refl (ground arith)

handle_deletion-Deletion_example :
    let t = handle_deletion (exporting true) 0 (λ h d. (ok h, 0)) (asked true) in
    Deletion (exporting true) things 0 (asked true) t.0 t.1 (ok ((asked true).adapters 0).object)
    × (t.1.daemon ≡ 0)
handle_deletion-Deletion_example =
    handle_deletion-Deletion (exporting true) things 0 (λ h d. (ok h, 0)) (asked true)
