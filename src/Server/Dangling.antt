-- ===== src/Server/Dangling.antt =====
-- A connection whose services have disposed of themselves.
use platform_upstream_gumd.Common.{ℕ, ◌≡◌, ◌≢◌, [], ◌∷◌, arith}
use platform_upstream_gumd.Server.{
  Server, new_server, without, lookup, remove, steal, add_user_watchers, add_group_watchers,
  start_services, on_user_service_dispose, on_group_service_dispose, clear_each, dispose,
}

abbrev pub deserted : ℕ → ℕ → ℕ → Server
deserted c u g =
    on_group_service_dispose g (on_user_service_dispose u (start_services c u g new_server))

-- When both services of a connection have been disposed of and then the server is, the handlers of the
-- connection are left, which call back the server that is gone when the connection is closed.
dispose_dangling : (c u g : ℕ) → u ≢ g → (dispose (deserted c u g)).handlers ≡ c ∷ c ∷ []
unfolding start_services add_user_watchers add_group_watchers on_user_service_dispose
    on_group_service_dispose steal dispose clear_each lookup remove without
dispose_dangling c u g n = ground arith
