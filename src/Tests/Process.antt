-- ===== src/Tests/Process.antt =====
-- The process on the small host.
use rust_generic_user_backen.Base.{some, ◌≡◌, ◌≢◌, ◌⊎◌, refl, String, List, [], ◌∷◌}
use rust_generic_user_backen.Base.Text.{◌<>◌, show}
use rust_generic_user_backen.Core.Role.{as_str}
use rust_generic_user_backen.Core.User.{User}
use rust_generic_user_backen.Auth.Password.{hash_password}
use rust_generic_user_backen.Db.Users.{create_user, select_role_id, insert_user, same_email}
use rust_generic_user_backen.Db.Connection.{connect}
use rust_generic_user_backen.Base.Result.{ok}
use rust_generic_user_backen.Db.Consistent.{IsConsistent}
use rust_generic_user_backen.App.{
  World, Mail, pure, lift, draw, map_err, db, query, settle, generate_salt, ◌>>=◌,
}
use rust_generic_user_backen.App.Inversion.{with_state, tick}
use rust_generic_user_backen.Api.Validate.{check_account}
use rust_generic_user_backen.Api.CreateAdmin.{create_admin_user, pool_port}
use rust_generic_user_backen.Api.Email.{Lettre, logged, sent, transport, send_email}
use rust_generic_user_backen.Api.Email.Sent.{Relayed, send_email-delivered}
use rust_generic_user_backen.Api.Cli.Created.{Admin, IsAdminIn, main-Admin}
use rust_generic_user_backen.Api.Config.{Settings}
use rust_generic_user_backen.Api.Config.Load.{load, deserialized, settings_of, db_settings}
use rust_generic_user_backen.Api.Cli.{create_admin, admin_created, execute, main}
use rust_generic_user_backen.Api.Server.Served.{main-IsConsistent}
use rust_generic_user_backen.Tests.Toy.{toy, alone, state, world}
use rust_generic_user_backen.Tests.Host.{toy_host, migrate-Keeps, serve-Keeps, tables-IsConsistent}

main-IsConsistent_example :
    IsConsistent toy (main toy toy_host (some (create_admin "c@x" "password")) world).1.db
main-IsConsistent_example =
    main-IsConsistent toy toy_host (some (create_admin "c@x" "password")) world
      (alone (IsConsistent toy)) (migrate-Keeps (IsConsistent toy)) (serve-Keeps (IsConsistent toy))
      tables-IsConsistent

abbrev settings : Settings
settings = record state.settings { app_env = "development" }

abbrev printed : List String
printed = "Admin created: c@x (103)" ∷ []

abbrev ended : World
ended = (main toy toy_host (some (create_admin "c@x" "password")) world).1

admin_run : (main toy toy_host (some (create_admin "c@x" "password")) world).0 ≡ ok printed
unfolding main execute admin_created load deserialized settings_of db_settings connect
    create_admin_user pool_port check_account hash_password generate_salt create_user select_role_id
    as_str insert_user same_email pure lift draw map_err db query settle ◌>>=◌ show
admin_run = refl

main-Admin_example :
    (user : User) × (a : Admin toy
      (record { email = "c@x"; password = "password" })
      user
      (tick world)
      ended)
    × IsAdminIn ended.db a.created.row
    × (printed ≡ admin_created toy toy_host user ∷ [])
main-Admin_example =
    main-Admin toy toy_host "c@x" "password" world ended printed (alone _)
      (with_state (main toy toy_host (some (create_admin "c@x" "password"))) world admin_run)

abbrev toy_lettre : Lettre
toy_lettre = record {
  parse_mailbox = λ s. ok s;
  build_message = λ from to subject body. ok (to <> ": " <> subject);
  relay = λ host. ok tt;
  send = λ host port username password message. ok tt;
}

abbrev mail : Mail
mail = record { to = "a@x"; subject = "hello"; body = "text" }

send_run : send_email toy_lettre settings.email mail ≡ ok (sent "h" 25 "a@x: hello")
unfolding send_email transport
send_run = refl

send_email-delivered_example :
    ((settings.email.smtp_host ≡ "") × (sent "h" 25 "a@x: hello" ≡ logged mail))
    ⊎ ((settings.email.smtp_host ≢ "")
        × Relayed toy_lettre settings.email mail (sent "h" 25 "a@x: hello"))
send_email-delivered_example =
    send_email-delivered toy_lettre settings.email mail (sent "h" 25 "a@x: hello") send_run
