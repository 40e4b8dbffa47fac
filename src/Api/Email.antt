-- ===== src/Api/Email.antt =====
-- crates/api/src/email.rs: the mails that the handlers spawn, and what becomes of them.
pub mod Sent
use rust_generic_user_backen.Base.Result.{Result, ok, map_err, ◌>>=◌, ◌>>◌}
use rust_generic_user_backen.Api.Config.{Email}
use rust_generic_user_backen.Base.{ℕ, String, str_eq, if◌then◌else◌}
use rust_generic_user_backen.Base.Text.{◌<>◌}
use rust_generic_user_backen.App.{Mail}

unfoldable pub verification_mail : String → String → Mail
verification_mail to_email verification_url = record {
  to = to_email;
  subject = "Confirm your email address";
  body =
      "Click the link below to confirm your email address:\n\n" <> verification_url
      <> "\n\nThis link expires in 24 hours.";
}

unfoldable pub password_reset_mail : String → String → Mail
password_reset_mail to_email reset_url = record {
  to = to_email;
  subject = "Reset your password";
  body =
      "Click the link below to reset your password:\n\n" <> reset_url
      <> "\n\nThis link expires in 1 hour. If you did not request a reset, ignore this email.";
}

-- What lettre makes of its arguments.
pub record Lettre : Type 0 where
  pub parse_mailbox : String → Result String String
  pub build_message : (from to subject body : String) → Result String String
  pub relay : (host : String) → Result String Unit
  pub send : (host : String) (port : ℕ) (username password message : String) → Result String Unit

-- What became of a mail: it was written to the log, or handed to the relay as a message.
pub data Delivery : Type 0 where
  logged : Mail → Delivery
  sent : (host : String) (port : ℕ) (message : String) → Delivery

module _ (lettre : Lettre) (cfg : Email) where
  unfoldable pub transport : Mail → Result String Delivery
  transport mail = do
    from ←
        map_err (λ e. "invalid from address: " <> e)
          (lettre.parse_mailbox (cfg.from_name <> " <" <> cfg.from_email <> ">"))
    to ← map_err (λ e. "invalid to address: " <> e) (lettre.parse_mailbox mail.to)
    message ←
        map_err (λ e. "failed to build email: " <> e)
          (lettre.build_message from to mail.subject mail.body)
    map_err (λ e. "SMTP relay error: " <> e) (lettre.relay cfg.smtp_host)
    map_err (λ e. "email send failed: " <> e)
        (lettre.send cfg.smtp_host cfg.smtp_port cfg.smtp_username cfg.smtp_password message)
    ok (sent cfg.smtp_host cfg.smtp_port message)

  -- What the spawned task runs.
  unfoldable pub send_email : Mail → Result String Delivery
  unfolding transport
  send_email mail = if str_eq cfg.smtp_host "" then ok (logged mail) else transport mail
