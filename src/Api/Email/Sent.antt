-- ===== src/Api/Email/Sent.antt =====
-- What became of a mail, of `send_email`.
use rust_generic_user_backen.Base.{
  String, ◌≡◌, ◌≢◌, ◌⊎◌, refl, str_eq, eq_iff, Bool-cases, inl, inr, arith,
}
use rust_generic_user_backen.Base.Text.{◌<>◌}
use rust_generic_user_backen.Base.Result
use rust_generic_user_backen.Base.Result.{Result, ok, err}
use rust_generic_user_backen.App.{Mail}
use rust_generic_user_backen.Api.Config.{Email}
use rust_generic_user_backen.Api.Email.{Lettre, Delivery, logged, sent, transport, send_email}

bind-eq-ok :
    {E A B : Type 0} (r : Result E A) (f : A → Result E B) {b : B}
    → Result.◌>>=◌ r f ≡ ok b
    → (a : A) × (r ≡ ok a) × (f a ≡ ok b)
bind-eq-ok (ok a) f h = (a, refl, h)
bind-eq-ok (err e) f h = cc

mapped :
    {E F A : Type 0} (f : E → F) (r : Result E A) {a : A} → Result.map_err f r ≡ ok a → r ≡ ok a
mapped f (ok a) h = cc
mapped f (err e) h = cc

module _ (lettre : Lettre) (cfg : Email) (mail : Mail) where
  -- The relay has taken a message from the configured sender to the address of the mail, with its
  -- subject and its text.
  pub record Relayed (delivery : Delivery) : Type 0 where
    pub from : String
    pub to : String
    pub message : String
    pub sender : lettre.parse_mailbox (cfg.from_name <> " <" <> cfg.from_email <> ">") ≡ ok from
    pub recipient : lettre.parse_mailbox mail.to ≡ ok to
    pub built : lettre.build_message from to mail.subject mail.body ≡ ok message
    pub taken :
        lettre.send cfg.smtp_host cfg.smtp_port cfg.smtp_username cfg.smtp_password message ≡ ok tt
    pub same : delivery ≡ sent cfg.smtp_host cfg.smtp_port message

  transport-Relayed :
      {delivery : Delivery} → transport lettre cfg mail ≡ ok delivery → Relayed delivery
  unfolding transport
  transport-Relayed h =
      let (from, e1, r1) =
        bind-eq-ok
          (Result.map_err _ (lettre.parse_mailbox (cfg.from_name <> " <" <> cfg.from_email <> ">")))
          _ h in
      let (to, e2, r2) = bind-eq-ok (Result.map_err _ (lettre.parse_mailbox mail.to)) _ r1 in
      let (message, e3, r3) =
        bind-eq-ok (Result.map_err _ (lettre.build_message from to mail.subject mail.body)) _ r2 in
      let (_, e4, r4) = bind-eq-ok (Result.map_err _ (lettre.relay cfg.smtp_host)) _ r3 in
      let (_, e5, r5) =
        bind-eq-ok
          (Result.map_err _
            (lettre.send cfg.smtp_host cfg.smtp_port cfg.smtp_username cfg.smtp_password message))
          _ r4 in
      record {
        from = from;
        to = to;
        message = message;
        sender = mapped _ _ e1;
        recipient = mapped _ _ e2;
        built = mapped _ _ e3;
        taken = mapped _ _ e5;
        same = cc;
      }

  -- A mail that was sent without an error was either only written to the log, with no relay
  -- configured, or taken by the configured relay, as a message from the configured sender to its
  -- address with its subject and its text.
  pub send_email-delivered :
      (delivery : Delivery)
      → send_email lettre cfg mail ≡ ok delivery
      → ((cfg.smtp_host ≡ "") × (delivery ≡ logged mail))
        ⊎ ((cfg.smtp_host ≢ "") × Relayed delivery)
  unfolding send_email
  send_email-delivered delivery h = elim (Bool-cases (str_eq cfg.smtp_host "")) [
    | inl t ↦ inl (ground (arith, t, eq_iff cfg.smtp_host ""), ground (arith, t, h))
    | inr f ↦
        inr (ground (arith, f, eq_iff cfg.smtp_host ""), transport-Relayed (ground (arith, f, h)))
  ]
