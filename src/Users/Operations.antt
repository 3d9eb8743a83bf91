-- ===== src/Users/Operations.antt =====
-- Sequences of calls of the service of internal/users/service.go.
use nexus_agent_protocol.Prelude.{ℕ, List, [], ◌∷◌, Bytes}
use nexus_agent_protocol.Users.{Accounts, update_profile}
use nexus_agent_protocol.Users.Service.{
  UserService, signup, login, verify_email, get_or_create_from_oauth, resend_verification,
  resend_verification_by_email, forgot_password, reset_password,
}

-- the calls that may write, with their arguments
pub data Op : Type 0 where
  signing_up : Bytes → Bytes → Bytes → Op
  logging_in : Bytes → Bytes → Op
  verifying : Bytes → Op
  joining : Bytes → Bytes → Bytes → Bytes → Op
  resending : ℕ → Op
  resending_to forgetting : Bytes → Op
  resetting : Bytes → Bytes → Op
  editing : ℕ → Bytes → Bytes → Bytes → Op

unfoldable pub perform : UserService → Op → Accounts → Accounts
perform s (signing_up email password name) w = (signup s email password name w).1
perform s (logging_in email password) w = (login s email password w).1
perform s (verifying token) w = (verify_email s token w).1
perform s (joining provider id email name) w =
    (get_or_create_from_oauth s provider id email name w).1
perform s (resending id) w = (resend_verification s id w).1
perform s (resending_to email) w = (resend_verification_by_email s email w).1
perform s (forgetting email) w = (forgot_password s email w).1
perform s (resetting token password) w = (reset_password s token password w).1
perform s (editing id bio avatar site) w = (update_profile s.env id bio avatar site w).1

unfoldable pub run : UserService → List Op → Accounts → Accounts
run s [] w = w
run s (o ∷ ops) w = run s ops (perform s o w)
