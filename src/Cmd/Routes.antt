-- ===== src/Cmd/Routes.antt =====
-- routeMounter of cmd/agentic-delegator/main.go: the routes of the sign-in and of the GitHub App.
use agentic_delegator.Prelude.{ℕ, String, List}
use agentic_delegator.Exec.{State}
use agentic_delegator.Adapter.Reply.{Reply}
use agentic_delegator.Adapter.Oauth
use agentic_delegator.Adapter.Oauth.{Oauth, Answer, SetCookie, login_page}
use agentic_delegator.Adapter.Ghapp.Install
use agentic_delegator.Adapter.Ghapp.Install.{InstallHandler}

pub data MountedRoute : Type 0 where
  get_login get_oauth_callback get_install get_install_callback post_webhook : MountedRoute

-- What the mounted handlers write: the page of GitHub that a login is sent to is its query.
pub data Mounted : Type 0 where
  to_github : SetCookie → List (String × String) → Mounted
  signed : Answer → Mounted
  replied : Reply → Mounted
  status : ℕ → Mounted

-- `webhook` is the Handle of the webhook handler, and `oauth_request` what the callback reads.
pub record RouteMounter (W R : Type 0) : Type 0 where
  pub oauth : Oauth W
  pub install : InstallHandler W R
  pub webhook : R → State W ℕ
  pub oauth_request : R → Oauth.Request

abbrev mount : {W A : Type 0} → (A → Mounted) → State W A → State W Mounted
mount f m w = let (a, w') = m w in (f a, w')

module _ {W R : Type 0} (m : RouteMounter W R) where
  unfoldable pub register_routes : MountedRoute → R → State W Mounted
  register_routes get_login r w = mount (λ a. to_github a.0 a.1) (login_page m.oauth) w
  register_routes get_oauth_callback r w =
      mount signed (Oauth.callback m.oauth (m.oauth_request r)) w
  register_routes get_install r w = (replied (Install.install m.install), w)
  register_routes get_install_callback r w = mount replied (Install.callback m.install r) w
  register_routes post_webhook r w = mount status (m.webhook r) w
