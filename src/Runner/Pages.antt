-- ===== src/Runner/Pages.antt =====
-- homeHandler and setFrameworkHandler of cmd/command_runner_server/main.go: which user interface a
-- page is shown in.
use mqtt_home_automation.Base.{
  ◌≡◌, Bool, true, not, ◌&&◌, ◌||◌, Option, none, some, arith, if◌then◌else◌,
}
use mqtt_home_automation.Text.{Bytes, codes, str_eq}
use mqtt_home_automation.Runner.State.{Config}

abbrev is_framework : Bytes → Bool
is_framework f = str_eq f (codes "bootstrap") || str_eq f (codes "ionic")

-- The cookie, if there is one, where it names a framework; else the configuration.
pub current_framework : Config → Option Bytes → Bytes
current_framework config none = config.server.ui_framework
current_framework config (some cookie) =
    if is_framework cookie then cookie else config.server.ui_framework

pub template_name : Bytes → Bytes
template_name framework =
    if str_eq framework (codes "ionic") then codes "ionic.html" else codes "index.html"

-- The template that the home page is rendered with.
home_template : Config → Option Bytes → Bytes
unfolding current_framework template_name
home_template config cookie = template_name (current_framework config cookie)

-- The value of the cookie set, if any; every answer is a redirect to "/".
set_framework_handler : Bytes → Bytes → Option Bytes
set_framework_handler method framework =
    if str_eq method (codes "POST")
    then (if not (str_eq framework (codes "bootstrap")) && not (str_eq framework (codes "ionic"))
        then none
        else some framework)
    else none

-- The handler sets only the two frameworks, and what it sets is what was asked for; the home page is
-- then shown from the template of this framework, whatever the configuration says.
home_template-set_framework_handler :
    (config : Config) (method framework cookie : Bytes)
    → set_framework_handler method framework ≡ some cookie
    → (is_framework framework ≡ true)
      × (cookie ≡ framework)
      × (home_template config (some cookie) ≡ template_name framework)
unfolding set_framework_handler home_template current_framework
home_template-set_framework_handler config method framework cookie h = ground arith
