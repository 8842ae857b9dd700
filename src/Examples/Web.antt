-- ===== src/Examples/Web.antt =====
-- A request for a file outside of the console.
use opencode_proxy.Base.{◌≡◌, refl, true, false, [], ◌∷◌}
use opencode_proxy.Text.{codes}
use opencode_proxy.Text.Paths.{slash}
use opencode_proxy.Api.Web.{Files, web_file, IsBelow, web_file-IsBelow}

abbrev no_files : Files
no_files = record { is_file = λ path. false; content_type = λ path. []; serve_file = λ path w. w }

web_file-IsBelow_example :
    IsBelow
      (codes "web/dist")
      (web_file no_files (codes "web/dist") (slash ∷ codes "../x/../../etc/passwd"))
web_file-IsBelow_example =
    web_file-IsBelow no_files (codes "web/dist") (codes "../x/../../etc/passwd") (λ e. cc)

abbrev all_files : Files
all_files = record no_files { is_file = λ path. true }

upwards :
    web_file all_files (codes "web/dist") (codes "/../x/../../etc/passwd")
    ≡ codes "web/dist/etc/passwd"
unfolding web_file
upwards = refl
